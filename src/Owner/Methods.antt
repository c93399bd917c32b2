-- ===== src/Owner/Methods.antt =====
-- The methods of `TreasuryOwnerSmartContract`, on the accounts that a transaction touches.
pub mod Withdrawal
pub mod Inversions
pub mod Guards
pub mod Totals
pub mod Funds
use decentralised_treasury.Prelude.{
  ℕ, ◌+◌, ◌-◌, List, [], ◌∷◌, ◌++◌, Bool, true, false, not, ltb, leb, ◌==◌, if◌then◌else◌, Option,
  none, some,
}
use decentralised_treasury.Circuit.{
  O1js, Result, ok, err, ◌>>=◌, ◌>>◌, require, checked, precondition, unknown_proposal,
  insufficient_balance, missing_signature, amount_too_small, owner_key_mismatch,
  owner_token_mismatch, owner_balance_not_positive, owner_witness_mismatch, invalid_vote,
  dummy_vote, action_state_not_found, initial_action_state_used, action_states_not_unique,
  token_update_not_allowed, proof_not_verified,
}
use decentralised_treasury.Constants.{bond_amount_divisor, min_proposal_amount}
use decentralised_treasury.Account.{Account, account_leaf}
use decentralised_treasury.Merkle.Witness.{Witness, calculate_root}
use decentralised_treasury.Ledgers.{account_ledger_hash_prefixes}
use decentralised_treasury.VoteReducer.Types.{
  VoteAction, is_valid_vote, dummy_vote as reserved_vote, ActionState, ActionStateHistory,
}
use decentralised_treasury.VoteReducer.Merge.{VoteReducerProof}
use decentralised_treasury.StakingToVoting.Types.{LedgerProof}
use decentralised_treasury.PauseController.{ControllerState}
use decentralised_treasury.PauseController
use decentralised_treasury.Proposal.Acceptance.{ProposalStatus}
use decentralised_treasury.Proposal.{ProposalState, ProposalSettings}
use decentralised_treasury.Proposal
use decentralised_treasury.Owner.Lifecycle.{LifecyclePeriod, require_lifecycle_period}
use decentralised_treasury.Owner.Permissions.{WithdrawalPermission}

module _ (o : O1js) where
  open o use {
    Field, of_nat, equals, PublicKey, key_fields, key_eq, poseidon_hash, initial_action_state,
    default_token, Signature, uint32, uint64,
  }

  -- `Proposal`, the arguments of a new proposal; the URI of the zkApp enters by its hash.
  pub record ProposalArguments : Type 0 where
    pub amount : ℕ
    pub recipient : PublicKey
    pub zkapp_uri_hash : Field

  -- The static settings of the owner contract, and the permission that it was deployed with, which
  -- nothing changes later.
  pub record OwnerSettings : Type 0 where
    pub proposal_settings : ProposalSettings o
    pub duration : ℕ
    pub owner_key : PublicKey
    pub proposal_token : Field
    pub proposal_needs_signature : Bool
    pub withdrawal_permission : WithdrawalPermission

  -- What the network and the signers of the transaction contribute: the slot, the staking epoch
  -- data, the action states that an account's precondition accepts, and who has signed.
  pub record Transaction : Type 0 where
    pub slot : ℕ
    pub staking_ledger_hash : Field
    pub total_currency : ℕ
    pub has_action_state : PublicKey → Field → Bool
    pub sender : PublicKey
    pub has_signed : PublicKey → Bool

  pub data Event : Type 0 where
    proposal_created :
        (proposal : PublicKey) (lifecycle_id amount : ℕ)
        → (recipient sender : PublicKey) → (uri_hash ledger_hash : Field) → (total_currency : ℕ)
        → Event
    vote_dispatched : (proposal voter : PublicKey) → (vote : Field) → (sender : PublicKey) → Event
    votes_tallied :
        (proposal : PublicKey) (lifecycle_id yay nay abstain : ℕ)
        → ProposalStatus
        → (sender : PublicKey) → Event
    proposal_executed : (proposal : PublicKey) → (amount : ℕ) → (sender : PublicKey) → Event
    pause_toggled : (proposal : PublicKey) → (paused : Bool) → (sender : PublicKey) → Event

  -- The accounts: the owner's state and balance, the pause controller, the proposals by key, and
  -- the events emitted so far, the newest last.
  pub record World : Type 0 where
    pub deployed_at_slot : ℕ
    pub balance : ℕ
    pub controller : ControllerState o
    pub proposals : List (PublicKey × ProposalState o)
    pub events : List Event

  unfoldable pub lookup : PublicKey → List (PublicKey × ProposalState o) → Option (ProposalState o)
  lookup key [] = none
  lookup key ((k, p) ∷ ps) = if key_eq k key then some p else lookup key ps

  unfoldable pub replace :
      PublicKey
      → ProposalState o
      → List (PublicKey × ProposalState o)
      → List (PublicKey × ProposalState o)
  replace key q [] = []
  replace key q ((k, p) ∷ ps) = if key_eq k key then (k, q) ∷ ps else (k, p) ∷ replace key q ps

  -- The proposal's account has to exist.
  unfoldable pub find_proposal : World → PublicKey → Result (ProposalState o)
  unfolding lookup
  find_proposal w key = elim (lookup key w.proposals) [
    | none ↦ err unknown_proposal
    | some p ↦ ok p
  ]

  unfoldable pub emit : Event → World → World
  emit e w = record w { events = w.events ++ e ∷ [] }

  -- `this.sender.getAndRequireSignature()`
  unfoldable pub require_sender : Transaction → Result (Unit {0})
  require_sender tx = require (tx.has_signed tx.sender) missing_signature

  unfoldable pub require_not_paused : World → Result (Unit {0})
  require_not_paused w = PauseController.require_not_paused o w.controller

  pub receive : World → ℕ → Result World
  receive w amount = do
    balance ← checked (uint64.add w.balance amount)
    ok (record w { balance = balance })

  -- The account that `createSigned` and the written app state make.
  pub new_proposal : ProposalArguments → ℕ → Transaction → ProposalState o
  new_proposal arguments lifecycle_id tx = record {
    recipient_hash = poseidon_hash (key_fields arguments.recipient);
    amount = arguments.amount;
    lifecycle_id = lifecycle_id;
    staking_epoch_data_ledger_hash = tx.staking_ledger_hash;
    total_currency = tx.total_currency;
    status = ProposalStatus.unknown;
    paid_out_amount = 0;
    pause_nonce = 0;
    actions = [];
  }

  -- The owner's account, with a positive balance, stands in the staking ledger of the epoch.
  pub check_owner_snapshot : OwnerSettings → Transaction → Account o → Witness o → Result (Unit {0})
  check_owner_snapshot settings tx account witness = do
    require (key_eq account.pk settings.owner_key) owner_key_mismatch
    require (equals account.token_id default_token) owner_token_mismatch
    require (ltb 0 account.balance) owner_balance_not_positive
    require
        (equals (calculate_root o witness (account_leaf o account) account_ledger_hash_prefixes)
          tx.staking_ledger_hash)
        owner_witness_mismatch

  -- A signed update cannot write the app state of an account that exists: its permissions ask for
  -- a proof.
  pub require_new : World → PublicKey → Result (Unit {0})
  unfolding lookup
  require_new w key = elim (lookup key w.proposals) [ none ↦ ok tt | some p ↦ err precondition ]

  pub create_proposal :
      OwnerSettings
      → Transaction
      → World
      → PublicKey
      → ProposalArguments
      → ℕ
      → Account o
      → Witness o
      → Result World
  unfolding check_owner_snapshot require_not_paused require_new require_sender new_proposal emit
  create_proposal settings tx w key arguments lifecycle_id account witness = do
    require (leb min_proposal_amount arguments.amount) amount_too_small
    check_owner_snapshot settings tx account witness
    require_lifecycle_period uint32 settings.duration w.deployed_at_slot LifecyclePeriod.proposal
        lifecycle_id false tx.slot
    require_not_paused w
    bond ← checked (uint64.div arguments.amount bond_amount_divisor)
    balance ← checked (uint64.add w.balance bond)
    require (tx.has_signed key) missing_signature
    require_new w key
    require_sender tx
    ok (
        emit
          (proposal_created key lifecycle_id arguments.amount arguments.recipient tx.sender
            arguments.zkapp_uri_hash tx.staking_ledger_hash tx.total_currency)
          (record w {
            balance = balance;
            proposals = (key, new_proposal arguments lifecycle_id tx) ∷ w.proposals;
          }))

  unfoldable pub vote :
      OwnerSettings → Transaction → World → PublicKey → PublicKey → Field → Result World
  unfolding find_proposal require_not_paused require_sender replace emit
  vote settings tx w key voter vote_cast = do
    require_sender tx
    require_not_paused w
    p ← find_proposal w key
    require_lifecycle_period uint32 settings.duration w.deployed_at_slot LifecyclePeriod.voting
        (Proposal.get_lifecycle_id o p) false tx.slot
    require (is_valid_vote o vote_cast) invalid_vote
    require (not (equals vote_cast (reserved_vote o))) dummy_vote
    q ← Proposal.vote o p (record { vote = vote_cast; public_key = voter })
    require (tx.has_signed voter) missing_signature
    ok (
        emit (vote_dispatched key voter vote_cast tx.sender)
          (record w { proposals = replace key q w.proposals }))

  not_among : Field → List (ActionState o) → Result (Unit {0})
  not_among hash [] = ok tt
  not_among hash (s ∷ ss) = do
    require (not (equals hash s.hash)) action_states_not_unique
    not_among hash ss

  -- The double loop over the five action states.
  unfoldable pub check_action_states :
      Transaction → PublicKey → List (ActionState o) → Result (Unit {0})
  unfolding not_among
  check_action_states tx key [] = ok tt
  check_action_states tx key (s ∷ ss) = do
    require (tx.has_action_state key s.hash) precondition
    require s.found action_state_not_found
    require (not (equals s.hash initial_action_state)) initial_action_state_used
    not_among s.hash ss
    check_action_states tx key ss

  unfoldable pub history_states : ActionStateHistory o → List (ActionState o)
  history_states h =
      h.action_state_one ∷ h.action_state_two ∷ h.action_state_three ∷ h.action_state_four
      ∷ h.action_state_five ∷ []

  unfoldable pub tally_votes :
      OwnerSettings
      → Transaction
      → World
      → PublicKey
      → VoteReducerProof o
      → LedgerProof o
      → Account o
      → Witness o
      → Result World
  unfolding find_proposal require_not_paused require_sender replace emit check_action_states
      history_states
  tally_votes settings tx w key votes ledger account witness = do
    require_sender tx
    require_not_paused w
    require (settings.proposal_settings.verify_vote_reducer votes) proof_not_verified
    require (settings.proposal_settings.verify_ledger ledger) proof_not_verified
    p ← find_proposal w key
    require_lifecycle_period uint32 settings.duration w.deployed_at_slot LifecyclePeriod.cooldown
        (Proposal.get_lifecycle_id o p) true tx.slot
    check_action_states tx key (history_states votes.public_output.action_state_history)
    (q, result) ←
        Proposal.tally_votes o settings.proposal_settings p votes ledger settings.owner_key account
          witness
    ok (
        emit
          (votes_tallied key (Proposal.get_lifecycle_id o p) votes.public_output.yay
            votes.public_output.nay votes.public_output.abstain result tx.sender)
          (record w { proposals = replace key q w.proposals }))

  pub execute_proposal :
      OwnerSettings → Transaction → World → PublicKey → PublicKey → ℕ → Result World
  unfolding find_proposal require_not_paused require_sender replace emit
  execute_proposal settings tx w key recipient amount = do
    require_not_paused w
    p ← find_proposal w key
    next_lifecycle ← checked (uint32.add (Proposal.get_lifecycle_id o p) 1)
    require_lifecycle_period uint32 settings.duration w.deployed_at_slot LifecyclePeriod.proposal
        next_lifecycle true tx.slot
    require_sender tx
    require (leb amount w.balance) insufficient_balance
    (q, paid) ← Proposal.execute o p amount recipient
    require (if settings.proposal_needs_signature then tx.has_signed key else true)
        missing_signature
    ok (
        emit (proposal_executed key amount tx.sender)
          (record w { balance = w.balance - paid; proposals = replace key q w.proposals }))

  pub toggle_pause_proposal :
      OwnerSettings
      → Transaction
      → World
      → PublicKey
      → List PublicKey
      → List Signature
      → ℕ
      → Bool
      → Result World
  unfolding find_proposal require_sender replace emit
  toggle_pause_proposal settings tx w key participants signatures nonce paused = do
    require_sender tx
    PauseController.toggle_pause_proposal o w.controller participants key settings.proposal_token
        signatures nonce paused
    p ← find_proposal w key
    q ← Proposal.set_paused o p nonce paused
    ok (
        emit (pause_toggled key paused tx.sender)
          (record w { proposals = replace key q w.proposals }))

  -- `approveBase`, on whether each update of the forest uses the token.
  unfoldable pub approve_base : List Bool → Result (Unit {0})
  approve_base [] = ok tt
  approve_base (uses_token ∷ updates) = do
    require (not uses_token) token_update_not_allowed
    approve_base updates
