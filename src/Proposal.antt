-- ===== src/Proposal.antt =====
-- packages/sdk/src/provable/contracts/treasury-proposal/treasury-proposal.ts: the contract of one
-- proposal. A method takes the account's state and returns the new one, or rejects.
pub mod Acceptance
pub mod Payout
pub mod Tally
pub mod Sample
mod Tests
use decentralised_treasury.Prelude.{
  ℕ, ◌+◌, List, [], ◌∷◌, ◌++◌, Bool, true, false, not, leb, ◌==◌, bool_eq, if◌then◌else◌, String,
}
use decentralised_treasury.Circuit.{
  O1js, Result, ok, ◌>>=◌, ◌>>◌, require, checked, proposal_paused, vote_result_already_set,
  proof_not_verified, from_actions_hash_mismatch, from_nullifier_root_mismatch,
  voting_ledger_root_mismatch, index_not_zero, initial_voting_root_not_empty, staking_root_mismatch,
  not_exhausted, to_actions_hash_mismatch, owner_key_mismatch, owner_token_mismatch,
  owner_witness_mismatch, participation_not_met, no_approval_votes, proposal_not_approved,
  amount_exceeds_remaining, recipient_mismatch, invalid_pause_nonce, pause_state_matches_target,
}
use decentralised_treasury.Constants.{bond_amount_divisor}
use decentralised_treasury.Account.{Account, account_leaf}
use decentralised_treasury.Merkle.Witness.{Witness, calculate_root}
use decentralised_treasury.Ledgers.{account_ledger_hash_prefixes}
use decentralised_treasury.VoteReducer.Types.{VoteAction}
use decentralised_treasury.VoteReducer.Merge.{VoteReducerProof}
use decentralised_treasury.StakingToVoting.Types.{LedgerProof}
use Acceptance.{
  ProposalStatus, AcceptanceCriteria, ApprovalStatus, calculate_acceptance_criteria,
  calculate_approval_status,
}

-- `status.equals(…)`
pub is_unknown : ProposalStatus → Bool
is_unknown ProposalStatus.unknown = true
is_unknown _ = false

unfoldable pub is_approved : ProposalStatus → Bool
is_approved ProposalStatus.approved = true
is_approved _ = false

unfoldable pub is_paused : ProposalStatus → Bool
is_paused ProposalStatus.paused = true
is_paused _ = false

module _ (o : O1js) where
  open o use {
    Field, of_nat, equals, PublicKey, key_fields, key_eq, poseidon_hash, initial_action_state,
    default_token, uint32, uint64, uint96,
  }

  -- The static settings of the contract: the two verification keys, each as the verification that
  -- it stands for, and the roots of the empty ledgers.
  pub record ProposalSettings : Type 0 where
    pub verify_vote_reducer : VoteReducerProof o → Bool
    pub verify_ledger : LedgerProof o → Bool
    pub empty_nullifier_root : Field
    pub empty_voting_ledger_root : Field

  -- The state of the account, and the actions dispatched so far, the newest last.
  pub record ProposalState : Type 0 where
    pub recipient_hash : Field
    pub amount : ℕ
    pub lifecycle_id : ℕ
    pub staking_epoch_data_ledger_hash : Field
    pub total_currency : ℕ
    pub status : ProposalStatus
    pub paid_out_amount : ℕ
    pub pause_nonce : ℕ
    pub actions : List (VoteAction o)

  pub require_not_paused : ProposalState → Result (Unit {0})
  require_not_paused p = require (not (is_paused p.status)) proposal_paused

  unfoldable pub get_lifecycle_id : ProposalState → ℕ
  get_lifecycle_id p = p.lifecycle_id

  unfoldable pub vote : ProposalState → VoteAction o → Result ProposalState
  unfolding require_not_paused
  vote p action = do require_not_paused p; ok (record p { actions = p.actions ++ action ∷ [] })

  -- The checks of the two proofs against one another and against the proposal.
  pub check_proofs :
      ProposalSettings → ProposalState → VoteReducerProof o → LedgerProof o → Result (Unit {0})
  check_proofs settings p votes ledger = do
    require (settings.verify_vote_reducer votes) proof_not_verified
    require (settings.verify_ledger ledger) proof_not_verified
    require (equals votes.public_input.from_actions_hash initial_action_state)
        from_actions_hash_mismatch
    require (equals votes.public_input.from_nullifier_root settings.empty_nullifier_root)
        from_nullifier_root_mismatch
    require (equals votes.public_input.from_actions_hash initial_action_state)
        from_actions_hash_mismatch
    require (equals votes.public_input.voting_ledger_root ledger.public_output.voting_ledger_root)
        voting_ledger_root_mismatch
    require (ledger.public_input.index == 0) index_not_zero
    require (equals ledger.public_input.voting_ledger_root settings.empty_voting_ledger_root)
        initial_voting_root_not_empty
    require (equals ledger.public_input.staking_ledger_root p.staking_epoch_data_ledger_hash)
        staking_root_mismatch
    require ledger.public_output.exhausted not_exhausted
    require
        (equals votes.public_output.to_actions_hash
          votes.public_output.action_state_history.action_state_one.hash)
        to_actions_hash_mismatch

  -- The account is the treasury owner's, and stands in the staking ledger.
  pub check_owner_account : Field → PublicKey → Account o → Witness o → Result (Unit {0})
  check_owner_account ledger_hash owner_key account witness = do
    require (key_eq account.pk owner_key) owner_key_mismatch
    require (equals account.token_id default_token) owner_token_mismatch
    require
        (equals (calculate_root o witness (account_leaf o account) account_ledger_hash_prefixes)
          ledger_hash)
        owner_witness_mismatch

  -- The acceptance arithmetic on the tally and the owner's snapshot balance.
  pub decide : ProposalState → VoteReducerProof o → ℕ → Result ApprovalStatus
  decide p votes owner_balance = do
    criteria ← calculate_acceptance_criteria uint96 p.amount owner_balance p.total_currency
    approval ←
        calculate_approval_status uint96 votes.public_output.yay votes.public_output.nay
          votes.public_output.abstain criteria.required_participation criteria.required_approval_bp
    require approval.participation_met participation_not_met
    require approval.has_approval_votes no_approval_votes
    ok approval

  unfoldable pub tally_votes :
      ProposalSettings
      → ProposalState
      → VoteReducerProof o
      → LedgerProof o
      → PublicKey
      → Account o
      → Witness o
      → Result (ProposalState × ProposalStatus)
  unfolding require_not_paused check_proofs check_owner_account decide
  tally_votes settings p votes ledger owner_key owner_account owner_witness = do
    require_not_paused p
    require (is_unknown p.status) vote_result_already_set
    check_proofs settings p votes ledger
    check_owner_account p.staking_epoch_data_ledger_hash owner_key owner_account owner_witness
    approval ← decide p votes owner_account.balance
    ok (record p { status = approval.vote_result }, approval.vote_result)

  -- What the recipient's account update adds to its balance comes back with the new state.
  unfoldable pub execute : ProposalState → ℕ → PublicKey → Result (ProposalState × ℕ)
  unfolding require_not_paused
  execute p amount_to_pay_out recipient = do
    require_not_paused p
    bond ← checked (uint64.div p.amount bond_amount_divisor)
    amount_with_bond ← checked (uint64.add p.amount bond)
    remaining ← checked (uint64.sub amount_with_bond p.paid_out_amount)
    require (is_approved p.status) proposal_not_approved
    require (leb amount_to_pay_out remaining) amount_exceeds_remaining
    require (equals p.recipient_hash (poseidon_hash (key_fields recipient))) recipient_mismatch
    paid ← checked (uint64.add p.paid_out_amount amount_to_pay_out)
    ok (record p { paid_out_amount = paid }, amount_to_pay_out)

  unfoldable pub set_paused : ProposalState → ℕ → Bool → Result ProposalState
  set_paused p nonce paused = do
    require (p.pause_nonce == nonce) invalid_pause_nonce
    require (not (bool_eq (is_paused p.status) paused)) pause_state_matches_target
    let new_status = if paused then ProposalStatus.paused else ProposalStatus.unknown
    next ← checked (uint32.add p.pause_nonce 1)
    ok (record p { status = new_status; pause_nonce = next })
