-- ===== src/Owner/Methods/Inversions.antt =====
-- About the methods of the owner and the signed withdrawal: what each has checked and changed.
use decentralised_treasury.Prelude.{
  ℕ, ◌+◌, ◌-◌, ◌/◌, ◌≤◌, ◌≡◌, List, ◌∷◌, Bool, true, false, some, none, arith, Option-cases, inl,
  inr,
}
use decentralised_treasury.Circuit.{O1js, ok, Result-cases}
use decentralised_treasury.Account.{Account}
use decentralised_treasury.Merkle.Witness.{Witness}
use decentralised_treasury.VoteReducer.Types.{VoteAction}
use decentralised_treasury.VoteReducer.Merge.{VoteReducerProof}
use decentralised_treasury.StakingToVoting.Types.{LedgerProof}
use decentralised_treasury.PauseController
use decentralised_treasury.Proposal.Acceptance.{ProposalStatus}
use decentralised_treasury.Proposal.{ProposalState}
use decentralised_treasury.Proposal
use decentralised_treasury.Owner.Lifecycle.{LifecyclePeriod, require_lifecycle_period}
use decentralised_treasury.Owner.Methods.{
  OwnerSettings, Transaction, World, ProposalArguments, lookup, replace, require_not_paused,
  require_sender, emit, create_proposal, vote, tally_votes, execute_proposal, toggle_pause_proposal,
  new_proposal,
}
use decentralised_treasury.Owner.Methods.Withdrawal.{emergency_withdraw}
use decentralised_treasury.Owner.Permissions.{
  WithdrawalPermission, permits_signature, create_treasury_owner_permissions,
  withdrawal_authorization,
}
use decentralised_treasury.Constants.{bond_amount_divisor}

module _ (o : O1js) (settings : OwnerSettings o) (tx : Transaction o) (w : World o) where
  open o use {PublicKey, Field, uint32}

  pub vote_inv :
      (key voter : PublicKey) (vote_cast : Field) {w' : World o}
      → vote o settings tx w key voter vote_cast ≡ ok w'
      → (p q : ProposalState o) × (lookup o key w.proposals ≡ some p)
        × (require_lifecycle_period uint32 settings.duration w.deployed_at_slot
              LifecyclePeriod.voting
              (Proposal.get_lifecycle_id o p)
              false
              tx.slot
            ≡ ok tt)
        × (Proposal.vote o p (record { vote = vote_cast; public_key = voter }) ≡ ok q)
        × (w'.proposals ≡ replace o key q w.proposals)
        × (tx.has_signed voter ≡ true)
        × (PauseController.require_not_paused o w.controller ≡ ok tt)
        × (w'.balance ≡ w.balance)
  unfolding vote require_not_paused require_sender emit
  vote_inv key voter vote_cast h = elim (Option-cases (lookup o key w.proposals)) [
    | inl missing ↦ absurd (ground arith)
    | inr (p, found) ↦
        let cast : VoteAction o = record { vote = vote_cast; public_key = voter } in
        elim (Result-cases (Proposal.vote o p cast)) [
          | inl (q, e) ↦
              (p, q, found, ground arith, e, ground arith, ground arith, ground arith, ground arith)
          | inr (x, e) ↦ absurd (ground arith)
        ]
  ]

  pub tally_votes_inv :
      (key : PublicKey) (proof : VoteReducerProof o) (ledger : LedgerProof o) (account : Account o)
      (witness : Witness o) {w' : World o}
      → tally_votes o settings tx w key proof ledger account witness ≡ ok w'
      → (p q : ProposalState o) × (r : ProposalStatus) × (lookup o key w.proposals ≡ some p)
        × (require_lifecycle_period uint32 settings.duration w.deployed_at_slot
              LifecyclePeriod.cooldown
              (Proposal.get_lifecycle_id o p)
              true
              tx.slot
            ≡ ok tt)
        × (Proposal.tally_votes o settings.proposal_settings p proof ledger settings.owner_key
              account witness
            ≡ ok (q, r))
        × (w'.proposals ≡ replace o key q w.proposals)
        × (PauseController.require_not_paused o w.controller ≡ ok tt)
        × (w'.balance ≡ w.balance)
  unfolding tally_votes require_not_paused require_sender emit
  tally_votes_inv key proof ledger account witness h =
      elim (Option-cases (lookup o key w.proposals)) [
        | inl missing ↦ absurd (ground arith)
        | inr (p, found) ↦
            elim (Result-cases (
              Proposal.tally_votes o settings.proposal_settings p proof ledger settings.owner_key
                account witness)) [
                  | inl ((q, r), e) ↦
                      (p, q, r, found, ground arith, e, ground arith, ground arith, ground arith)
                  | inr (x, e) ↦ absurd (ground arith)
                ]
      ]

  pub execute_proposal_inv :
      (key recipient : PublicKey) (amount : ℕ) {w' : World o}
      → execute_proposal o settings tx w key recipient amount ≡ ok w'
      → (p q : ProposalState o) × (paid : ℕ) × (lookup o key w.proposals ≡ some p)
        × (Proposal.execute o p amount recipient ≡ ok (q, paid))
        × (w'.proposals ≡ replace o key q w.proposals)
        × (PauseController.require_not_paused o w.controller ≡ ok tt)
        × (amount ≤ w.balance)
        × (w'.balance ≡ w.balance - paid)
  unfolding execute_proposal require_not_paused require_sender emit
  execute_proposal_inv key recipient amount h = elim (Option-cases (lookup o key w.proposals)) [
    | inl missing ↦ absurd (ground arith)
    | inr (p, found) ↦ elim (Result-cases (Proposal.execute o p amount recipient)) [
      | inl ((q, paid), e) ↦
          (p, q, paid, found, e, ground arith, ground arith, ground arith, ground arith)
      | inr (x, e) ↦ absurd (ground arith)
    ]
  ]

  pub create_proposal_inv :
      (key : PublicKey) (arguments : ProposalArguments o) (id : ℕ) (account : Account o)
      (witness : Witness o) {w' : World o}
      → create_proposal o settings tx w key arguments id account witness ≡ ok w'
      → (PauseController.require_not_paused o w.controller ≡ ok tt)
        × (lookup o key w.proposals ≡ none)
        × (tx.has_signed key ≡ true)
        × (w'.proposals ≡ (key, new_proposal o arguments id tx) ∷ w.proposals)
        × (w'.balance ≡ w.balance + arguments.amount / bond_amount_divisor)
  unfolding create_proposal require_not_paused require_sender emit
  create_proposal_inv key arguments id account witness h =
      let bond = o.uint64.div_lem arguments.amount bond_amount_divisor in
      let funded = o.uint64.add_lem w.balance (arguments.amount / bond_amount_divisor) in
      elim (Option-cases (lookup o key w.proposals)) [
        | inl missing ↦ (
          ground arith,
          missing,
          ground arith,
          ground (arith, bond, funded),
          ground (arith, bond, funded),
        )
        | inr (p, found) ↦ absurd (ground arith)
      ]

  pub toggle_pause_proposal_inv :
      (key : PublicKey) (participants : List PublicKey) (signatures : List o.Signature) (nonce : ℕ)
      (paused : Bool) {w' : World o}
      → toggle_pause_proposal o settings tx w key participants signatures nonce paused ≡ ok w'
      → (p q : ProposalState o) × (lookup o key w.proposals ≡ some p)
        × (PauseController.toggle_pause_proposal o w.controller participants key
              settings.proposal_token signatures nonce paused
            ≡ ok tt)
        × (Proposal.set_paused o p nonce paused ≡ ok q)
        × (w'.proposals ≡ replace o key q w.proposals)
        × (w'.balance ≡ w.balance)
  unfolding toggle_pause_proposal require_sender emit
  toggle_pause_proposal_inv key participants signatures nonce paused h =
      elim (Option-cases (lookup o key w.proposals)) [
        | inl missing ↦ absurd (ground arith)
        | inr (p, found) ↦ elim (Result-cases (Proposal.set_paused o p nonce paused)) [
          | inl (q, e) ↦ (p, q, found, ground arith, e, ground arith, ground arith)
          | inr (x, e) ↦ absurd (ground arith)
        ]
      ]

  -- What a signed withdrawal that goes through has checked and changed.
  pub emergency_withdraw_inv :
      (recipient : PublicKey) (amount : ℕ) {w' : World o}
      → emergency_withdraw o settings tx w recipient amount ≡ ok w'
      → (settings.withdrawal_permission ≡ WithdrawalPermission.proof_or_signature)
        × (tx.has_signed settings.owner_key ≡ true)
        × (amount ≤ w.balance)
        × (w' ≡ record w { balance = w.balance - amount })
  unfolding emergency_withdraw permits_signature create_treasury_owner_permissions
      withdrawal_authorization
  emergency_withdraw_inv recipient amount h = ground arith
