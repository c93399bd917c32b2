-- ===== src/Proposal/Tally.antt =====
-- What a successful tally of a proposal establishes.
use decentralised_treasury.Prelude.{
  ℕ, ◌+◌, ◌*◌, ◌^◌, ◌≤◌, ◌<◌, ◌≡◌, ◌↔◌, ◌⊎◌, zero, suc, true, arith,
}
use decentralised_treasury.Circuit.{O1js, ok}
use decentralised_treasury.Constants.{basis_points, min_approval_bp}
use decentralised_treasury.Account.{Account}
use decentralised_treasury.Merkle.Witness.{Witness}
use decentralised_treasury.VoteReducer.Merge.{VoteReducerProof}
use decentralised_treasury.StakingToVoting.Types.{LedgerProof}
use decentralised_treasury.Proposal.Acceptance.{
  ProposalStatus, AcceptanceCriteria, ApprovalStatus, calculate_acceptance_criteria,
  calculate_approval_status,
}
use decentralised_treasury.Proposal.Acceptance.Criteria.{
  criteria_within_bounds, criteria_of_empty_treasury,
}
use decentralised_treasury.Proposal.Acceptance.Approval.{approval_decides}
use decentralised_treasury.Proposal.{
  ProposalState, ProposalSettings, is_paused, is_unknown, require_not_paused, check_proofs,
  check_owner_account, decide, tally_votes,
}

module _ (o : O1js) where
  open o use {PublicKey, equals, key_eq, initial_action_state, default_token, uint96}

  -- The outcome of the decision: what it says of the votes.
  pub record Decided (p : ProposalState o) (votes : VoteReducerProof o) (balance : ℕ)
      (r : ProposalStatus) : Type 0 where
    pub criteria : AcceptanceCriteria
    pub computed :
        calculate_acceptance_criteria uint96 p.amount balance p.total_currency ≡ ok criteria
    pub threshold : min_approval_bp ≤ criteria.required_approval_bp
    pub participation :
        criteria.required_participation
        ≤ votes.public_output.yay + votes.public_output.nay + votes.public_output.abstain
    pub some_votes : 0 < votes.public_output.yay + votes.public_output.nay
    pub approved_iff : (r ≡ ProposalStatus.approved) ↔ (
        criteria.required_approval_bp * (votes.public_output.yay + votes.public_output.nay)
        ≤ votes.public_output.yay * basis_points)
    pub decided : (r ≡ ProposalStatus.approved) ⊎ (r ≡ ProposalStatus.rejected)

  decide_steps :
      (p : ProposalState o) (votes : VoteReducerProof o) (balance : ℕ) {s t : ApprovalStatus}
      {c : AcceptanceCriteria}
      → decide o p votes balance ≡ ok s
      → calculate_acceptance_criteria uint96 p.amount balance p.total_currency ≡ ok c
      → calculate_approval_status uint96 votes.public_output.yay votes.public_output.nay
          votes.public_output.abstain c.required_participation c.required_approval_bp
        ≡ ok t
      → (t.participation_met ≡ true) × (t.has_approval_votes ≡ true) × (t ≡ s)
  unfolding decide
  decide_steps p votes balance h ec et = ground arith

  decide_inv :
      (p : ProposalState o) (votes : VoteReducerProof o) (balance : ℕ) {s : ApprovalStatus}
      → p.amount < 2 ^ 64
      → p.total_currency < 2 ^ 64
      → votes.public_output.yay < 2 ^ 64
      → votes.public_output.nay < 2 ^ 64
      → votes.public_output.abstain < 2 ^ 64
      → decide o p votes balance ≡ ok s
      → Decided p votes balance s.vote_result
  unfolding decide
  decide_inv p votes zero ha ht hy hn hb h =
      ground (arith, criteria_of_empty_treasury uint96 p.amount p.total_currency)
  decide_inv p votes (suc balance) {s} ha ht hy hn hb h =
      let (c, ec, _, _, low, _, _, _) =
        criteria_within_bounds uint96 p.amount (suc balance) p.total_currency ha (omega arith) ht in
      let out = votes.public_output in
      let (t, et, approved_iff, decided, met, has) =
        approval_decides uint96 out.yay out.nay out.abstain c.required_participation
          c.required_approval_bp hy hn hb in
      let (is_met, is_some, same) = decide_steps p votes (suc balance) h ec et in
      record {
        criteria = c;
        computed = ec;
        threshold = low;
        participation = met.0 is_met;
        some_votes = has.0 is_some;
        approved_iff = rw (← same) (
          (λ a. (approved_iff.0 a).2),
          (λ share. approved_iff.1 (met.0 is_met, has.0 is_some, share)),
        );
        decided = rw (← same) decided;
      }

  -- How the two proofs and the proposal are tied together.
  pub record Linked (settings : ProposalSettings o) (p : ProposalState o)
      (votes : VoteReducerProof o) (ledger : LedgerProof o) : Type 0 where
    pub votes_verified : settings.verify_vote_reducer votes ≡ true
    pub ledger_verified : settings.verify_ledger ledger ≡ true
    pub from_initial_actions : votes.public_input.from_actions_hash ≡ initial_action_state
    pub from_empty_nullifiers :
        votes.public_input.from_nullifier_root ≡ settings.empty_nullifier_root
    pub same_voting_ledger :
        votes.public_input.voting_ledger_root ≡ ledger.public_output.voting_ledger_root
    pub from_index_zero : ledger.public_input.index ≡ 0
    pub from_empty_voting_ledger :
        ledger.public_input.voting_ledger_root ≡ settings.empty_voting_ledger_root
    pub of_staking_ledger :
        ledger.public_input.staking_ledger_root ≡ p.staking_epoch_data_ledger_hash
    pub ledger_exhausted : ledger.public_output.exhausted ≡ true
    pub to_first_action_state :
        votes.public_output.to_actions_hash
        ≡ votes.public_output.action_state_history.action_state_one.hash

  check_proofs_inv :
      (settings : ProposalSettings o) (p : ProposalState o) (votes : VoteReducerProof o)
      (ledger : LedgerProof o)
      → check_proofs o settings p votes ledger ≡ ok tt
      → Linked settings p votes ledger
  unfolding check_proofs
  check_proofs_inv settings p votes ledger h = ground (
    arith,
    (o.equals_iff votes.public_input.from_actions_hash initial_action_state).0,
    (o.equals_iff votes.public_input.from_nullifier_root settings.empty_nullifier_root).0,
    (o.equals_iff votes.public_input.voting_ledger_root ledger.public_output.voting_ledger_root).0,
    (o.equals_iff ledger.public_input.voting_ledger_root settings.empty_voting_ledger_root).0,
    (o.equals_iff ledger.public_input.staking_ledger_root p.staking_epoch_data_ledger_hash).0,
    (o.equals_iff votes.public_output.to_actions_hash
        votes.public_output.action_state_history.action_state_one.hash).0,
  )

  check_owner_account_inv :
      (root : o.Field) (key : PublicKey) (account : Account o) (witness : Witness o)
      → check_owner_account o root key account witness ≡ ok tt
      → account.pk ≡ key
  unfolding check_owner_account
  check_owner_account_inv root key account witness h =
      ground (arith, (o.key_eq_iff account.pk key).0)

  tally_steps :
      (settings : ProposalSettings o) (p : ProposalState o) (votes : VoteReducerProof o)
      (ledger : LedgerProof o) (key : PublicKey) (account : Account o) (witness : Witness o)
      {q : ProposalState o} {r : ProposalStatus}
      → tally_votes o settings p votes ledger key account witness ≡ ok (q, r)
      → (s : ApprovalStatus) × (p.status ≡ ProposalStatus.unknown)
        × (check_proofs o settings p votes ledger ≡ ok tt)
        × (check_owner_account o p.staking_epoch_data_ledger_hash key account witness ≡ ok tt)
        × (decide o p votes account.balance ≡ ok s)
        × (q ≡ record p { status = r })
        × (r ≡ s.vote_result)
  unfolding tally_votes is_paused is_unknown require_not_paused
  tally_steps settings p votes ledger key account witness h = ground arith

  -- A tally that goes through started from an undecided proposal that is not paused, with proofs
  -- that fit together and fit the proposal: the vote reduction starts from the initial action state
  -- and the empty nullifier tree and ends in the first recorded action state; it uses the voting
  -- ledger that the ledger proof makes, from index 0 and an empty voting ledger to exhaustion, out
  -- of the proposal's own staking ledger. The result stored is the one returned. It is approved
  -- exactly when the votes for reach the required share of the votes for and against, and rejected
  -- otherwise; in both cases the participation is reached. The amounts and tallies are 64-bit.
  pub tally_votes_sound :
      (settings : ProposalSettings o) (p : ProposalState o) (votes : VoteReducerProof o)
      (ledger : LedgerProof o) (key : PublicKey) (account : Account o) (witness : Witness o)
      {q : ProposalState o} {r : ProposalStatus}
      → p.amount < 2 ^ 64
      → p.total_currency < 2 ^ 64
      → votes.public_output.yay < 2 ^ 64
      → votes.public_output.nay < 2 ^ 64
      → votes.public_output.abstain < 2 ^ 64
      → tally_votes o settings p votes ledger key account witness ≡ ok (q, r)
      → (p.status ≡ ProposalStatus.unknown)
        × (q ≡ record p { status = r })
        × Linked settings p votes ledger
        × (account.pk ≡ key)
        × Decided p votes account.balance r
  tally_votes_sound settings p votes ledger key account witness ha ht hy hn hb h =
      let (s, unknown, checked_proofs, checked_owner, decided, eq, er) =
        tally_steps settings p votes ledger key account witness h in
      (
        unknown,
        eq,
        check_proofs_inv settings p votes ledger checked_proofs,
        check_owner_account_inv _ key account witness checked_owner,
        rw er (decide_inv p votes account.balance ha ht hy hn hb decided),
      )
