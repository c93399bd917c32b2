-- ===== src/Proposal/Tests.antt =====
-- The proposal contract on a proposal for 1000, whose bond is 100.
use decentralised_treasury.Prelude.{ℕ, ◌+◌, ◌≤◌, ◌≡◌, ◌≢◌, ◌↔◌, refl, [], ◌∷◌, true, false, arith}
use decentralised_treasury.Circuit.{ok, err, invalid_pause_nonce}
use decentralised_treasury.Circuit.Sample.{sample_o1js}
use decentralised_treasury.VoteReducer.Types.{VoteAction}
use decentralised_treasury.Proposal.Acceptance.{ProposalStatus}
use decentralised_treasury.Proposal.{
  ProposalState, vote, execute, set_paused, is_approved, is_paused,
}
use decentralised_treasury.Proposal.Sample.{
  settings, proposed, vote_proof, ledger_proof, owner_account, tallying,
}
use decentralised_treasury.Proposal.Tally.{Linked, Decided, tally_votes_sound}
use decentralised_treasury.Proposal.Payout.{
  amount_with_bond, History, Step, payouts_bounded, execute_iff, set_paused_replay,
  unpause_forgets_approval, is_tally, is_tallied,
}

-- A proposal to key 9, with some of its amount paid.
abbrev state : ProposalStatus → ℕ → ProposalState sample_o1js
state status paid = record {
  recipient_hash = 40;
  amount = 1000;
  lifecycle_id = 2;
  staking_epoch_data_ledger_hash = 7;
  total_currency = 1000000;
  status = status;
  paid_out_amount = paid;
  pause_nonce = 0;
  actions = [];
}

abbrev approved : ProposalState sample_o1js
approved = state ProposalStatus.approved 0

two_payouts : History sample_o1js settings approved 1100 (state ProposalStatus.approved 1100)
unfolding execute is_paused is_approved
two_payouts =
    History.next (History.next History.here (Step.pays 1000 9 refl) refl) (Step.pays 100 9 refl)
      refl

-- The two payouts spend the amount with its bond.
payouts_bounded_example :
    (1100 ≤ amount_with_bond 1000)
    × ((state ProposalStatus.approved 1100).paid_out_amount ≡ 1100)
    × ((state ProposalStatus.approved 1100).amount ≡ approved.amount)
    × ((state ProposalStatus.approved 1100).recipient_hash ≡ approved.recipient_hash)
payouts_bounded_example = payouts_bounded sample_o1js refl two_payouts

execute_iff_example :
    (execute sample_o1js (state ProposalStatus.approved 400) 610 9
      ≡ ok (state ProposalStatus.approved (400 + 610), 610))
    ↔ ((ProposalStatus.approved ≡ ProposalStatus.approved)
        × ((state ProposalStatus.approved 400).paid_out_amount + 610 ≤ amount_with_bond 1000)
        × (sample_o1js.equals 40 (sample_o1js.poseidon_hash (sample_o1js.key_fields 9)) ≡ true))
execute_iff_example =
    execute_iff sample_o1js (state ProposalStatus.approved 400) 610 9 (omega arith) (omega arith)

-- The states that a pause and an unpause of the approved proposal make.
abbrev paused_state : ProposalState sample_o1js
paused_state = record approved { status = ProposalStatus.paused; pause_nonce = 1 }

abbrev unpaused_state : ProposalState sample_o1js
unpaused_state = record approved { status = ProposalStatus.unknown; pause_nonce = 2 }

pausing : set_paused sample_o1js approved 0 true ≡ ok paused_state
unfolding set_paused is_paused
pausing = refl

unpausing : set_paused sample_o1js paused_state 1 false ≡ ok unpaused_state
unfolding set_paused is_paused
unpausing = refl

-- The proposal is unpaused and voted on in between.
abbrev ballot : VoteAction sample_o1js
ballot = record { vote = 1; public_key = 5 }

abbrev voted_state : ProposalState sample_o1js
voted_state = record unpaused_state { actions = ballot ∷ [] }

voting : vote sample_o1js unpaused_state ballot ≡ ok voted_state
unfolding vote is_paused
voting = refl

abbrev since_unpaused : History sample_o1js settings unpaused_state 0 voted_state
since_unpaused = History.next History.here (Step.votes ballot voting) refl

since_paused : History sample_o1js settings paused_state 0 voted_state
since_paused =
    History.next (History.next History.here (Step.pauses 1 false unpausing) refl)
      (Step.votes ballot voting) refl

set_paused_replay_example : set_paused sample_o1js voted_state 0 false ≡ err invalid_pause_nonce
set_paused_replay_example =
    set_paused_replay sample_o1js settings approved 0 true false pausing since_paused

no_tally : is_tallied sample_o1js since_unpaused ≡ false
unfolding is_tallied is_tally
no_tally = refl

unpause_forgets_approval_example :
    (unpaused_state
      ≡ record approved { status = ProposalStatus.unknown; pause_nonce = approved.pause_nonce + 2 })
    × ((◌≡◌ {A = ℕ}) 0 0)
    × (voted_state.status ≢ ProposalStatus.approved)
    × (execute sample_o1js voted_state 100 9
        ≢ ok (record voted_state { paid_out_amount = 100 }, 100))
unpause_forgets_approval_example =
    unpause_forgets_approval sample_o1js settings approved 100 9
      (record voted_state { paid_out_amount = 100 }) 100 pausing unpausing since_unpaused no_tally

tally_votes_sound_example :
    (proposed.status ≡ ProposalStatus.unknown)
    × (record proposed { status = ProposalStatus.approved }
        ≡ record proposed { status = ProposalStatus.approved })
    × Linked sample_o1js settings proposed vote_proof ledger_proof
    × (owner_account.pk ≡ 8)
    × Decided sample_o1js proposed vote_proof 1000 ProposalStatus.approved
tally_votes_sound_example =
    tally_votes_sound sample_o1js settings proposed vote_proof ledger_proof 8 owner_account []
      (omega arith) (omega arith) (omega arith) (omega arith) (omega arith) tallying
