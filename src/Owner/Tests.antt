-- ===== src/Owner/Tests.antt =====
-- The owner's methods on a treasury deployed at slot 100 with periods of ten slots.
use decentralised_treasury.Prelude.{
  ℕ, ◌+◌, ◌-◌, ◌/◌, ◌≤◌, ◌<◌, ◌≡◌, ◌≢◌, ◌↔◌, refl, List, [], ◌∷◌, true, false, arith, some,
}
use decentralised_treasury.Circuit.{ok, err, withdrawal_not_permitted}
use decentralised_treasury.Circuit.Sample.{sample_o1js, sample_uint}
use decentralised_treasury.VoteReducer.Types.{VoteAction, is_valid_vote}
use decentralised_treasury.PauseController
use decentralised_treasury.PauseController.{ControllerState}
use decentralised_treasury.Proposal
use decentralised_treasury.Proposal.{ProposalState}
use decentralised_treasury.Proposal.Acceptance.{ProposalStatus}
use decentralised_treasury.Proposal.Sample.{
  settings as proposal_settings, proposed, vote_proof, ledger_proof, owner_account, tallying,
}
use decentralised_treasury.Owner.Lifecycle.{LifecyclePeriod, require_lifecycle_period}
use decentralised_treasury.Owner.Lifecycle.Windows.{
  period_count, require_lifecycle_period_iff, require_lifecycle_period_open_iff, windows_disjoint,
}
use decentralised_treasury.Owner.Methods.{
  OwnerSettings, Transaction, World, Event, lookup, vote, tally_votes,
}
use decentralised_treasury.Owner.Methods.Guards.{
  Call, is_guarded, run_call, paused_blocks, votes_before_tallies,
}
use decentralised_treasury.Owner.Methods.Totals.{total_paid}
use decentralised_treasury.Owner.Methods.Funds.{run_all, proof_permission_keeps_funds}
use decentralised_treasury.Owner.Methods.Withdrawal.{emergency_withdraw}
use decentralised_treasury.Owner.Permissions.{
  WithdrawalPermission, permits_signature, create_treasury_owner_permissions,
}

abbrev settings : OwnerSettings sample_o1js
settings = record {
  proposal_settings = proposal_settings;
  duration = 10;
  owner_key = 8;
  proposal_token = 5;
  proposal_needs_signature = false;
  withdrawal_permission = WithdrawalPermission.proof_or_signature;
}

abbrev at_slot : ℕ → Transaction sample_o1js
at_slot slot = record {
  slot = slot;
  staking_ledger_hash = 7;
  total_currency = 2000;
  has_action_state = λ key hash. true;
  sender = 6;
  has_signed = λ key. true;
}

abbrev treasury : List (ℕ × ProposalState sample_o1js) → World sample_o1js
treasury proposals = record {
  deployed_at_slot = 100;
  balance = 1000;
  controller = record { multisig_commitment = 1; paused = false; nonce = 0 };
  proposals = proposals;
  events = [];
}

-- The voting period of lifecycle 2 is from slot 200 to slot 209.
require_lifecycle_period_iff_example :
    (require_lifecycle_period (sample_uint 32) 10 100 LifecyclePeriod.voting 2 false 205 ≡ ok tt)
    ↔ ((100 ≤ 205) × ((205 - 100) / 10 ≡ period_count 2 LifecyclePeriod.voting))
require_lifecycle_period_iff_example =
    require_lifecycle_period_iff (sample_uint 32) 10 100 2 LifecyclePeriod.voting (omega arith)
      (omega arith) 205

require_lifecycle_period_open_iff_example :
    (require_lifecycle_period (sample_uint 32) 10 100 LifecyclePeriod.cooldown 2 true 500 ≡ ok tt)
    ↔ ((100 ≤ 500) × (period_count 2 LifecyclePeriod.cooldown ≤ (500 - 100) / 10))
require_lifecycle_period_open_iff_example =
    require_lifecycle_period_open_iff (sample_uint 32) 10 100 2 LifecyclePeriod.cooldown
      (omega arith) (omega arith) 500 (omega arith)

in_voting :
    require_lifecycle_period (sample_uint 32) 10 100 LifecyclePeriod.voting 2 false 205 ≡ ok tt
unfolding require_lifecycle_period
in_voting = refl

windows_disjoint_example : (◌≡◌ {A = ℕ} 2 2) × (LifecyclePeriod.voting ≡ LifecyclePeriod.voting)
windows_disjoint_example =
    windows_disjoint (sample_uint 32) 10 100 2 2 LifecyclePeriod.voting LifecyclePeriod.voting 205
      (omega arith) (omega arith) (omega arith) in_voting in_voting

abbrev history : List (Transaction sample_o1js × Call sample_o1js)
history =
    (at_slot 101, Call.receives 500)
    ∷ (
      at_slot 185,
      Call.creates 3 (record { amount = 100000000000; recipient = 9; zkapp_uri_hash = 2 }) 2
          owner_account [],
    )
    ∷ (at_slot 205, Call.votes 3 4 1)
    ∷ (at_slot 215, Call.tallies 3 vote_proof ledger_proof owner_account [])
    ∷ (at_slot 225, Call.executes 3 9 50)
    ∷ (at_slot 226, Call.withdraws 9 300)
    ∷ []

-- The withdrawal by signature goes through, and is refused by a treasury that asks for a proof.
withdrawing :
    run_call sample_o1js settings (at_slot 226) (treasury []) (Call.withdraws 9 300)
    ≡ ok (record (treasury []) { balance = 700 })
unfolding run_call emergency_withdraw permits_signature create_treasury_owner_permissions
withdrawing = refl

abbrev by_proof_alone : OwnerSettings sample_o1js
by_proof_alone = record settings { withdrawal_permission = WithdrawalPermission.proof }

not_withdrawing :
    run_call sample_o1js by_proof_alone (at_slot 226) (treasury []) (Call.withdraws 9 300)
    ≡ err withdrawal_not_permitted
unfolding run_call emergency_withdraw permits_signature create_treasury_owner_permissions
not_withdrawing = refl

proof_permission_keeps_funds_example :
    let (end, received, withdrawn) = run_all sample_o1js by_proof_alone history (treasury []) in
    end.balance + total_paid sample_o1js end.proposals ≡ 1000 + received
proof_permission_keeps_funds_example =
    proof_permission_keeps_funds sample_o1js by_proof_alone history (treasury []) refl refl

abbrev stopped : World sample_o1js
stopped = record (treasury ((3, proposed) ∷ [])) {
  controller = record { multisig_commitment = 1; paused = true; nonce = 0 };
}

guarded : is_guarded sample_o1js settings (at_slot 225) stopped (Call.executes 3 9 50) ≡ true
unfolding is_guarded
guarded = refl

paused_blocks_example :
    run_call sample_o1js settings (at_slot 225) stopped (Call.executes 3 9 50) ≢ ok stopped
paused_blocks_example =
    paused_blocks sample_o1js settings (at_slot 225) stopped (Call.executes 3 9 50) refl guarded

-- A vote at slot 205 and a tally at slot 215.
abbrev open_treasury : World sample_o1js
open_treasury = treasury ((3, proposed) ∷ [])

abbrev ballot : VoteAction sample_o1js
ballot = record { vote = 1; public_key = 4 }

abbrev voted : World sample_o1js
voted = record (treasury ((3, record proposed { actions = ballot ∷ [] }) ∷ [])) {
  events = Event.vote_dispatched 3 4 1 6 ∷ [];
}

abbrev tallied : World sample_o1js
tallied = record (treasury ((3, record proposed { status = ProposalStatus.approved }) ∷ [])) {
  events = Event.votes_tallied 3 2 600 300 0 ProposalStatus.approved 6 ∷ [];
}

found : lookup sample_o1js 3 open_treasury.proposals ≡ some proposed
unfolding lookup
found = refl

voting : vote sample_o1js settings (at_slot 205) open_treasury 3 4 1 ≡ ok voted
unfolding vote require_lifecycle_period Proposal.vote is_valid_vote
    PauseController.require_not_paused Proposal.get_lifecycle_id Proposal.is_paused
voting = refl

tallies :
    tally_votes sample_o1js settings
      (at_slot 215)
      open_treasury
      3
      vote_proof
      ledger_proof
      owner_account
      []
    ≡ ok tallied
unfolding tally_votes require_lifecycle_period PauseController.require_not_paused
    Proposal.get_lifecycle_id
tallies = rw tallying refl

votes_before_tallies_example : 205 < 215
votes_before_tallies_example =
    votes_before_tallies sample_o1js settings (at_slot 205) (at_slot 215) open_treasury
      open_treasury 3 4 1 vote_proof ledger_proof owner_account [] proposed proposed (omega arith)
      (omega arith) found found refl refl (omega arith) voting tallies
