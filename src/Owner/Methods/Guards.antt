-- ===== src/Owner/Methods/Guards.antt =====
-- When the methods of the owner are accepted: the pause, and the order of votes and tallies.
use native.Mathlib.Nat.{div-lt_iff_lt-mul, le-div_iff_mul-le, mul-le-mul_left}
use decentralised_treasury.Prelude.{
  ℕ, ◌+◌, ◌-◌, ◌*◌, ◌^◌, ◌≤◌, ◌<◌, ◌≡◌, ◌≢◌, List, Bool, true, false, some, arith,
}
use decentralised_treasury.Circuit.{O1js, UInt, Result, ok}
use decentralised_treasury.Account.{Account}
use decentralised_treasury.Merkle.Witness.{Witness}
use decentralised_treasury.VoteReducer.Merge.{VoteReducerProof}
use decentralised_treasury.StakingToVoting.Types.{LedgerProof}
use decentralised_treasury.PauseController
use decentralised_treasury.Proposal.{ProposalState}
use decentralised_treasury.Proposal
use decentralised_treasury.Owner.Lifecycle.{LifecyclePeriod, require_lifecycle_period}
use decentralised_treasury.Owner.Lifecycle.Windows.{
  period_count, require_lifecycle_period_iff, require_lifecycle_period_open_iff,
}
use decentralised_treasury.Owner.Methods.{
  OwnerSettings, Transaction, World, ProposalArguments, lookup, receive, create_proposal, vote,
  tally_votes, execute_proposal, toggle_pause_proposal,
}
use decentralised_treasury.Owner.Methods.Inversions.{
  vote_inv, tally_votes_inv, execute_proposal_inv, create_proposal_inv,
}
use decentralised_treasury.Owner.Methods.Withdrawal.{emergency_withdraw}

-- One call of a method, or a withdrawal that the owner's key signs, with its arguments.
pub data Call (o : O1js) : Type 0 where
  receives : ℕ → Call o
  creates : o.PublicKey → ProposalArguments o → ℕ → Account o → Witness o → Call o
  votes : o.PublicKey → o.PublicKey → o.Field → Call o
  tallies : o.PublicKey → VoteReducerProof o → LedgerProof o → Account o → Witness o → Call o
  executes : o.PublicKey → o.PublicKey → ℕ → Call o
  toggles : o.PublicKey → List o.PublicKey → List o.Signature → ℕ → Bool → Call o
  withdraws : o.PublicKey → ℕ → Call o

module _ (o : O1js) (settings : OwnerSettings o) (tx : Transaction o) (w : World o) where
  open o use {PublicKey, Field, uint32}

  unfoldable pub run_call : Call o → Result (World o)
  run_call (receives amount) = receive o w amount
  run_call (creates key arguments id account witness) =
      create_proposal o settings tx w key arguments id account witness
  run_call (votes key voter vote_cast) = vote o settings tx w key voter vote_cast
  run_call (tallies key proof ledger account witness) =
      tally_votes o settings tx w key proof ledger account witness
  run_call (executes key recipient amount) = execute_proposal o settings tx w key recipient amount
  run_call (toggles key participants signatures nonce paused) =
      toggle_pause_proposal o settings tx w key participants signatures nonce paused
  run_call (withdraws recipient amount) = emergency_withdraw o settings tx w recipient amount

  -- The calls that the global pause stops: all but the funding, the pause of a proposal and the signed
  -- withdrawal.
  unfoldable pub is_guarded : Call o → Bool
  is_guarded (receives amount) = false
  is_guarded (toggles key participants signatures nonce paused) = false
  is_guarded (withdraws recipient amount) = false
  is_guarded _ = true

  running : PauseController.require_not_paused o w.controller ≡ ok tt → w.controller.paused ≡ false
  unfolding PauseController.require_not_paused
  running h = ground arith

  -- While the treasury is paused, no proposal is created, voted on, tallied or executed.
  pub paused_blocks :
      (call : Call o) {w' : World o}
      → w.controller.paused ≡ true
      → is_guarded call ≡ true
      → run_call call ≢ ok w'
  unfolding run_call is_guarded
  paused_blocks (receives amount) h g e = cc
  paused_blocks (creates key arguments id account witness) h g e =
      let (r, _, _, _, _) =
        create_proposal_inv o settings tx w key arguments id account witness e in
      cc (running r)
  paused_blocks (votes key voter vote_cast) h g e =
      let (_, _, _, _, _, _, _, r, _) = vote_inv o settings tx w key voter vote_cast e in
      cc (running r)
  paused_blocks (tallies key proof ledger account witness) h g e =
      let (_, _, _, _, _, _, _, r, _) =
        tally_votes_inv o settings tx w key proof ledger account witness e in
      cc (running r)
  paused_blocks (executes key recipient amount) h g e =
      let (_, _, _, _, _, _, r, _, _) =
        execute_proposal_inv o settings tx w key recipient amount e in
      cc (running r)
  paused_blocks (toggles key participants signatures nonce paused) h g e = cc
  paused_blocks (withdraws recipient amount) h g e = cc

window_order :
    (u : UInt 32) (duration deployed id s t : ℕ)
    → 0 < duration
    → t < 2 ^ 32
    → deployed + duration * (period_count id LifecyclePeriod.cooldown + 1) < 2 ^ 32
    → require_lifecycle_period u duration deployed LifecyclePeriod.voting id false s ≡ ok tt
    → require_lifecycle_period u duration deployed LifecyclePeriod.cooldown id true t ≡ ok tt
    → s < t
window_order u duration deployed id s t pos small fits hs ht =
    let v = period_count id LifecyclePeriod.voting in
    let shorter : duration * (v + 1) ≤ duration * (period_count id LifecyclePeriod.cooldown + 1) =
      mul-le-mul_left duration (omega arith) in
    let (ds, es) =
      (require_lifecycle_period_iff u duration deployed id LifecyclePeriod.voting pos (omega arith)
          s).0
        hs in
    let (dt, et) =
      (require_lifecycle_period_open_iff u duration deployed id LifecyclePeriod.cooldown pos fits t
          small).0
        ht in
    let before =
      (div-lt_iff_lt-mul {k = duration} {x = s - deployed} {y = v + 1} pos).0 (omega arith) in
    let after =
      (le-div_iff_mul-le {k = duration} {x = v + 1} {y = t - deployed} pos).0 (omega arith) in
    omega arith

-- Every slot at which a vote on a proposal is accepted comes before every slot at which its tally
-- is accepted, in worlds of one deployment in which the proposal has one lifecycle. The duration of a
-- period is positive, and the slot of the tally and the slot after its period fit in 32 bits.
pub votes_before_tallies :
    (o : O1js) (settings : OwnerSettings o) (tx ty : Transaction o) (w v : World o)
    (key voter : o.PublicKey) (vote_cast : o.Field) (proof : VoteReducerProof o)
    (ledger : LedgerProof o) (account : Account o) (witness : Witness o) (p q : ProposalState o)
    {w' v' : World o}
    → 0 < settings.duration
    → ty.slot < 2 ^ 32
    → lookup o key w.proposals ≡ some p
    → lookup o key v.proposals ≡ some q
    → q.lifecycle_id ≡ p.lifecycle_id
    → v.deployed_at_slot ≡ w.deployed_at_slot
    → w.deployed_at_slot
        + settings.duration * (period_count p.lifecycle_id LifecyclePeriod.cooldown + 1)
      < 2 ^ 32
    → vote o settings tx w key voter vote_cast ≡ ok w'
    → tally_votes o settings ty v key proof ledger account witness ≡ ok v'
    → tx.slot < ty.slot
unfolding Proposal.get_lifecycle_id
votes_before_tallies o settings tx ty w v key voter vote_cast proof ledger account witness p q pos
      small ep eq same deployed fits hv ht =
    let (p', _, fp, vw, _, _, _, _, _) = vote_inv o settings tx w key voter vote_cast hv in
    let (q', _, _, fq, tw, _, _, _, _) =
      tally_votes_inv o settings ty v key proof ledger account witness ht in
    let lp : p'.lifecycle_id ≡ p.lifecycle_id = cc in
    let lq : q'.lifecycle_id ≡ p.lifecycle_id = cc in
    window_order o.uint32 settings.duration w.deployed_at_slot p.lifecycle_id tx.slot ty.slot pos
      small fits (rw lp at vw) (rw (lq, deployed) at tw)
