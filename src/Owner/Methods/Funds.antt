-- ===== src/Owner/Methods/Funds.antt =====
-- Where the treasury's funds go: the balance against the counters of the proposals.
use decentralised_treasury.Prelude.{
  ℕ, ◌+◌, ◌/◌, ◌≤◌, ◌≡◌, refl, sym, ◌∙◌, List, [], ◌∷◌, some, arith,
}
use decentralised_treasury.Circuit.{O1js, Result, ok, err}
use decentralised_treasury.Constants.{bond_amount_divisor}
use decentralised_treasury.Proposal.{ProposalState}
use decentralised_treasury.Proposal.Payout.{
  execute_inv, tally_votes_inv as proposal_tally_inv, set_paused_inv, vote_inv as proposal_vote_inv,
}
use decentralised_treasury.Owner.Methods.{
  OwnerSettings, Transaction, World, lookup, replace, receive, new_proposal,
}
use decentralised_treasury.Owner.Methods.Guards.{
  Call, receives, creates, votes, tallies, executes, toggles, withdraws, run_call,
}
use decentralised_treasury.Owner.Methods.Inversions.{
  create_proposal_inv, vote_inv, tally_votes_inv, execute_proposal_inv, toggle_pause_proposal_inv,
  emergency_withdraw_inv,
}
use decentralised_treasury.Owner.Methods.Totals.{
  total_paid, total_due, WithinBudget, total_paid-le-total_due, replace-total_paid,
  replace-WithinBudget, lookup-WithinBudget,
}
use decentralised_treasury.Owner.Permissions.{WithdrawalPermission}

module _ (o : O1js) where
  -- What a call brings into the treasury when it goes through: a deposit or a bond.
  pub inflow : Call o → ℕ
  inflow (receives amount) = amount
  inflow (creates key arguments id account witness) = arguments.amount / bond_amount_divisor
  inflow _ = 0

  -- What a call that goes through takes out of it by signature.
  pub outflow : Call o → ℕ
  outflow (withdraws recipient amount) = amount
  outflow _ = 0

  -- Every proposal is within its budget, and an inflow is shared out between the balance, the counters
  -- of what was paid and an outflow.
  pub record Balanced (inflow outflow : ℕ) (w w' : World o) : Type 0 where
    pub budget : WithinBudget o w'.proposals
    pub funds :
        w'.balance + total_paid o w'.proposals + outflow
        ≡ w.balance + total_paid o w.proposals + inflow

  -- A proposal replaced by one with the same counter and amount.
  replaced-Balanced :
      (key : o.PublicKey) (p q : ProposalState o) (w w' : World o)
      → WithinBudget o w.proposals
      → lookup o key w.proposals ≡ some p
      → q.paid_out_amount ≡ p.paid_out_amount
      → q.amount ≡ p.amount
      → w'.proposals ≡ replace o key q w.proposals
      → w'.balance ≡ w.balance
      → Balanced 0 0 w w'
  replaced-Balanced key p q w w' b found same amount ep eb =
      let within = lookup-WithinBudget o key p w.proposals b found in
      let moved = replace-total_paid o key p q w.proposals found in
      record {
        budget = rw ep (replace-WithinBudget o key q w.proposals (rw (same, amount) within) b);
        funds = rw ep (omega arith);
      }

  module _ (settings : OwnerSettings o) (tx : Transaction o) (w : World o) where
    run_call-Balanced :
        (call : Call o) {w' : World o}
        → WithinBudget o w.proposals
        → run_call o settings tx w call ≡ ok w'
        → Balanced (inflow call) (outflow call) w w'
    unfolding run_call inflow outflow receive total_paid new_proposal
    run_call-Balanced (receives amount) b e = record {
      budget = ground (arith, o.uint64.add_lem w.balance amount);
      funds = ground (arith, o.uint64.add_lem w.balance amount);
    }
    run_call-Balanced (creates key arguments id account witness) b e =
        let (_, _, _, eps, eb) =
          create_proposal_inv o settings tx w key arguments id account witness e in
        record { budget = rw eps (omega arith, b); funds = rw (eps, eb) (omega arith) }
    run_call-Balanced (votes key voter vote_cast) {w'} b e =
        let (p, q, found, _, cast, eps, _, _, eb) =
          vote_inv o settings tx w key voter vote_cast e in
        let (_, eq) = proposal_vote_inv o p _ cast in
        replaced-Balanced key p q w w' b found (rw eq) (rw eq) eps eb
    run_call-Balanced (tallies key proof ledger account witness) {w'} b e =
        let (p, q, r, found, _, tallied, eps, _, eb) =
          tally_votes_inv o settings tx w key proof ledger account witness e in
        let (_, eq) =
          proposal_tally_inv o settings.proposal_settings p proof ledger settings.owner_key account
            witness tallied in
        replaced-Balanced key p q w w' b found (rw eq) (rw eq) eps eb
    run_call-Balanced (executes key recipient amount) {w'} b e =
        let (p, q, paid, found, executed, eps, _, enough, eb) =
          execute_proposal_inv o settings tx w key recipient amount e in
        let (done, ep) = execute_inv o p amount recipient executed in
        let counted : q.paid_out_amount ≡ p.paid_out_amount + amount = rw done.result in
        let same : q.amount ≡ p.amount = rw done.result in
        let moved = replace-total_paid o key p q w.proposals found in
        record {
          budget =
              rw eps (replace-WithinBudget o key q w.proposals (rw (counted, same) done.within) b);
          funds = rw eps (omega arith);
        }
    run_call-Balanced (toggles key participants signatures nonce paused) {w'} b e =
        let (p, q, found, _, set, eps, eb) =
          toggle_pause_proposal_inv o settings tx w key participants signatures nonce paused e in
        let (_, _, eq) = set_paused_inv o p nonce paused set in
        replaced-Balanced key p q w w' b found (rw eq) (rw eq) eps eb
    run_call-Balanced (withdraws recipient amount) b e =
        let (_, _, enough, eq) = emergency_withdraw_inv o settings tx w recipient amount e in
        record { budget = rw eq b; funds = rw eq (omega (arith, enough)) }

  -- A transaction whose call is rejected leaves every account as it was.
  after : World o → Result (World o) → World o
  after w (ok w') = w'
  after w (err e) = w

  came_in : Call o → Result (World o) → ℕ
  came_in call (ok w') = inflow call
  came_in call (err e) = 0

  went_out : Call o → Result (World o) → ℕ
  went_out call (ok w') = outflow call
  went_out call (err e) = 0

  -- A history of transactions, with what has come in by those that went through, and what they have
  -- taken out by signature.
  pub run_all : OwnerSettings o → List (Transaction o × Call o) → World o → World o × ℕ × ℕ
  unfolding after came_in went_out
  run_all settings [] w = (w, 0, 0)
  run_all settings ((tx, call) ∷ calls) w =
      let r = run_call o settings tx w call in
      let (end, received, withdrawn) = run_all settings calls (after w r) in
      (end, came_in call r + received, went_out call r + withdrawn)

  after-Balanced :
      (settings : OwnerSettings o) (tx : Transaction o) (call : Call o) (w : World o)
      (r : Result (World o))
      → run_call o settings tx w call ≡ r
      → WithinBudget o w.proposals
      → Balanced (came_in call r) (went_out call r) w (after w r)
  unfolding after came_in went_out
  after-Balanced settings tx call w (ok w') e b = run_call-Balanced settings tx w call b e
  after-Balanced settings tx call w (err x) e b = record { budget = b; funds = omega arith }

  run_all-Balanced :
      (settings : OwnerSettings o) (calls : List (Transaction o × Call o)) (w : World o)
      → WithinBudget o w.proposals
      → let (end, received, withdrawn) = run_all settings calls w in
        Balanced received withdrawn w end
  unfolding run_all
  run_all-Balanced settings [] w b = record { budget = b; funds = omega arith }
  run_all-Balanced settings ((tx, call) ∷ calls) w b =
      let r = run_call o settings tx w call in
      let first = after-Balanced settings tx call w r refl b in
      let rest = run_all-Balanced settings calls (after w r) first.budget in
      record { budget = rest.budget; funds = omega (arith, first.funds, rest.funds) }

  pub funds_conserved :
      (settings : OwnerSettings o) (calls : List (Transaction o × Call o)) (w : World o)
      → w.proposals ≡ []
      → let (end, received, withdrawn) = run_all settings calls w in
        (end.balance + total_paid o end.proposals + withdrawn ≡ w.balance + received)
        × (total_paid o end.proposals ≤ total_due o end.proposals)
  unfolding total_paid
  funds_conserved settings calls w h =
      let balanced = run_all-Balanced settings calls w (rw h tt) in
      let start : total_paid o w.proposals ≡ 0 = rw h in
      (
        omega (arith, balanced.funds),
        total_paid-le-total_due o (run_all settings calls w).0.proposals balanced.budget,
      )

  went_out-proof :
      (settings : OwnerSettings o) (tx : Transaction o) (call : Call o) (w : World o)
      (r : Result (World o))
      → settings.withdrawal_permission ≡ WithdrawalPermission.proof
      → run_call o settings tx w call ≡ r
      → went_out call r ≡ 0
  unfolding went_out outflow run_call
  went_out-proof settings tx (withdraws recipient amount) w (ok w') by_proof e =
      let (permitted, _, _, _) = emergency_withdraw_inv o settings tx w recipient amount e in
      let never : WithdrawalPermission.proof ≡ WithdrawalPermission.proof_or_signature =
        sym by_proof ∙ permitted in
      cc
  went_out-proof settings tx (receives amount) w (ok w') by_proof e = refl
  went_out-proof settings tx (creates key arguments id account witness) w (ok w') by_proof e = refl
  went_out-proof settings tx (votes key voter vote_cast) w (ok w') by_proof e = refl
  went_out-proof settings tx (tallies key proof ledger account witness) w (ok w') by_proof e = refl
  went_out-proof settings tx (executes key recipient amount) w (ok w') by_proof e = refl
  went_out-proof settings tx (toggles key participants signatures nonce paused) w (ok w') by_proof
        e =
      refl
  went_out-proof settings tx call w (err x) by_proof e = refl

  withdrawn-proof :
      (settings : OwnerSettings o) (calls : List (Transaction o × Call o)) (w : World o)
      → settings.withdrawal_permission ≡ WithdrawalPermission.proof
      → let (end, received, withdrawn) = run_all settings calls w in withdrawn ≡ 0
  unfolding run_all
  withdrawn-proof settings [] w by_proof = refl
  withdrawn-proof settings ((tx, call) ∷ calls) w by_proof =
      let r = run_call o settings tx w call in
      omega (
        arith,
        went_out-proof settings tx call w r by_proof refl,
        withdrawn-proof settings calls (after w r) by_proof,
      )

  -- A treasury that was deployed with the withdrawal permission 'proof' pays through its proposals
  -- alone: over every history that starts with no proposal, emergency withdrawals that its key signs
  -- included, the balance and what the proposals have paid out are together the first balance and the
  -- deposits and bonds that came in.
  pub proof_permission_keeps_funds :
      (settings : OwnerSettings o) (calls : List (Transaction o × Call o)) (w : World o)
      → w.proposals ≡ []
      → settings.withdrawal_permission ≡ WithdrawalPermission.proof
      → let (end, received, withdrawn) = run_all settings calls w in
        end.balance + total_paid o end.proposals ≡ w.balance + received
  proof_permission_keeps_funds settings calls w h by_proof =
      omega
        (arith, (funds_conserved settings calls w h).0, withdrawn-proof settings calls w by_proof)
