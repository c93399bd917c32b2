-- ===== src/Owner/Methods/Totals.antt =====
-- The sums of what the proposals have paid out and may pay out.
use decentralised_treasury.Prelude.{ℕ, ◌+◌, ◌≤◌, ◌≡◌, List, [], ◌∷◌, some, arith}
use decentralised_treasury.Circuit.{O1js}
use decentralised_treasury.Proposal.{ProposalState}
use decentralised_treasury.Proposal.Payout.{amount_with_bond}
use decentralised_treasury.Owner.Methods.{lookup, replace}

module _ (o : O1js) where
  abbrev pub Proposals : Type 0
  Proposals = List (o.PublicKey × ProposalState o)

  -- All that the proposals have paid out.
  unfoldable pub total_paid : Proposals → ℕ
  total_paid [] = 0
  total_paid ((key, p) ∷ ps) = p.paid_out_amount + total_paid ps

  -- All that the proposals may pay out.
  pub total_due : Proposals → ℕ
  total_due [] = 0
  total_due ((key, p) ∷ ps) = amount_with_bond p.amount + total_due ps

  -- No proposal has paid out more than its amount with the bond.
  abbrev pub WithinBudget : Proposals → Type 0
  WithinBudget [] = Unit {0}
  WithinBudget ((key, p) ∷ ps) = (p.paid_out_amount ≤ amount_with_bond p.amount) × WithinBudget ps

  pub total_paid-le-total_due : (ps : Proposals) → WithinBudget ps → total_paid ps ≤ total_due ps
  unfolding total_paid total_due
  total_paid-le-total_due [] h = omega arith
  total_paid-le-total_due ((key, p) ∷ ps) h = omega (arith, total_paid-le-total_due ps h.1)

  -- A replaced proposal of the same amount moves the total by what it paid.
  pub replace-total_paid :
      (key : o.PublicKey) (p q : ProposalState o) (ps : Proposals)
      → lookup o key ps ≡ some p
      → total_paid (replace o key q ps) + p.paid_out_amount ≡ total_paid ps + q.paid_out_amount
  unfolding lookup replace total_paid
  replace-total_paid key p q [] e = cc
  replace-total_paid key p q ((k, r) ∷ ps) e = ground (arith, replace-total_paid key p q ps)

  pub replace-WithinBudget :
      (key : o.PublicKey) (q : ProposalState o) (ps : Proposals)
      → q.paid_out_amount ≤ amount_with_bond q.amount
      → WithinBudget ps
      → WithinBudget (replace o key q ps)
  unfolding replace
  replace-WithinBudget key q [] h b = tt
  replace-WithinBudget key q ((k, r) ∷ ps) h b = ground (arith, replace-WithinBudget key q ps h b.1)

  pub lookup-WithinBudget :
      (key : o.PublicKey) (p : ProposalState o) (ps : Proposals)
      → WithinBudget ps
      → lookup o key ps ≡ some p
      → p.paid_out_amount ≤ amount_with_bond p.amount
  unfolding lookup
  lookup-WithinBudget key p [] b e = cc
  lookup-WithinBudget key p ((k, r) ∷ ps) b e = ground (arith, lookup-WithinBudget key p ps b.1)
