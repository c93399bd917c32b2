-- ===== src/Proposal/Payout.antt =====
-- What a proposal pays out, and how its status changes.
use decentralised_treasury.Prelude.{
  ℕ, ◌+◌, ◌/◌, ◌^◌, ◌≤◌, ◌<◌, ◌≡◌, ◌≢◌, refl, ◌↔◌, Bool, true, false, not, ◌||◌, [], ◌∷◌, ◌++◌,
  if◌then◌else◌, arith,
}
use decentralised_treasury.Circuit.{O1js, ok, err, invalid_pause_nonce}
use decentralised_treasury.Constants.{bond_amount_divisor}
use decentralised_treasury.Account.{Account}
use decentralised_treasury.Merkle.Witness.{Witness}
use decentralised_treasury.VoteReducer.Types.{VoteAction}
use decentralised_treasury.VoteReducer.Merge.{VoteReducerProof}
use decentralised_treasury.StakingToVoting.Types.{LedgerProof}
use decentralised_treasury.Proposal.Acceptance.{ProposalStatus}
use decentralised_treasury.Proposal.{
  ProposalState, ProposalSettings, is_approved, is_paused, is_unknown, require_not_paused, vote,
  tally_votes, execute, set_paused,
}

-- The amount with the bond that comes back with it.
abbrev pub amount_with_bond : ℕ → ℕ
amount_with_bond amount = amount + amount / bond_amount_divisor

module _ (o : O1js) where
  open o use {PublicKey, equals, poseidon_hash, key_fields, uint64}

  -- What a successful payout has checked and changed.
  pub record Paid (p : ProposalState o) (amount : ℕ) (recipient : PublicKey) (q : ProposalState o)
      : Type 0 where
    pub was_approved : p.status ≡ ProposalStatus.approved
    pub within : p.paid_out_amount + amount ≤ amount_with_bond p.amount
    pub to_recipient : equals p.recipient_hash (poseidon_hash (key_fields recipient)) ≡ true
    pub result : q ≡ record p { paid_out_amount = p.paid_out_amount + amount }

  pub execute_inv :
      (p : ProposalState o) (amount : ℕ) (recipient : PublicKey) {q : ProposalState o} {paid : ℕ}
      → execute o p amount recipient ≡ ok (q, paid)
      → Paid p amount recipient q × (paid ≡ amount)
  unfolding execute is_paused is_approved require_not_paused
  execute_inv p amount recipient h = ground (
    arith,
    uint64.div_lem p.amount bond_amount_divisor,
    uint64.add_lem p.amount (p.amount / bond_amount_divisor),
    uint64.sub_lem (amount_with_bond p.amount) p.paid_out_amount,
    uint64.add_lem p.paid_out_amount amount,
  )

  -- A payout goes through exactly when the proposal is approved, the payouts stay within the amount
  -- with its bond, and the recipient is the one whose hash the proposal holds. The new state differs
  -- by the amount paid alone. The amount with its bond has to fit in 64 bits, and what was paid
  -- before stays within it.
  pub execute_iff :
      (p : ProposalState o) (amount : ℕ) (recipient : PublicKey)
      → amount_with_bond p.amount < 2 ^ 64
      → p.paid_out_amount ≤ amount_with_bond p.amount
      → (execute o p amount recipient
          ≡ ok (record p { paid_out_amount = p.paid_out_amount + amount }, amount))
        ↔ ((p.status ≡ ProposalStatus.approved)
            × (p.paid_out_amount + amount ≤ amount_with_bond p.amount)
            × (equals p.recipient_hash (poseidon_hash (key_fields recipient)) ≡ true))
  unfolding execute is_paused is_approved require_not_paused
  execute_iff p amount recipient fits before = (
    (λ h.
        let (paid, _) = execute_inv p amount recipient h in
        (paid.was_approved, paid.within, paid.to_recipient)),
    (λ h. ground (
      arith,
      uint64.div_lem p.amount bond_amount_divisor,
      uint64.add_lem p.amount (p.amount / bond_amount_divisor),
      uint64.sub_lem (amount_with_bond p.amount) p.paid_out_amount,
      uint64.add_lem p.paid_out_amount amount,
    )),
  )

  -- What a successful tally has checked and changed.
  pub tally_votes_inv :
      (settings : ProposalSettings o) (p : ProposalState o) (votes : VoteReducerProof o)
      (ledger : LedgerProof o) (key : PublicKey) (account : Account o) (witness : Witness o)
      {q : ProposalState o} {r : ProposalStatus}
      → tally_votes o settings p votes ledger key account witness ≡ ok (q, r)
      → (p.status ≡ ProposalStatus.unknown) × (q ≡ record p { status = r })
  unfolding tally_votes is_paused is_unknown require_not_paused
  tally_votes_inv settings p votes ledger key account witness h = ground arith

  pub set_paused_inv :
      (p : ProposalState o) (nonce : ℕ) (target : Bool) {q : ProposalState o}
      → set_paused o p nonce target ≡ ok q
      → (p.pause_nonce ≡ nonce)
        × (is_paused p.status ≡ not target)
        × (q ≡ record p {
          status = if target then ProposalStatus.paused else ProposalStatus.unknown;
          pause_nonce = p.pause_nonce + 1;
        })
  unfolding set_paused is_paused
  set_paused_inv p nonce target h = ground (arith, o.uint32.add_lem p.pause_nonce 1)

  pub vote_inv :
      (p : ProposalState o) (action : VoteAction o) {q : ProposalState o}
      → vote o p action ≡ ok q
      → (is_paused p.status ≡ false) × (q ≡ record p { actions = p.actions ++ action ∷ [] })
  unfolding vote require_not_paused
  vote_inv p action h = ground arith

  -- One method of the contract that went through, with the amount that it paid out.
  pub data Step (settings : ProposalSettings o) (p : ProposalState o)
      : ℕ → ProposalState o → Type 0 where
    votes :
        {q : ProposalState o} (action : VoteAction o) → vote o p action ≡ ok q → Step settings p 0 q
    tallies :
        {q : ProposalState o} (proof : VoteReducerProof o) (ledger : LedgerProof o)
        (key : PublicKey) (account : Account o) (witness : Witness o) {r : ProposalStatus}
        → tally_votes o settings p proof ledger key account witness ≡ ok (q, r)
        → Step settings p 0 q
    pays :
        {q : ProposalState o} {n : ℕ} (amount : ℕ) (recipient : PublicKey)
        → execute o p amount recipient ≡ ok (q, n)
        → Step settings p n q
    pauses :
        {q : ProposalState o} (nonce : ℕ) (target : Bool)
        → set_paused o p nonce target ≡ ok q
        → Step settings p 0 q

  -- A history of such methods, with all that was paid out.
  pub data History (settings : ProposalSettings o) (p : ProposalState o)
      : ℕ → ProposalState o → Type 0 where
    here : History settings p 0 p
    next :
        {n m total : ℕ} {q r : ProposalState o}
        → History settings p n q
        → Step settings q m r
        → total ≡ n + m
        → History settings p total r

  -- What stays true of the state when a total of `n` was paid out since `p`.
  record Accounted (p : ProposalState o) (n : ℕ) (q : ProposalState o) : Type 0 where
    same_amount : q.amount ≡ p.amount
    same_recipient : q.recipient_hash ≡ p.recipient_hash
    counted : q.paid_out_amount ≡ p.paid_out_amount + n
    within : q.paid_out_amount ≤ amount_with_bond q.amount

  Step-Accounted :
      {settings : ProposalSettings o} {p q r : ProposalState o} {n m : ℕ}
      → Accounted p n q
      → Step settings q m r
      → Accounted p (n + m) r
  unfolding vote require_not_paused
  Step-Accounted a (votes action e) = ground arith
  Step-Accounted {q} a (tallies proof ledger key account witness e) =
      ground (arith, tally_votes_inv _ q proof ledger key account witness e)
  Step-Accounted {q} a (pays amount recipient e) = ground (arith, execute_inv q amount recipient e)
  Step-Accounted {q} a (pauses nonce target e) = ground (arith, set_paused_inv q nonce target e)

  History-Accounted :
      {settings : ProposalSettings o} {p q : ProposalState o} {n : ℕ}
      → p.paid_out_amount ≤ amount_with_bond p.amount
      → History settings p n q
      → Accounted p n q
  History-Accounted h here = record {
    same_amount = refl;
    same_recipient = refl;
    counted = omega arith;
    within = h;
  }
  History-Accounted h (next r st e) = rw e (Step-Accounted (History-Accounted h r) st)

  -- Over every history of votes, tallies, payouts and pauses of a proposal that starts with nothing
  -- paid, all payouts together stay within the amount with its bond, the contract's counter is their
  -- sum, and neither the amount nor the recipient changes.
  pub payouts_bounded :
      {settings : ProposalSettings o} {p q : ProposalState o} {total : ℕ}
      → p.paid_out_amount ≡ 0
      → History settings p total q
      → (total ≤ amount_with_bond p.amount)
        × (q.paid_out_amount ≡ total)
        × (q.amount ≡ p.amount)
        × (q.recipient_hash ≡ p.recipient_hash)
  payouts_bounded {p} {q} h run =
      let a = History-Accounted (omega arith) run in
      (
        rw (← a.same_amount) (omega (arith, a.counted, a.within)),
        omega (arith, a.counted),
        a.same_amount,
        a.same_recipient,
      )

  Step-nonce :
      {settings : ProposalSettings o} {p q : ProposalState o} {n : ℕ}
      → Step settings p n q
      → p.pause_nonce ≤ q.pause_nonce
  Step-nonce {p} (votes action e) = ground (arith, vote_inv p action e)
  Step-nonce {p} (tallies proof ledger key account witness e) =
      ground (arith, tally_votes_inv _ p proof ledger key account witness e)
  Step-nonce {p} (pays amount recipient e) = ground (arith, execute_inv p amount recipient e)
  Step-nonce {p} (pauses nonce target e) = ground (arith, set_paused_inv p nonce target e)

  History-nonce :
      {settings : ProposalSettings o} {p q : ProposalState o} {n : ℕ}
      → History settings p n q
      → p.pause_nonce ≤ q.pause_nonce
  History-nonce here = omega arith
  History-nonce (next run step e) = omega (arith, History-nonce run, Step-nonce step)

  -- Once a pause nonce has been used, `setPaused` rejects it with the error of a wrong nonce, for
  -- either target, after every later history of votes, tallies, payouts and pauses of the proposal.
  pub set_paused_replay :
      (settings : ProposalSettings o) (p : ProposalState o) (nonce : ℕ) (target again : Bool)
      {q r : ProposalState o} {paid : ℕ}
      → set_paused o p nonce target ≡ ok q
      → History settings q paid r
      → set_paused o r nonce again ≡ err invalid_pause_nonce
  unfolding set_paused is_paused
  set_paused_replay settings p nonce target again {r} used run =
      let (before, _, after) = set_paused_inv p nonce target used in
      let later = History-nonce run in
      let moved : nonce < r.pause_nonce = ground (arith, before, after, later) in
      ground (arith, moved)

  unfoldable pub is_tally :
      {settings : ProposalSettings o} {p q : ProposalState o} {n : ℕ} → Step settings p n q → Bool
  is_tally (tallies proof ledger key account witness e) = true
  is_tally _ = false

  -- Whether a tally went through in a history.
  unfoldable pub is_tallied :
      {settings : ProposalSettings o} {p q : ProposalState o} {n : ℕ}
      → History settings p n q
      → Bool
  unfolding is_tally
  is_tallied here = false
  is_tallied (next run step e) = is_tally step || is_tallied run

  Step-unapproved :
      {settings : ProposalSettings o} {p q : ProposalState o} {n : ℕ} (step : Step settings p n q)
      → is_tally step ≡ false
      → p.status ≢ ProposalStatus.approved
      → (q.status ≢ ProposalStatus.approved) × (n ≡ 0)
  unfolding is_tally
  Step-unapproved {p} (votes action e) untallied h = ground (arith, vote_inv p action e)
  Step-unapproved (tallies proof ledger key account witness e) untallied h = cc
  Step-unapproved {p} (pays amount recipient e) untallied h =
      let (paid, _) = execute_inv p amount recipient e in absurd (h paid.was_approved)
  Step-unapproved {p} (pauses nonce target e) untallied h =
      ground (arith, set_paused_inv p nonce target e)

  History-unapproved :
      {settings : ProposalSettings o} {p q : ProposalState o} {n : ℕ} (run : History settings p n q)
      → is_tallied run ≡ false
      → p.status ≢ ProposalStatus.approved
      → (q.status ≢ ProposalStatus.approved) × (n ≡ 0)
  unfolding is_tallied
  History-unapproved here untallied h = (h, refl)
  History-unapproved (next run step e) untallied h =
      let (kept, nothing) = History-unapproved run (ground arith) h in
      let (still, none_paid) = Step-unapproved step (ground arith) kept in
      (still, omega (arith, nothing, none_paid, e))

  -- Pausing and unpausing a proposal forgets its vote result, whatever it was: the proposal comes back
  -- as undecided, with all else but the nonce as it was; and after every later history in which no
  -- tally goes through nothing has been paid, the proposal is not approved, and every payout is
  -- refused.
  pub unpause_forgets_approval :
      (settings : ProposalSettings o) (p : ProposalState o) (amount : ℕ) (recipient : PublicKey)
      (after : ProposalState o) (out : ℕ) {q r s : ProposalState o} {paid : ℕ}
      → set_paused o p p.pause_nonce true ≡ ok q
      → set_paused o q q.pause_nonce false ≡ ok r
      → (run : History settings r paid s) → is_tallied run ≡ false
      → (r ≡ record p { status = ProposalStatus.unknown; pause_nonce = p.pause_nonce + 2 })
        × (paid ≡ 0)
        × (s.status ≢ ProposalStatus.approved)
        × (execute o s amount recipient ≢ ok (after, out))
  unpause_forgets_approval settings p amount recipient after out {q} {r} {s} e f run untallied =
      let (_, _, eq) = set_paused_inv p p.pause_nonce true e in
      let (_, _, er) = set_paused_inv q q.pause_nonce false f in
      let (never, nothing) = History-unapproved run untallied (ground arith) in
      (ground arith, nothing, never, λ h. never (execute_inv s amount recipient h).0.was_approved)
