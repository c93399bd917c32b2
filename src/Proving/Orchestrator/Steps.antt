-- ===== src/Proving/Orchestrator/Steps.antt =====
-- What each step of a merge does to the sums over the pending and the running proofs.
use decentralised_treasury.Prelude.{
  ℕ, ◌+◌, ◌-◌, ◌*◌, ◌<◌, ◌≤◌, ◌≡◌, ◌≢◌, refl, sym, ap, ◌∙◌, List, [], ◌∷◌, ◌++◌, String, Bool, true,
  false, if◌then◌else◌, Option, none, some, length, length-append, get_elem?, Option-cases, inl,
  inr, arith,
}
use mathlib.Core.Path.{subst}
use mathlib.Core.Option.{some-injective}
use decentralised_treasury.Proving.Finder.{Fragment, Pairing, arrange, find_mergeable_proofs}
use decentralised_treasury.Proving.Orchestrator.{Merging, splice_pair, Step, Run, merge_id_for}
use decentralised_treasury.Proving.Orchestrator.Forest.{
  total, total-append, total-splice_pair, total-arrange, total-remove_at, find_mergeable_proofs_lem,
  length-total, length-remove_at,
}

module _ {Proof : Type 0} where
  -- What a measure of proofs sums to over the pending list, and over the pairs that are running.
  abbrev pub of_pending : (Proof → ℕ) → Merging Proof → ℕ
  of_pending v s = total (λ f. v f.proof) s.pending

  abbrev pub of_running : (Proof → ℕ) → Merging Proof → ℕ
  of_running v s = total (λ pair. v pair.0.proof + v pair.1.proof) s.running

  -- A step that starts a merge moves its pair.
  pub pending-pair :
      (pairing : Pairing Proof) (v : Proof → ℕ) (s : Merging Proof) (i j : ℕ)
      (first second : Fragment Proof)
      → pairing.follows first.proof first.proof ≡ false
      → find_mergeable_proofs pairing s.pending ≡ some (i, j)
      → get_elem? (arrange pairing s.pending) i ≡ some first
      → get_elem? (arrange pairing s.pending) j ≡ some second
      → of_pending v s
        ≡ v first.proof
          + v second.proof
          + total (λ f. v f.proof) (splice_pair i j (arrange pairing s.pending))
  pending-pair pairing v s i j first second apart found e e' =
      let different : i ≢ j = λ same.
        let same_proof : first ≡ second =
          some-injective first second
            (sym e ∙ ap (get_elem? (arrange pairing s.pending)) same ∙ e') in
        let follows = find_mergeable_proofs_lem pairing s.pending i j first second found e e' in
        let itself : pairing.follows first.proof first.proof ≡ true =
          subst (λ g. pairing.follows first.proof g.proof ≡ true) (sym same_proof) follows in
        cc in
      sym (total-arrange (λ f. v f.proof) pairing s.pending)
      ∙ total-splice_pair (λ f. v f.proof) i j (arrange pairing s.pending) first second different e
          e'

  -- A step that reads a base proof adds it.
  pub pending-read :
      (pairing : Pairing Proof) (v : Proof → ℕ) (s : Merging Proof)
      (searched rest : List (Fragment Proof)) (f : Fragment Proof)
      → s.pending ≡ searched ++ rest
      → total (λ g. v g.proof) (arrange pairing searched ++ (rest ++ (f ∷ [])))
        ≡ of_pending v s + v f.proof
  pending-read pairing v s searched rest f same =
      let w = λ (g : Fragment Proof). v g.proof in
      omega (
        arith,
        total-append w (arrange pairing searched) (rest ++ (f ∷ [])),
        total-append w rest (f ∷ []),
        total-arrange w pairing searched,
        total-append w searched rest,
        ap (total w) same,
      )

  -- The proofs that occur: the base proofs are among them, and the answers for pairs of them. None of
  -- them follows itself.
  pub record Apart (pairing : Pairing Proof) (get_proof : ℕ → Option Proof)
      (Answer : Proof → Proof → Proof → Type 0) (occurs : Proof → Bool) : Type 0 where
    pub of_base : (i : ℕ) (p : Proof) → get_proof i ≡ some p → occurs p ≡ true
    pub of_answer :
        (p q r : Proof) → Answer p q r → occurs p ≡ true → occurs q ≡ true → occurs r ≡ true
    pub apart : (p : Proof) → occurs p ≡ true → pairing.follows p p ≡ false

  abbrev stray : (Proof → Bool) → Proof → ℕ
  stray occurs p = if occurs p then 0 else 1

  stray_lem : (occurs : Proof → Bool) (p : Proof) → stray occurs p ≡ 0 → occurs p ≡ true
  stray_lem occurs p h = ground (arith, h)

  -- All pending and running proofs occur.
  abbrev pub Occurring : (Proof → Bool) → Merging Proof → Type 0
  Occurring occurs s = (of_pending (stray occurs) s ≡ 0) × (of_running (stray occurs) s ≡ 0)

  -- The first proof of a pair does not follow itself.
  pub first_alone :
      {pairing : Pairing Proof} {get_proof : ℕ → Option Proof}
      {Answer : Proof → Proof → Proof → Type 0} {occurs : Proof → Bool} (s : Merging Proof) (i : ℕ)
      (first : Fragment Proof)
      → Apart pairing get_proof Answer occurs
      → Occurring occurs s
      → get_elem? (arrange pairing s.pending) i ≡ some first
      → pairing.follows first.proof first.proof ≡ false
  first_alone {pairing} {occurs} s i first a clean e = a.apart first.proof (
      stray_lem occurs first.proof (
        omega (
          arith,
          clean.0,
          total-arrange (λ f. stray occurs f.proof) pairing s.pending,
          total-remove_at (λ f. stray occurs f.proof) i (arrange pairing s.pending) first e,
        )))

  module _ (pairing : Pairing Proof) (base_proof_count concurrency : ℕ)
      (get_proof : ℕ → Option Proof) (to_string : ℕ → String) (sha256 : String → String)
      (Answer : Proof → Proof → Proof → Type 0) where
    -- No more merges run than the limit allows.
    pub running_bounded :
        {s : Merging Proof} {n : ℕ}
        → Run pairing base_proof_count concurrency get_proof to_string sha256 Answer s n
        → length s.running ≤ concurrency
    running_bounded Run.started = omega arith
    running_bounded
          (Run.then {s} run (Step.read_base searched rest proof h same none_found more e)) =
        running_bounded run
    running_bounded (Run.then {s} run (Step.base_missing more e fresh)) = running_bounded run
    running_bounded (Run.then {s} run (Step.start_merge i j first second h found e e')) =
        omega (arith, h)
    running_bounded (Run.then {s} run (Step.end_merge n first second from merged e a)) =
        omega (arith, running_bounded run, length-remove_at n s.running (first, second) e)
    running_bounded (Run.then {s} run (Step.fail_merge n first second e)) =
        omega (arith, running_bounded run, length-remove_at n s.running (first, second) e)

    -- The steps that are still possible, at most: for each base proof not yet read four, for each
    -- pending proof three, for each running merge four, and one for a first failure.
    abbrev pub steps_left : Merging Proof → ℕ
    steps_left s =
        4 * (base_proof_count - s.next_base_index)
        + 3 * length s.pending
        + 4 * length s.running
        + elim s.failure [ none ↦ 1 | some error ↦ 0 ]

    module _ (occurs : Proof → Bool) (distinct : Apart pairing get_proof Answer occurs) where
      Step-Occurring :
          {s t : Merging Proof}
          → Step pairing base_proof_count concurrency get_proof to_string sha256 Answer s t
          → Occurring occurs s
          → Occurring occurs t
      Step-Occurring (Step.read_base {s} searched rest proof h same none_found more e) (p, r) =
          let f : Fragment Proof = record { index = to_string s.next_base_index; proof = proof } in
          let real = distinct.of_base s.next_base_index proof e in
          (ground (arith, p, pending-read pairing (stray occurs) s searched rest f same, real), r)
      Step-Occurring (Step.base_missing {s} more e fresh) clean = clean
      Step-Occurring (Step.start_merge {s} i j first second h found e e') (p, r) =
          let moved =
            pending-pair pairing (stray occurs) s i j first second
              (first_alone s i first distinct (p, r) e) found e e' in
          (omega (arith, moved, p), omega (arith, moved, p, r))
      Step-Occurring (Step.end_merge {s} n first second from merged e a) (p, r) =
          let f : Fragment Proof = record {
            index = merge_id_for sha256 first.index second.index;
            proof = merged;
          } in
          let left =
            total-remove_at (λ pair. stray occurs pair.0.proof + stray occurs pair.1.proof) n
              s.running (first, second) e in
          let real =
            distinct.of_answer first.proof second.proof merged a
              (stray_lem occurs first.proof (omega (arith, left, r)))
              (stray_lem occurs second.proof (omega (arith, left, r))) in
          (
            ground (arith, p, total-append (λ g. stray occurs g.proof) s.pending (f ∷ []), real),
            omega (arith, left, r),
          )
      Step-Occurring (Step.fail_merge {s} n first second e) (p, r) =
          let left =
            total-remove_at (λ pair. stray occurs pair.0.proof + stray occurs pair.1.proof) n
              s.running (first, second) e in
          (p, omega (arith, left, r))

      pub run-Occurring :
          {s : Merging Proof} {n : ℕ}
          → Run pairing base_proof_count concurrency get_proof to_string sha256 Answer s n
          → Occurring occurs s
      run-Occurring Run.started = (refl, refl)
      run-Occurring (Run.then run step) = Step-Occurring step (run-Occurring run)

      step_down :
          {s t : Merging Proof}
          → Occurring occurs s
          → Step pairing base_proof_count concurrency get_proof to_string sha256 Answer s t
          → steps_left t < steps_left s
      step_down clean (Step.read_base {s} searched rest proof h same none_found more e) =
          let f : Fragment Proof = record { index = to_string s.next_base_index; proof = proof } in
          let longer = pending-read pairing (λ p. 1) s searched rest f same in
          omega (
            arith,
            more,
            longer,
            length-total s.pending,
            length-total (arrange pairing searched ++ (rest ++ (f ∷ []))),
          )
      step_down clean (Step.base_missing {s} more e fresh) = rw fresh (omega arith)
      step_down clean (Step.start_merge {s} i j first second h found e e') =
          let shorter =
            pending-pair pairing (λ p. 1) s i j first second
              (first_alone s i first distinct clean e) found e e' in
          omega (
            arith,
            shorter,
            length-total s.pending,
            length-total (splice_pair i j (arrange pairing s.pending)),
          )
      step_down clean (Step.end_merge {s} n first second from merged e a) =
          let f : Fragment Proof = record {
            index = merge_id_for sha256 first.index second.index;
            proof = merged;
          } in
          omega (
            arith,
            length-append s.pending (f ∷ []),
            length-remove_at n s.running (first, second) e,
          )
      step_down clean (Step.fail_merge {s} n first second e) =
          let fewer = length-remove_at n s.running (first, second) e in
          elim (Option-cases s.failure) [
            | inl none_before ↦ rw none_before (omega (arith, fewer))
            | inr (error, before) ↦ rw before (omega (arith, fewer))
          ]

      -- When no proof that occurs follows itself, a run has no more steps than four for each base
      -- proof, and one: with the steps still possible at its end they are at most that many.
      pub run_short :
          {s : Merging Proof} {n : ℕ}
          → Run pairing base_proof_count concurrency get_proof to_string sha256 Answer s n
          → n + steps_left s ≤ 4 * base_proof_count + 1
      run_short Run.started = omega arith
      run_short (Run.then run step) =
          omega (arith, run_short run, step_down (run-Occurring run) step)
