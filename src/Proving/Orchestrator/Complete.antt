-- ===== src/Proving/Orchestrator/Complete.antt =====
-- About the result of `merge`: the base proofs that it is made of.
use decentralised_treasury.Prelude.{
  ℕ, zero, suc, ◌+◌, ◌*◌, ◌≤◌, ◌≡◌, refl, ap, ◌∙◌, List, [], ◌∷◌, ◌++◌, String, Bool, Option, none,
  some, ltb, ◌==◌, length, length-append, if◌then◌else◌, arith,
}
use decentralised_treasury.Proving.Finder.{Fragment, Pairing, arrange}
use decentralised_treasury.Proving.Orchestrator.{
  Merging, MergeError, Merged, merge_failed, first_failure, splice_pair, Step, Run, merge_id_for,
  begin, finish, Returns,
}
use decentralised_treasury.Proving.Orchestrator.Forest.{
  total, total-append, total-remove_at, length-remove_at, length-total,
}
use decentralised_treasury.Proving.Orchestrator.Steps.{
  of_pending, of_running, pending-pair, pending-read, Apart, Occurring, first_alone, run-Occurring,
}

-- How often a base proof is in a proof: a base proof is in itself once, and a merge has what its parts
-- have.
pub record Lineage {Proof : Type 0} (get_proof : ℕ → Option Proof)
    (Answer : Proof → Proof → Proof → Type 0) (times : Proof → ℕ → ℕ) : Type 0 where
  pub of_base :
      (i : ℕ) (p : Proof) → get_proof i ≡ some p → (k : ℕ) → times p k ≡ (if i == k then 1 else 0)
  pub of_answer : (p q r : Proof) → Answer p q r → (k : ℕ) → times r k ≡ times p k + times q k

finish_inv :
    {Proof : Type 0} (failure : Option MergeError) (pending : List (Fragment Proof)) (proof : Proof)
    → finish failure pending ≡ Merged.root proof
    → (failure ≡ none) × ((f : Fragment Proof) × (pending ≡ f ∷ []) × (f.proof ≡ proof))
unfolding finish
finish_inv (some error) pending proof e = cc
finish_inv none [] proof e = cc
finish_inv none (f ∷ []) proof e = (refl, (f, refl, cc))
finish_inv none (f ∷ (g ∷ gs)) proof e = cc

begin_inv :
    {Proof : Type 0} (count : ℕ) (first : Option Proof) (proof : Proof)
    → begin count first ≡ some (Merged.root proof)
    → (count ≡ 1) × (first ≡ some proof)
unfolding begin
begin_inv zero first proof e = cc
begin_inv (suc zero) none proof e = cc
begin_inv (suc zero) (some p) proof e = (refl, cc)
begin_inv (suc (suc n)) first proof e = cc

module _ {Proof : Type 0} (pairing : Pairing Proof) (base_proof_count concurrency : ℕ)
    (get_proof : ℕ → Option Proof) (to_string : ℕ → String) (sha256 : String → String)
    (Answer : Proof → Proof → Proof → Type 0) (times : Proof → ℕ → ℕ)
    (lineage : Lineage get_proof Answer times) (occurs : Proof → Bool)
    (distinct : Apart pairing get_proof Answer occurs) where
  -- Unless a step has failed, each base proof that was read is once in the pending and running proofs,
  -- no other is, and the base proofs read are as many as the pending ones, two for each running merge
  -- and one for each completed merge.
  record Whole (s : Merging Proof) : Type 0 where
    read : s.next_base_index ≤ base_proof_count
    once :
        s.failure ≡ none
        → (k : ℕ)
        → of_pending (λ p. times p k) s + of_running (λ p. times p k) s
          ≡ (if ltb k s.next_base_index then 1 else 0)
    counted :
        s.failure ≡ none → s.next_base_index ≡ length s.pending + 2 * length s.running + s.completed

  first_failure_lem :
      (failure : Option MergeError) (error : MergeError) → ¬ (first_failure failure error ≡ none)
  first_failure_lem none error e = cc
  first_failure_lem (some first) error e = cc

  Step-Whole :
      {s t : Merging Proof}
      → Step pairing base_proof_count concurrency get_proof to_string sha256 Answer s t
      → Occurring occurs s
      → Whole s
      → Whole t
  Step-Whole (Step.read_base {s} searched rest proof h same none_found more e) clean whole =
      let f : Fragment Proof = record { index = to_string s.next_base_index; proof = proof } in
      record {
        read = more;
        once = λ fresh k. ground (
          arith,
          whole.once fresh k,
          pending-read pairing (λ p. times p k) s searched rest f same,
          lineage.of_base s.next_base_index proof e k,
        );
        counted = λ fresh. omega (
          arith,
          whole.counted fresh,
          pending-read pairing (λ p. 1) s searched rest f same,
          length-total s.pending,
          length-total (arrange pairing searched ++ (rest ++ (f ∷ []))),
        );
      }
  Step-Whole (Step.base_missing {s} more e fresh) clean whole = record {
    read = whole.read;
    once = λ failed. cc;
    counted = λ failed. cc;
  }
  Step-Whole (Step.start_merge {s} i j first second h found e e') clean whole = record {
    read = whole.read;
    once = λ fresh k. omega (
      arith,
      whole.once fresh k,
      pending-pair pairing (λ p. times p k) s i j first second
          (first_alone s i first distinct clean e) found e e',
    );
    counted = λ fresh. omega (
      arith,
      whole.counted fresh,
      pending-pair pairing (λ p. 1) s i j first second (first_alone s i first distinct clean e)
          found e e',
      length-total s.pending,
      length-total (splice_pair i j (arrange pairing s.pending)),
    );
  }
  Step-Whole (Step.end_merge {s} n first second from merged e a) clean whole =
      let f : Fragment Proof = record {
        index = merge_id_for sha256 first.index second.index;
        proof = merged;
      } in
      record {
        read = whole.read;
        once = λ fresh k. omega (
          arith,
          whole.once fresh k,
          total-append (λ g. times g.proof k) s.pending (f ∷ []),
          total-remove_at (λ pair. times pair.0.proof k + times pair.1.proof k) n s.running
              (first, second) e,
          lineage.of_answer first.proof second.proof merged a k,
        );
        counted = λ fresh. omega (
          arith,
          whole.counted fresh,
          length-append s.pending (f ∷ []),
          length-remove_at n s.running (first, second) e,
        );
      }
  Step-Whole (Step.fail_merge {s} n first second e) clean whole = record {
    read = whole.read;
    once = λ fresh. absurd (first_failure_lem s.failure merge_failed fresh);
    counted = λ fresh. absurd (first_failure_lem s.failure merge_failed fresh);
  }

  run-Whole :
      {s : Merging Proof} {n : ℕ}
      → Run pairing base_proof_count concurrency get_proof to_string sha256 Answer s n
      → Whole s
  run-Whole Run.started = record {
    read = omega arith;
    once = λ fresh k. ground arith;
    counted = λ fresh. omega arith;
  }
  run-Whole (Run.then run step) =
      Step-Whole step
        (run-Occurring pairing base_proof_count concurrency get_proof to_string sha256 Answer occurs
          distinct run)
        (run-Whole run)

  -- When each base proof is in itself once, an answer for a pair has what the pair has, and no proof
  -- that occurs follows itself: a proof that `merge` returns, whatever the order in which the merges
  -- end and whichever of them come from storage, has each of the base proofs that were read in it
  -- once and nothing else, so that none of them is lost or merged twice; the merges completed are one
  -- less than the base proofs read; and these are no more than the base proofs there are.
  pub merge_complete :
      (result : Merged Proof) (completed read : ℕ) (proof : Proof)
      → Returns pairing base_proof_count concurrency get_proof to_string sha256 Answer result
          completed read
      → result ≡ Merged.root proof
      → ((k : ℕ) → times proof k ≡ (if ltb k read then 1 else 0))
        × (suc completed ≡ read)
        × (read ≤ base_proof_count)
  merge_complete result completed read proof (Returns.at_once r e) same =
      let (single, first) = begin_inv base_proof_count (get_proof 0) proof (e ∙ ap some same) in
      (
        (λ k. lineage.of_base 0 proof first k ∙ ground (arith, single)),
        omega (arith, single),
        omega arith,
      )
  merge_complete result completed read proof (Returns.at_end s n later run idle) same =
      let (fresh, (f, one, is_root)) = finish_inv s.failure s.pending proof same in
      let whole = run-Whole run in
      (
        (λ k. ground (
          arith,
          whole.once fresh k,
          ap (total (λ g. times g.proof k)) one,
          ap (total (λ pair. times pair.0.proof k + times pair.1.proof k)) idle,
          ap (λ p. times p k) is_root,
        )),
        omega (arith, whole.counted fresh, ap length one, ap length idle),
        whole.read,
      )
