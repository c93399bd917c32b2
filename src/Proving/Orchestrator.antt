-- ===== src/Proving/Orchestrator.antt =====
-- packages/sdk/src/proving/prover/merge-proof-orchestrator.ts: `merge` as a machine whose steps are
-- the reads, the starts of merges and their ends, in any order in which they may come.

mod Forest
pub mod Steps
pub mod Complete
use decentralised_treasury.Prelude.{
  ℕ, zero, suc, ◌+◌, ◌-◌, ◌<◌, ◌≤◌, ◌≡◌, List, [], ◌∷◌, ◌++◌, String, Bool, true, false, Option,
  none, some, ltb, ◌==◌, length, get_elem?, if◌then◌else◌,
}
use Prim.Native.String.{◌++◌ as ◌+++◌, slice}
use decentralised_treasury.Proving.Finder.{Fragment, Pairing, arrange, find_mergeable_proofs}

pub data MergeError : Type 0 where
  no_base_proofs : MergeError
  missing_base_proof : (index : ℕ) → MergeError
  merge_failed : MergeError
  merge_stalled : (remaining : ℕ) → MergeError

pub data Merged (Proof : Type 0) : Type 0 where
  root : (proof : Proof) → Merged Proof
  failed : (error : MergeError) → Merged Proof

-- `mergeIdFor`; the digest, in hexadecimal, is the runtime's.
abbrev pub merge_id_for : (String → String) → String → String → String
merge_id_for sha256 index1 index2 = "merge-" +++ slice (sha256 (index1 +++ ("|" +++ index2))) 0 32

-- The local variables of `merge`.
pub record Merging (Proof : Type 0) : Type 0 where
  pub pending : List (Fragment Proof)
  pub next_base_index : ℕ
  pub running : List (Fragment Proof × Fragment Proof)
  pub completed : ℕ
  pub reused : ℕ
  pub failure : Option MergeError

-- `failure ??= error`
abbrev pub first_failure : Option MergeError → MergeError → Option MergeError
first_failure none error = some error
first_failure (some first) error = some first

module _ {A : Type 0} where
  -- `splice(i, 1)` at a position of the list; a position beyond it changes nothing.
  unfoldable pub remove_at : ℕ → List A → List A
  remove_at i [] = []
  remove_at zero (x ∷ xs) = xs
  remove_at (suc i) (x ∷ xs) = x ∷ remove_at i xs

  -- `splice(-1, 1)`
  unfoldable pub remove_last : List A → List A
  remove_last [] = []
  remove_last (x ∷ []) = []
  remove_last (x ∷ xs) = x ∷ remove_last xs

  -- Both splices of a pair. The second looks for its proof in what the first has left; a proof that is
  -- no longer there has index -1.
  abbrev pub splice_pair : ℕ → ℕ → List A → List A
  splice_pair i j xs =
      let rest = remove_at i xs in
      if i == j
      then remove_last rest
      else if ltb i j
      then remove_at (j - 1) rest
      else remove_at j rest

module _ {Proof : Type 0} where
  abbrev pub initial : Merging Proof
  initial = record {
    pending = [];
    next_base_index = 0;
    running = [];
    completed = 0;
    reused = 0;
    failure = none;
  }

  -- The returns of `merge` before its loop, with the first base proof.
  unfoldable pub begin : ℕ → Option Proof → Option (Merged Proof)
  begin zero first = some (Merged.failed no_base_proofs)
  begin (suc zero) none = some (Merged.failed (missing_base_proof 0))
  begin (suc zero) (some proof) = some (Merged.root proof)
  begin (suc (suc n)) first = none

  -- What `merge` returns or throws once nothing is running.
  unfoldable pub finish : Option MergeError → List (Fragment Proof) → Merged Proof
  finish (some error) pending = Merged.failed error
  finish none [] = Merged.failed (merge_stalled 0)
  finish none (f ∷ []) = Merged.root f.proof
  finish none (f ∷ (g ∷ gs)) = Merged.failed (merge_stalled (length (f ∷ (g ∷ gs))))

  -- The number of base proofs, the limit of merges at once, the storage of base proofs, the ids, and
  -- what an answer of the queue or of the storage for a pair may be.
  module _ (pairing : Pairing Proof) (base_proof_count concurrency : ℕ)
      (get_proof : ℕ → Option Proof) (to_string : ℕ → String) (sha256 : String → String)
      (Answer : Proof → Proof → Proof → Type 0) where
    -- What one event does to the variables. A base proof is read after a search that found no pair and
    -- left the list that it searched arranged; merges that end while the proof is read have added to
    -- that list. A missing base proof counts as the failure unless there was one before.
    pub data Step : Merging Proof → Merging Proof → Type 0 where
      read_base :
          {s : Merging Proof} (searched rest : List (Fragment Proof)) (proof : Proof)
          → length s.running < concurrency
          → s.pending ≡ searched ++ rest
          → find_mergeable_proofs pairing searched ≡ none
          → s.next_base_index < base_proof_count
          → get_proof s.next_base_index ≡ some proof
          → Step s (record s {
            pending =
                arrange pairing searched
                ++ (rest ++ (record { index = to_string s.next_base_index; proof = proof } ∷ []));
            next_base_index = suc s.next_base_index;
          })
      base_missing :
          {s : Merging Proof}
          → s.next_base_index < base_proof_count
          → get_proof s.next_base_index ≡ none
          → s.failure ≡ none
          → Step s (record s { failure = some (missing_base_proof s.next_base_index) })
      start_merge :
          {s : Merging Proof} (i j : ℕ) (first second : Fragment Proof)
          → length s.running < concurrency
          → find_mergeable_proofs pairing s.pending ≡ some (i, j)
          → get_elem? (arrange pairing s.pending) i ≡ some first
          → get_elem? (arrange pairing s.pending) j ≡ some second
          → Step s (record s {
            pending = splice_pair i j (arrange pairing s.pending);
            running = (first, second) ∷ s.running;
          })
      end_merge :
          {s : Merging Proof} (n : ℕ) (first second : Fragment Proof) (from_storage : Bool)
          (merged : Proof)
          → get_elem? s.running n ≡ some (first, second)
          → Answer first.proof second.proof merged
          → Step s (record s {
            running = remove_at n s.running;
            completed = suc s.completed;
            reused = if from_storage then suc s.reused else s.reused;
            pending =
                s.pending
                ++ (record { index = merge_id_for sha256 first.index second.index; proof = merged }
                    ∷ []);
          })
      fail_merge :
          {s : Merging Proof} (n : ℕ) (first second : Fragment Proof)
          → get_elem? s.running n ≡ some (first, second)
          → Step s (record s {
            running = remove_at n s.running;
            failure = first_failure s.failure merge_failed;
          })

    -- The events of a call of `merge` up to some moment, with their number.
    pub data Run : Merging Proof → ℕ → Type 0 where
      started : Run initial 0
      then : {s t : Merging Proof} {n : ℕ} → Run s n → Step s t → Run t (suc n)

    -- How a call of `merge` may end, with the merges that it has completed and the base proofs that it
    -- has read: at once, or after a run in which nothing is running any more. The loop that waits for
    -- the merges tests no more than that, so a pump may be due that would have read on.
    pub data Returns : Merged Proof → ℕ → ℕ → Type 0 where
      at_once :
          (result : Merged Proof)
          → begin base_proof_count (get_proof 0) ≡ some result
          → Returns result 0 base_proof_count
      at_end :
          (s : Merging Proof) (n : ℕ)
          → begin base_proof_count (get_proof 0) ≡ none
          → Run s n
          → s.running ≡ []
          → Returns (finish s.failure s.pending) s.completed s.next_base_index
