-- ===== src/Proving/Tests.antt =====
-- Two proofs of the staking ledger, merged.
use decentralised_treasury.Prelude.{
  ℕ, zero, suc, ◌+◌, ◌≤◌, ◌≡◌, refl, [], ◌∷◌, String, Bool, true, false, Option, none, some, ltb,
  leb, if◌then◌else◌, arith,
}
use mathlib.Core.Option.{some-injective}
use decentralised_treasury.Proving.Finder.{
  Fragment, LedgerRange, ledger_pairing, ActionsRange, actions_pairing, arrange, sort, insert,
  find_mergeable_proofs, find_pair, find_position,
}
use decentralised_treasury.Proving.Orchestrator.{
  Merging, Merged, Step, Run, begin, finish, Returns, merge_id_for, remove_at, remove_last,
}
use decentralised_treasury.Proving.Orchestrator.Steps.{
  Apart, steps_left, run_short, running_bounded,
}
use decentralised_treasury.Proving.Orchestrator.Complete.{Lineage, merge_complete}

abbrev range : (n m : ℕ) → n ≤ m → LedgerRange
range n m h = record { input_index = n; output_index = m; ordered = h }

abbrev single : ℕ → LedgerRange
single i = range i i (omega arith)

abbrev pair : LedgerRange
pair = range 0 1 (omega arith)

-- Each base proof digests one account.
abbrev bases : ℕ → Option LedgerRange
bases i = some (single i)

abbrev Joined : LedgerRange → LedgerRange → LedgerRange → Type 0
Joined p q r =
    (q.input_index ≡ p.output_index + 1)
    × (r.input_index ≡ p.input_index)
    × (r.output_index ≡ q.output_index)

abbrev accounts : LedgerRange → ℕ → ℕ
accounts p k = if leb p.input_index k then (if leb k p.output_index then 1 else 0) else 0

ledger-Lineage : Lineage bases Joined accounts
ledger-Lineage = record {
  of_base = λ i p e k. rw⁻¹ (some-injective (single i) p e) (ground arith);
  of_answer = λ p q r a k. ground (arith, a, p.ordered, q.ordered);
}

ledger-Apart : Apart ledger_pairing bases Joined (λ p. true)
ledger-Apart = record {
  of_base = λ i p e. refl;
  of_answer = λ p q r a h h'. refl;
  apart = λ p h. ground (arith, p.ordered);
}

abbrev name : ℕ → String
name zero = "0"
name (suc n) = "1"

abbrev digest : String → String
digest text = "digest"

abbrev both : Fragment LedgerRange
both = record { index = merge_id_for digest "0" "1"; proof = pair }

abbrev merged : Merging LedgerRange
merged = record {
  pending = both ∷ [];
  next_base_index = 2;
  running = [];
  completed = 1;
  reused = 0;
  failure = none;
}

run : (n : ℕ) → Run ledger_pairing (suc (suc n)) 1 bases name digest Joined merged 4
unfolding arrange sort insert find_mergeable_proofs find_pair find_position remove_at remove_last
run n =
    Run.then
      (Run.then
        (Run.then
          (Run.then Run.started
            (Step.read_base [] [] (single 0) (omega arith) refl refl (omega arith) refl))
          (Step.read_base (record { index = "0"; proof = single 0 } ∷ []) [] (single 1)
            (omega arith) refl refl (omega arith) refl))
        (Step.start_merge 0 1 (record { index = "0"; proof = single 0 })
          (record { index = "1"; proof = single 1 }) (omega arith) refl refl refl))
      (Step.end_merge 0 (record { index = "0"; proof = single 0 })
        (record { index = "1"; proof = single 1 }) false pair refl (refl, refl, refl))

not_at_once : (n : ℕ) → begin (suc (suc n)) (bases 0) ≡ none
unfolding begin
not_at_once n = refl

finished : finish none (both ∷ []) ≡ Merged.root pair
unfolding finish
finished = refl

merge_complete_example :
    ((k : ℕ) → accounts pair k ≡ (if ltb k 2 then 1 else 0)) × (suc 1 ≡ 2) × (2 ≤ 2)
merge_complete_example =
    merge_complete ledger_pairing 2 1 bases name digest Joined accounts ledger-Lineage (λ p. true)
      ledger-Apart (finish none (both ∷ [])) 1 2 pair
      (Returns.at_end merged 4 (not_at_once 0) (run 0) refl) finished

-- With one merge at a time the loop that waits may end while a pump is due: with three base proofs a
-- merge of the first two may be returned.
partial_return : Returns ledger_pairing 3 1 bases name digest Joined (finish none (both ∷ [])) 1 2
partial_return = Returns.at_end merged 4 (not_at_once 1) (run 1) refl

-- Two proofs of the vote reducer, each of which moves the hash of the actions on by one.
abbrev actions : ℕ → ℕ → ActionsRange
actions i j = record { from_actions_hash = i; to_actions_hash = j }

abbrev batches : ℕ → Option ActionsRange
batches i = some (actions i (suc i))

abbrev Chained : ActionsRange → ActionsRange → ActionsRange → Type 0
Chained p q r =
    (q.from_actions_hash ≡ p.to_actions_hash)
    × (r.from_actions_hash ≡ p.from_actions_hash)
    × (r.to_actions_hash ≡ q.to_actions_hash)

abbrev moves : ActionsRange → Bool
moves p = ltb p.from_actions_hash p.to_actions_hash

actions-Apart : Apart actions_pairing batches Chained moves
actions-Apart = record {
  of_base = λ i p e. rw⁻¹ (some-injective (actions i (suc i)) p e) (ground arith);
  of_answer = λ p q r a h h'. ground (arith, a, h, h');
  apart = λ p h. ground (arith, h);
}

abbrev first_batch : Fragment ActionsRange
first_batch = record { index = "0"; proof = actions 0 1 }

abbrev second_batch : Fragment ActionsRange
second_batch = record { index = "1"; proof = actions 1 2 }

abbrev merged_batches : Merging ActionsRange
merged_batches = record {
  pending = record { index = merge_id_for digest "0" "1"; proof = actions 0 2 } ∷ [];
  next_base_index = 2;
  running = [];
  completed = 1;
  reused = 0;
  failure = none;
}

actions_run : Run actions_pairing 2 1 batches name digest Chained merged_batches 4
unfolding arrange find_mergeable_proofs find_pair find_position remove_at remove_last
actions_run =
    Run.then
      (Run.then
        (Run.then
          (Run.then Run.started
            (Step.read_base [] [] (actions 0 1) (omega arith) refl refl (omega arith) refl))
          (Step.read_base (first_batch ∷ []) [] (actions 1 2) (omega arith) refl refl (omega arith)
            refl))
        (Step.start_merge 0 1 first_batch second_batch (omega arith) refl refl refl))
      (Step.end_merge 0 first_batch second_batch false (actions 0 2) refl (refl, refl, refl))

run_short_example :
    4 + steps_left actions_pairing 2 1 batches name digest Chained merged_batches ≤ 9
run_short_example =
    run_short actions_pairing 2 1 batches name digest Chained moves actions-Apart actions_run

running_bounded_example : 0 ≤ 1
running_bounded_example = running_bounded ledger_pairing 2 1 bases name digest Joined (run 0)
