-- ===== src/Indexer/Ingest/History.antt =====
-- What stays over any sequence of batches and sweeps.
use mathlib.Core.Path.{subst}
use decentralised_treasury.Prelude.{
  ℕ, ◌+◌, ◌-◌, ◌≤◌, ◌≡◌, inl, inr, List, Bool, true, false, not, ◌&&◌, Option, none, some, leb, ltb,
  ◌==◌, if◌then◌else◌, length, arith, Option-cases,
}
use decentralised_treasury.Indexer.Rows.{
  Row, is_pending, is_absent, prepare_batch, upsert_accepted, orphan_pending,
  retire_absent_pending_events, mark_pending_as_orphaned,
}
use decentralised_treasury.Indexer.Rows.Kept.{
  AllKept, AllKept-refl, AllKept-trans, upsert_accepted-AllKept, orphan_pending-AllKept,
}
use decentralised_treasury.Indexer.Ingest.{
  Repository, CursorName, IngestError, Ingested, Batch, greatest, advance_cursor, retire,
  write_batch, rows_in_range, range_error, outruns, ingest_and_advance_cursor, sweep_below,
  sweep_orphaned_pending_events,
}

-- A cursor that is set stays set and does not go back.
abbrev pub Onward : Option ℕ → Option ℕ → Type 0
Onward none after = Unit {0}
Onward (some before) none = ⊥
Onward (some before) (some after) = before ≤ after

Onward-refl : (c : Option ℕ) → Onward c c
Onward-refl none = tt
Onward-refl (some n) = omega arith

Onward-trans : (a b c : Option ℕ) → Onward a b → Onward b c → Onward a c
Onward-trans none b c k l = tt
Onward-trans (some a) none c k l = elim k [ ]
Onward-trans (some a) (some b) none k l = elim l [ ]
Onward-trans (some a) (some b) (some c) k l = omega (arith, k, l)

greatest-Onward : (c : Option ℕ) (height : ℕ) → Onward c (some (greatest c height))
greatest-Onward none height = tt
greatest-Onward (some stored) height = ground arith

-- The rows keep what `Kept` says, and no cursor goes back.
pub record Later (r r' : Repository) : Type 0 where
  pub rows : AllKept r.rows r'.rows
  pub pending : Onward r.pending_cursor r'.pending_cursor
  pub canonical : Onward r.canonical_cursor r'.canonical_cursor

pub Later-refl : (r : Repository) → Later r r
Later-refl r = record {
  rows = AllKept-refl r.rows;
  pending = Onward-refl r.pending_cursor;
  canonical = Onward-refl r.canonical_cursor;
}

pub Later-trans : (a b c : Repository) → Later a b → Later b c → Later a c
Later-trans a b c k l = record {
  rows = AllKept-trans a.rows b.rows c.rows k.rows l.rows;
  pending = Onward-trans a.pending_cursor b.pending_cursor c.pending_cursor k.pending l.pending;
  canonical =
      Onward-trans a.canonical_cursor b.canonical_cursor c.canonical_cursor k.canonical l.canonical;
}

if-AllKept :
    (b : Bool) (stored xs ys : List Row)
    → AllKept stored xs
    → AllKept stored ys
    → AllKept stored (if b then xs else ys)
if-AllKept true stored xs ys k l = k
if-AllKept false stored xs ys k l = l

absent-AllKept :
    (from to : ℕ) (observed stored : List Row)
    → AllKept stored (retire_absent_pending_events from to observed stored)
unfolding retire_absent_pending_events
absent-AllKept from to observed stored =
    orphan_pending-AllKept
      (λ r. leb from r.block.block_height && (leb r.block.block_height to && is_absent observed r))
      stored

retire-AllKept :
    (batch : Batch) (accepted : List Row) (rejected : ℕ) (stored : List Row)
    → AllKept stored (retire batch accepted rejected stored)
unfolding retire
retire-AllKept batch accepted rejected stored = elim (Option-cases batch.complete_range) [
  | inl e ↦ rw (e, retire) (AllKept-refl stored)
  | inr ((from, to), e) ↦
      let all = retire_absent_pending_events 0 2147483647 accepted stored in
      let range = retire_absent_pending_events from to accepted stored in
      rw (e, retire)
        (if-AllKept (is_pending batch.status && rejected == 0) stored
          (if batch.replace_pending_branch then all else range) stored
          (if-AllKept batch.replace_pending_branch stored all range
            (absent-AllKept 0 2147483647 accepted stored) (absent-AllKept from to accepted stored))
          (AllKept-refl stored))
]

advance_cursor-Later :
    (name : CursorName) (height : ℕ) (r : Repository) (rows : List Row)
    → AllKept r.rows rows
    → Later r (advance_cursor name height (record r { rows = rows }))
unfolding advance_cursor
advance_cursor-Later CursorName.events_pending height r rows kept = record {
  rows = kept;
  pending = greatest-Onward r.pending_cursor height;
  canonical = Onward-refl r.canonical_cursor;
}
advance_cursor-Later CursorName.events_canonical height r rows kept = record {
  rows = kept;
  pending = Onward-refl r.pending_cursor;
  canonical = greatest-Onward r.canonical_cursor height;
}

-- A batch that goes through has written its rows and its cursor in one step; one that is refused has
-- no new repository.
abbrev pub Effect : Repository → Ingested → Type 0
Effect r (Ingested.refused error) = Unit {0}
Effect r (Ingested.ingested r' accepted rejected) = Later r r'

if-Effect :
    (b : Bool) (r : Repository) (x y : Ingested)
    → Effect r x
    → Effect r y
    → Effect r (if b then x else y)
if-Effect true r x y e e' = e
if-Effect false r x y e e' = e'

write_batch-Effect :
    (batch : Batch) (outside : ℕ) (prepared : List Row × ℕ × Bool) (r : Repository)
    → Effect r (write_batch batch outside prepared r)
unfolding write_batch
write_batch-Effect batch outside (accepted, conflicts, newly) r =
    let rejected = batch.rejected_before + (outside + conflicts) in
    let current = if newly then orphan_pending (λ row. true) r.rows else r.rows in
    let retired = retire batch accepted rejected current in
    let written = upsert_accepted retired accepted in
    let done = advance_cursor batch.cursor_name batch.block_height (record r { rows = written }) in
    let kept =
      AllKept-trans r.rows current written
        (if-AllKept newly r.rows (orphan_pending (λ row. true) r.rows) r.rows
          (orphan_pending-AllKept (λ row. true) r.rows) (AllKept-refl r.rows))
        (AllKept-trans current retired written (retire-AllKept batch accepted rejected current)
          (upsert_accepted-AllKept retired accepted)) in
    let invalid = batch.replace_pending_branch && not (rejected == 0) in
    let success = Ingested.ingested done (length accepted) rejected in
    if-Effect (outruns batch.selected_ancestry r.rows) r
      (Ingested.refused IngestError.canonical_advanced)
      (if invalid then Ingested.refused IngestError.invalid_pending_branch else success) tt
      (if-Effect invalid r (Ingested.refused IngestError.invalid_pending_branch) success tt
        (advance_cursor-Later batch.cursor_name batch.block_height r written kept))

pub ingest-Effect : (batch : Batch) (r : Repository) → Effect r (ingest_and_advance_cursor batch r)
unfolding ingest_and_advance_cursor
ingest-Effect batch r = elim (Option-cases (range_error batch.block_height batch.complete_range)) [
  | inr (error, e) ↦ rw (e, ingest_and_advance_cursor) tt
  | inl e ↦
      let (rows, outside) = elim batch.complete_range as (λ _. List Row × ℕ) [
        | none ↦ (batch.rows, 0)
        | some (from, to) ↦ rows_in_range from to batch.rows
      ] in
      rw (e, ingest_and_advance_cursor)
        (write_batch-Effect batch outside (prepare_batch r.rows rows) r)
]

mark-AllKept :
    (cursor depth : ℕ) (rows : List Row) → AllKept rows (mark_pending_as_orphaned cursor depth rows)
unfolding mark_pending_as_orphaned
mark-AllKept cursor depth rows =
    let test = λ (r : Row). elim r.pending_seen_at_height as (λ _. Bool) [
      | none ↦ false
      | some height ↦ leb height (cursor - depth)
    ] in
    if-AllKept (ltb cursor depth) rows rows (orphan_pending test rows) (AllKept-refl rows)
      (orphan_pending-AllKept test rows)

below-Later :
    (depth : ℕ) (cursor : Option ℕ) (r : Repository) → Later r (sweep_below depth cursor r)
unfolding sweep_below
below-Later depth none r = Later-refl r
below-Later depth (some cursor) r = record {
  rows = mark-AllKept cursor depth r.rows;
  pending = Onward-refl r.pending_cursor;
  canonical = Onward-refl r.canonical_cursor;
}

sweep-Later : (depth : ℕ) (r : Repository) → Later r (sweep_orphaned_pending_events depth r)
unfolding sweep_orphaned_pending_events
sweep-Later depth r = below-Later depth r.canonical_cursor r

-- What the indexer's operations do to the repository, in any order.
pub data Run : Repository → Repository → Type 0 where
  started : {r : Repository} → Run r r
  ingest :
      {r s : Repository} (batch : Batch) (accepted rejected : ℕ) (t : Repository)
      → Run r s
      → ingest_and_advance_cursor batch s ≡ Ingested.ingested t accepted rejected
      → Run r t
  sweep :
      {r s : Repository} (orphan_depth_blocks : ℕ)
      → Run r s
      → Run r (sweep_orphaned_pending_events orphan_depth_blocks s)

-- Over any sequence of batches that go through and of sweeps: a stored event keeps its identity, its
-- type and its contract data; once canonical, it stays canonical; and neither cursor goes back.
pub run-Later : {r s : Repository} → Run r s → Later r s
run-Later (Run.started {r}) = Later-refl r
run-Later (Run.ingest {r} {s} batch accepted rejected t run e) =
    Later-trans r s t (run-Later run) (subst (Effect s) e (ingest-Effect batch s))
run-Later (Run.sweep {r} {s} depth run) =
    Later-trans r s (sweep_orphaned_pending_events depth s) (run-Later run) (sweep-Later depth s)
