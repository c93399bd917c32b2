-- ===== src/Indexer/Ingest.antt =====
-- packages/indexer/src/events-repository.ts: the transactions on the rows and the cursors.
pub mod History
use decentralised_treasury.Prelude.{
  ℕ, zero, suc, ◌+◌, ◌-◌, List, [], ◌∷◌, ◌++◌, String, Bool, true, false, not, ◌&&◌, ◌||◌, Option,
  none, some, leb, ltb, ◌==◌, if◌then◌else◌, length,
}
use decentralised_treasury.Processor.Types.{text_eq}
use decentralised_treasury.Indexer.Rows.{
  EventStatus, Block, Row, is_pending, is_canonical, find_row, prepare_batch, upsert_accepted,
  orphan_pending, retire_absent_pending_events, mark_pending_as_orphaned,
}

-- The rows, and the cursors of the pending and the canonical polls.
pub record Repository : Type 0 where
  pub rows : List Row
  pub pending_cursor : Option ℕ
  pub canonical_cursor : Option ℕ

pub data CursorName : Type 0 where
  events_pending events_canonical : CursorName

abbrev pub get_cursor : CursorName → Repository → Option ℕ
get_cursor CursorName.events_pending r = r.pending_cursor
get_cursor CursorName.events_canonical r = r.canonical_cursor

-- `GREATEST` of the stored height and the new one.
abbrev pub greatest : Option ℕ → ℕ → ℕ
greatest none height = height
greatest (some stored) height = if leb stored height then height else stored

-- `advanceCursor`
unfoldable pub advance_cursor : CursorName → ℕ → Repository → Repository
advance_cursor CursorName.events_pending height r = record r {
  pending_cursor = some (greatest r.pending_cursor height);
}
advance_cursor CursorName.events_canonical height r = record r {
  canonical_cursor = some (greatest r.canonical_cursor height);
}

-- Why a batch is refused as a whole.
pub data IngestError : Type 0 where
  inverted_range height_outside_range canonical_advanced invalid_pending_branch : IngestError

pub data Ingested : Type 0 where
  refused : (error : IngestError) → Ingested
  ingested : (repository : Repository) (accepted_rows rejected_rows : ℕ) → Ingested

-- What comes with a batch: its status, the height that the cursor moves to, the complete range, whether
-- it replaces the pending branch, and the blocks of the selected branch with their hashes.
pub record Batch : Type 0 where
  pub rows : List Row
  pub rejected_before : ℕ
  pub status : EventStatus
  pub cursor_name : CursorName
  pub block_height : ℕ
  pub complete_range : Option (ℕ × ℕ)
  pub replace_pending_branch : Bool
  pub selected_ancestry : List (ℕ × String)

-- The rows of `enforceCompleteRange` within the range, and the number of the others.
unfoldable pub rows_in_range : ℕ → ℕ → List Row → List Row × ℕ
rows_in_range from to [] = ([], 0)
rows_in_range from to (row ∷ rows) =
    let (accepted, rejected) = rows_in_range from to rows in
    if leb from row.block.block_height && leb row.block.block_height to
    then (row ∷ accepted, rejected)
    else (accepted, suc rejected)

-- The checks before the transaction.
unfoldable pub range_error : ℕ → Option (ℕ × ℕ) → Option IngestError
range_error height none = none
range_error height (some (from, to)) =
    if ltb to from
    then some IngestError.inverted_range
    else if height == to
    then none
    else some IngestError.height_outside_range

abbrev pub has_hash : List (ℕ × String) → String → Bool
has_hash [] hash = false
has_hash (block ∷ blocks) hash = text_eq block.1 hash || has_hash blocks hash

-- A canonical row from the height on whose block is not among the selected ones.
unfoldable pub canonical_beyond : ℕ → List (ℕ × String) → List Row → Bool
canonical_beyond anchor ancestry [] = false
canonical_beyond anchor ancestry (row ∷ rows) =
    let unknown = elim row.block.state_hash as (λ _. Bool) [
      | none ↦ false
      | some hash ↦ not (text_eq hash "") && not (has_hash ancestry hash)
    ] in
    (is_canonical row.status && (leb anchor row.block.block_height && unknown))
    || canonical_beyond anchor ancestry rows

-- Whether canonical ingestion has gone past the selected blocks.
unfoldable pub outruns : List (ℕ × String) → List Row → Bool
outruns [] stored = false
outruns (block ∷ blocks) stored = canonical_beyond block.0 (block ∷ blocks) stored

-- The retirement of absent pending rows, for a pending batch with a complete range and no rejection.
unfoldable pub retire : Batch → List Row → ℕ → List Row → List Row
retire batch accepted rejected stored = elim batch.complete_range [
  | none ↦ stored
  | some (from, to) ↦
      if is_pending batch.status && rejected == 0
      then (if batch.replace_pending_branch
          then retire_absent_pending_events 0 2147483647 accepted stored
          else retire_absent_pending_events from to accepted stored)
      else stored
]

-- The transaction of a batch, once it is normalized and its rows are prepared.
unfoldable pub write_batch : Batch → ℕ → List Row × ℕ × Bool → Repository → Ingested
write_batch batch outside (accepted, conflicts, newly_canonical) r =
    let rejected = batch.rejected_before + (outside + conflicts) in
    let current = if newly_canonical then orphan_pending (λ row. true) r.rows else r.rows in
    let done =
      advance_cursor batch.cursor_name batch.block_height
        (record r { rows = upsert_accepted (retire batch accepted rejected current) accepted }) in
    if outruns batch.selected_ancestry r.rows
    then Ingested.refused IngestError.canonical_advanced
    else if batch.replace_pending_branch && not (rejected == 0)
    then Ingested.refused IngestError.invalid_pending_branch
    else Ingested.ingested done (length accepted) rejected

-- `ingestRawEventsAndAdvanceCursor`, from normalized rows.
unfoldable pub ingest_and_advance_cursor : Batch → Repository → Ingested
ingest_and_advance_cursor batch r =
    let (rows, outside) = elim batch.complete_range as (λ _. List Row × ℕ) [
      | none ↦ (batch.rows, 0)
      | some (from, to) ↦ rows_in_range from to batch.rows
    ] in
    elim (range_error batch.block_height batch.complete_range) [
      | some error ↦ Ingested.refused error
      | none ↦ write_batch batch outside (prepare_batch r.rows rows) r
    ]

-- `markPendingAsOrphaned` at the canonical cursor that was read.
unfoldable pub sweep_below : ℕ → Option ℕ → Repository → Repository
sweep_below orphan_depth_blocks none r = r
sweep_below orphan_depth_blocks (some cursor) r = record r {
  rows = mark_pending_as_orphaned cursor orphan_depth_blocks r.rows;
}

-- `launchOrphanSweep`
unfoldable pub sweep_orphaned_pending_events : ℕ → Repository → Repository
sweep_orphaned_pending_events orphan_depth_blocks r =
    sweep_below orphan_depth_blocks r.canonical_cursor r
