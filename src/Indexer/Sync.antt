-- ===== src/Indexer/Sync.antt =====
-- packages/indexer/src/events-indexer.ts: the polls.

pub mod Ranges
use decentralised_treasury.Prelude.{
  ℕ, zero, suc, ◌+◌, ◌-◌, List, [], ◌∷◌, Bool, true, false, Option, none, some, leb, ltb, ◌==◌,
  if◌then◌else◌, String,
}
use decentralised_treasury.Indexer.Rows.{EventStatus, Row}
use decentralised_treasury.Indexer.Ingest.{
  Repository, CursorName, Batch, IngestError, Ingested, get_cursor, ingest_and_advance_cursor,
}

pub record IndexerOptions : Type 0 where
  pub block_batch_size : ℕ
  pub start_height : ℕ
  pub canonical_overlap_blocks : ℕ

-- The normalized rows of an answer of the archive, and the number of the observations it rejects.
pub record Fetched : Type 0 where
  pub rows : List Row
  pub rejected : ℕ

-- How a poll ends: it has not finished on its fuel, it has thrown, or it has passed the given ranges.
pub data Synced : Type 0 where
  exhausted : Synced
  stopped : (repository : Repository) → Synced
  synced : (repository : Repository) (ranges : List (ℕ × ℕ)) → Synced

abbrev pub canonical_batch : ℕ → ℕ → Fetched → Batch
canonical_batch from to fetched = record {
  rows = fetched.rows;
  rejected_before = fetched.rejected;
  status = EventStatus.canonical;
  cursor_name = CursorName.events_canonical;
  block_height = to;
  complete_range = some (from, to);
  replace_pending_branch = false;
  selected_ancestry = [];
}

-- `min(from + blockBatchSize - 1, archiveHead)`
abbrev pub range_end : IndexerOptions → ℕ → ℕ → ℕ
range_end options head from =
    let last = from + options.block_batch_size - 1 in if leb last head then last else head

unfoldable pub add_range : ℕ × ℕ → Synced → Synced
add_range range Synced.exhausted = Synced.exhausted
add_range range (Synced.stopped r) = Synced.stopped r
add_range range (Synced.synced r ranges) = Synced.synced r (range ∷ ranges)

module _ (options : IndexerOptions) (fetch_events : ℕ → ℕ → Option Fetched) where
  -- What one round of the loop does with the archive's answer, and the rest of the loop.
  unfoldable pub sync_range : ℕ → ℕ → Option Fetched → Repository → (Repository → Synced) → Synced
  sync_range from to none r rest = Synced.stopped r
  sync_range from to (some fetched) r rest =
      elim (ingest_and_advance_cursor (canonical_batch from to fetched) r) [
        | Ingested.refused error ↦ Synced.stopped r
        | Ingested.ingested r' accepted rejected ↦ add_range (from, to) (rest r')
      ]

  -- The loop of `syncStatusOnce`, on fuel.
  unfoldable pub sync_ranges : ℕ → ℕ → ℕ → Repository → Synced
  sync_ranges zero head from r = Synced.exhausted
  sync_ranges (suc fuel) head from r = elim (leb from head) [
    | false ↦ Synced.synced r []
    | true ↦
        let to = range_end options head from in
        sync_range from to (fetch_events from to) r (λ r'. sync_ranges fuel head (to + 1) r')
  ]

  -- Where a poll starts.
  abbrev pub first_height : Option ℕ → ℕ
  first_height none = options.start_height
  first_height (some cursor) =
      if ltb 0 options.canonical_overlap_blocks
      then cursor + 1 - options.canonical_overlap_blocks
      else cursor + 1

  -- `syncStatusOnce` for the canonical status, with the head of the archive.
  unfoldable pub sync_canonical_once : ℕ → ℕ → Repository → Synced
  sync_canonical_once fuel head r =
      sync_ranges fuel head (first_height (get_cursor CursorName.events_canonical r)) r

-- `PendingArchiveSnapshot`
pub record Snapshot : Type 0 where
  pub fetched : Fetched
  pub height : ℕ
  pub ambiguous : Bool
  pub ancestry : List (ℕ × String)

-- `syncStatusOnce` for the pending status: an ambiguous snapshot is stored, and then reported.
unfoldable pub sync_pending_once : Option Snapshot → Repository → Synced
sync_pending_once none r = Synced.stopped r
sync_pending_once (some snapshot) r =
    elim (ingest_and_advance_cursor
      (record {
        rows = snapshot.fetched.rows;
        rejected_before = snapshot.fetched.rejected;
        status = EventStatus.pending;
        cursor_name = CursorName.events_pending;
        block_height = snapshot.height;
        complete_range = some (0, snapshot.height);
        replace_pending_branch = true;
        selected_ancestry = if snapshot.ambiguous then [] else snapshot.ancestry;
      })
      r) [
        | Ingested.refused error ↦ Synced.stopped r
        | Ingested.ingested r' accepted rejected ↦
            if snapshot.ambiguous
            then Synced.stopped r'
            else Synced.synced r' ((0, snapshot.height) ∷ [])
      ]
