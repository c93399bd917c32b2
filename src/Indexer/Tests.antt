-- ===== src/Indexer/Tests.antt =====
-- An event that is seen pending, then canonical.
use decentralised_treasury.Prelude.{ℕ, ◌≡◌, refl, [], ◌∷◌, false, Option, none, some, arith}
use decentralised_treasury.Indexer.Rows.{
  EventStatus, Row, find_row, unique_rows, consistent_rows, advances_canonical, prepare_batch,
  merge_row, upsert_row, upsert_accepted, orphan_pending, retire_absent_pending_events,
}
use decentralised_treasury.Indexer.Ingest.{
  Repository, Batch, Ingested, advance_cursor, rows_in_range, range_error, canonical_beyond,
  outruns, retire, write_batch, ingest_and_advance_cursor, sweep_orphaned_pending_events,
}
use decentralised_treasury.Indexer.Ingest.History.{Later, Run, run-Later}
use decentralised_treasury.Indexer.Sync.{
  IndexerOptions, Fetched, Synced, canonical_batch, sync_canonical_once, sync_pending_once,
  sync_ranges, sync_range, add_range,
}
use decentralised_treasury.Indexer.Sync.Ranges.{Ends, sync_canonical-Ends}

abbrev seen : EventStatus → Option ℕ → Row
seen status height = record {
  identity = record { tx_hash = "tx"; account_update_index = 0; event_index = 0 };
  event_type = "vote";
  contract_data = "1" ∷ [];
  status = status;
  pending_seen_at_height = height;
  block = record {
    block_height = 5;
    block_timestamp = none;
    global_slot_since_genesis = none;
    state_hash = some "block";
    parent_hash = none;
    chain_status = none;
    block_event_index = 0;
  };
}

abbrev before : Repository
before = record {
  rows = seen EventStatus.pending (some 5) ∷ [];
  pending_cursor = some 5;
  canonical_cursor = none;
}

abbrev confirming : Batch
confirming =
    canonical_batch 0 9 (record { rows = seen EventStatus.canonical none ∷ []; rejected = 0 })

abbrev after : Repository
after = record {
  rows = seen EventStatus.canonical (some 5) ∷ [];
  pending_cursor = some 5;
  canonical_cursor = some 9;
}

confirmed : ingest_and_advance_cursor confirming before ≡ Ingested.ingested after 1 0
unfolding ingest_and_advance_cursor write_batch rows_in_range range_error prepare_batch unique_rows
    consistent_rows advances_canonical find_row outruns retire orphan_pending upsert_accepted
    upsert_row merge_row advance_cursor
confirmed = refl

-- The next pending snapshot without the event does not take the canonical row back.
emptied :
    sync_pending_once
      (some (record {
        fetched = record { rows = []; rejected = 0 };
        height = 12;
        ambiguous = false;
        ancestry = (4, "block") ∷ [];
      }))
      after
    ≡ Synced.synced (record after { pending_cursor = some 12 }) ((0, 12) ∷ [])
unfolding sync_pending_once ingest_and_advance_cursor write_batch rows_in_range range_error
    prepare_batch unique_rows consistent_rows advances_canonical find_row outruns canonical_beyond
    retire retire_absent_pending_events orphan_pending upsert_accepted advance_cursor
emptied = refl

run-Later_example : Later before (sweep_orphaned_pending_events 3 after)
run-Later_example = run-Later (Run.sweep 3 (Run.ingest confirming 1 0 after Run.started confirmed))

abbrev options : IndexerOptions
options = record { block_batch_size = 4; start_height = 0; canonical_overlap_blocks = 2 }

abbrev nothing : ℕ → ℕ → Option Fetched
nothing from to = some (record { rows = []; rejected = 0 })

-- From the cursor 9 with an overlap of two blocks: the heights 8 to 11, and 12 to 14.
polled :
    sync_canonical_once options nothing 10 14 after
    ≡ Synced.synced (record after { canonical_cursor = some 14 }) ((8, 11) ∷ (12, 14) ∷ [])
unfolding sync_canonical_once sync_ranges sync_range add_range ingest_and_advance_cursor write_batch
    rows_in_range range_error prepare_batch unique_rows consistent_rows advances_canonical outruns
    retire upsert_accepted advance_cursor
polled = refl

sync_canonical-Ends_example :
    Ends options nothing 14 8 after (sync_canonical_once options nothing 10 14 after)
sync_canonical-Ends_example =
    sync_canonical-Ends options nothing 14 10 after (omega arith) (omega arith)
