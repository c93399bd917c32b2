-- ===== src/Processor/Page.antt =====
-- packages/processor/src/events-processor.ts: a page of events from the indexer's API.
pub mod Order
use decentralised_treasury.Prelude.{
  ℕ, zero, suc, ◌+◌, List, [], ◌∷◌, Bool, true, false, Option, none, some, if◌then◌else◌, length,
}
use decentralised_treasury.Processor.Types.{Event, Store, ProcessorOffset}
use decentralised_treasury.Processor.Router.{Handler}
use decentralised_treasury.Processor.Attempt.{Options, EventProcessingResult}
use decentralised_treasury.Processor.Passing.{Turn, Passed, process_event_with_retries}

-- What the pass of one event finds of the clock and of the stops.
pub record Script : Type 0 where
  pub started_at : ℕ
  pub stopping : Bool
  pub turn : ℕ → Turn

-- How a page was passed.
pub record PagePassed (Output : Type 0) : Type 0 where
  pub fetched_rows : ℕ
  pub processed_rows : ℕ
  pub blocked : Bool
  pub store : Store Output

-- `offset?.lastSeenChangeSequence ?? "0"`
abbrev pub change_sequence_after : Option ProcessorOffset → ℕ
change_sequence_after none = 0
change_sequence_after (some o) = o.last_seen_change_sequence

module _ {Output : Type 0} (options : Options) (handlers : List (Handler Output)) where
  -- One event of the page: the loop goes on unless the event is blocked.
  unfoldable pub count_row :
      EventProcessingResult → Store Output → PagePassed Output → PagePassed Output
  count_row EventProcessingResult.blocked store rest = record {
    fetched_rows = 0;
    processed_rows = 0;
    blocked = true;
    store = store;
  }
  count_row EventProcessingResult.processed store rest = record rest {
    processed_rows = suc rest.processed_rows;
  }
  count_row EventProcessingResult.skipped store rest = rest

  -- The loop of `processOnceFromIndexerApi`, with the number of the next event.
  unfoldable pub process_items : (ℕ → Script) → ℕ → List Event → Store Output → PagePassed Output
  process_items script i [] store = record {
    fetched_rows = 0;
    processed_rows = 0;
    blocked = false;
    store = store;
  }
  process_items script i (event ∷ events) store =
      let s = script i in
      let passed =
        process_event_with_retries options handlers event s.started_at s.stopping s.turn store in
      count_row passed.result passed.store (process_items script (suc i) events passed.store)

  -- `processOnceFromIndexerApi`, with the API's answer for a cursor and a limit.
  unfoldable pub process_once_from_indexer_api :
      (ℕ → ℕ → List Event) → (ℕ → Script) → Store Output → PagePassed Output
  process_once_from_indexer_api fetch_items script store =
      let items = fetch_items (change_sequence_after store.offset) options.batch_size in
      let passed = process_items script 0 items store in
      record passed { fetched_rows = length items }
