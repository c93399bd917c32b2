-- ===== src/Processor/Tests.antt =====
-- A processor with one handler, and two versions of an event.
use decentralised_treasury.Prelude.{
  ℕ, suc, ◌*◌, ◌^◌, ◌≤◌, ◌≡◌, ◌↔◌, refl, List, [], ◌∷◌, String, Bool, true, false, none, some, leb,
  ◌==◌, if◌then◌else◌, arith,
}
use decentralised_treasury.Processor.Types.{
  ContractData, Event, ProcessorEventFailure, ProcessorEventFailureState, EventError, Store,
  find_failure, update_failures,
}
use decentralised_treasury.Processor.Router.{
  Handler, Trial, Dispatched, dispatch, typed_handler, find_handler, event_processor_router,
}
use decentralised_treasury.Processor.Attempt.{
  Options, EventProcessingResult, Attempted, attempt, close_failures, supersede_failure, offset_of,
  retry_delay_ms, default_retry_base_delay_ms, default_retry_max_delay_ms, default_max_attempts,
}
use decentralised_treasury.Processor.Passing.{Turn, process_event_with_retries}
use decentralised_treasury.Processor.Passing.Outcome.{Outcome, process_event-Outcome}
use decentralised_treasury.Processor.Passing.Recovery.{event-Recovers}
use decentralised_treasury.Processor.Passing.Backoff.{retry_delay_bounds}
use decentralised_treasury.Processor.Page.{Script, process_once_from_indexer_api}
use decentralised_treasury.Processor.Page.Order.{Advanced, AllCovered, page_covered}
use decentralised_treasury.Processor.Blocked.{
  Page, scan_pages, has_successor, is_immutable_successor,
}
use decentralised_treasury.Processor.Blocked.Scan.{Found, scan_decides}
use decentralised_treasury.Processor.Cycle.{Round}
use decentralised_treasury.Processor.History.{Step, Run}

-- It counts the votes that it has seen; before the time 10 its dependency is away.
abbrev votes : Handler ℕ
votes = record {
  event_type = "vote";
  try_handle = λ now event count.
      if leb 10 now then Trial.accepted (suc count) else Trial.thrown EventError.transient;
}

abbrev handlers : List (Handler ℕ)
handlers = votes ∷ []

abbrev options : Options
options = record {
  batch_size = 10;
  max_attempts = default_max_attempts;
  retry_base_delay_ms = default_retry_base_delay_ms;
  retry_max_delay_ms = default_retry_max_delay_ms;
}

abbrev version : ℕ → Event
version n = record {
  id = 1;
  change_sequence = n;
  status = "canonical";
  event_type = some "vote";
  tx_hash = "tx";
  account_update_index = 0;
  event_index = 0;
  contract_data = ContractData.null;
  updated_at = 5;
}

abbrev empty : Store ℕ
empty = record { offset = none; failures = []; runtime = none; output = 0 }

-- The first turn meets a fault of the database, the next ones find the dependency back.
abbrev turn : ℕ → Turn
turn n = record {
  attempted_at = 20;
  fault = if n == 0 then some EventError.database else none;
  failed_at = 20;
  checked_at = 20;
  stopping_after_failure = false;
  stopping_after_wait = false;
}

router_rejects_duplicates : event_processor_router [] (votes ∷ votes ∷ []) ≡ none
unfolding event_processor_router find_handler
router_rejects_duplicates = refl

dispatched : dispatch handlers 20 (version 3) 0 ≡ Dispatched.handled "vote" 1
unfolding dispatch typed_handler find_handler
dispatched = refl

no_failure : find_failure empty.failures 1 3 ≡ none
unfolding find_failure
no_failure = refl

event-Recovers_example :
    (process_event_with_retries options handlers (version 3) 0 false turn empty).result
    ≡ EventProcessingResult.processed
event-Recovers_example =
    event-Recovers options handlers (version 3) 0 0 turn 1 empty (omega arith)
      (
        record {
          error = EventError.database;
          faulty = refl;
          retried = λ e. cc;
          on = refl;
          still_on = refl;
        },
        record { sound = refl; type = "vote"; made = 1; accepts = dispatched },
      )
      refl refl no_failure

process_event-Outcome_example :
    let p = process_event_with_retries options handlers (version 3) 0 false turn empty in
    Outcome options handlers (version 3) p.result empty p.store
process_event-Outcome_example =
    process_event-Outcome options handlers (version 3) 0 false turn empty

abbrev script : ℕ → Script
script n = record { started_at = 0; stopping = false; turn = turn }

abbrev two_versions : List Event
two_versions = version 3 ∷ version 4 ∷ []

page_covered_example :
    let p =
      process_once_from_indexer_api options handlers (λ after limit. two_versions) script empty in
    Advanced none p.store.offset
    × (p.processed_rows ≤ p.fetched_rows)
    × (p.blocked ≡ false → AllCovered two_versions p.store.offset)
page_covered_example = page_covered options handlers (λ after limit. two_versions) script empty

retry_delay_bounds_example :
    (1000 ≤ retry_delay_ms options 4)
    × (retry_delay_ms options 4 ≤ retry_delay_ms options 9)
    × (retry_delay_ms options 9 ≤ 60000)
    × (4 ≤ 30
        → retry_delay_ms options 5 ≡ (if leb (1000 * 2 ^ 4) 60000 then 1000 * 2 ^ 4 else 60000))
retry_delay_bounds_example = retry_delay_bounds options 4 9 (omega arith) (omega arith)

-- An event in the state that blocks.
abbrev stuck : ProcessorEventFailure
stuck = record {
  archive_event_id = 1;
  change_sequence = 3;
  state = ProcessorEventFailureState.blocked;
  attempt_count = 5;
  retry_after = none;
  error_code = "EVENT_HANDLER_FAILED";
  event_snapshot = version 3;
  first_failed_at = 1;
  last_failed_at = 2;
  resolved_at = none;
}

-- Two pages; the second has the later version.
abbrev pages : ℕ → Page
pages cursor =
    if cursor == 0
    then record { items = []; next_cursor = some 4 }
    else record { items = version 7 ∷ []; next_cursor = none }

abbrev quoted : String → String
quoted text = text

cursors_bounded : (c above : ℕ) → (pages c).next_cursor ≡ some above → above ≤ 4
cursors_bounded c above e = ground arith

scan_decides_example :
    (answer : Bool) × (scan_pages quoted pages stuck 5 0 ≡ some answer)
    × ((answer ≡ true) ↔ Found quoted pages stuck 0)
scan_decides_example = scan_decides quoted pages stuck 4 5 0 cursors_bounded (omega arith)

scanned : scan_pages quoted pages stuck 5 0 ≡ some true
unfolding scan_pages has_successor is_immutable_successor
scanned = refl

abbrev handled_store : Store ℕ
handled_store = record {
  offset = some (offset_of (version 3));
  failures = [];
  runtime = none;
  output = 1;
}

committed :
    attempt handlers none 20 (version 3) none empty
    ≡ Attempted.finished EventProcessingResult.processed handled_store
unfolding attempt dispatch typed_handler find_handler close_failures update_failures
committed = refl

-- Another processor that has read the event before finds it handled.
abbrev once_more : Store ℕ
once_more = handled_store

skipped :
    attempt handlers none 21 (version 3) none handled_store
    ≡ Attempted.finished EventProcessingResult.skipped once_more
unfolding attempt supersede_failure
skipped = refl

abbrev run : Run options handlers empty once_more (3 ∷ [])
run =
    Run.then
      (Run.then Run.started
        (Step.attempted none 20 (version 3) none EventProcessingResult.processed committed))
      (Step.attempted none 21 (version 3) none EventProcessingResult.skipped skipped)

-- A round that finds two versions, on a store in which nothing is blocked.
abbrev round : Round ℕ
round = record {
  now = 30;
  fetch_page = λ cursor. record { items = two_versions; next_cursor = none };
  unavailable = none;
  script = script;
  stopping = false;
  after_processing = λ count. count;
}
