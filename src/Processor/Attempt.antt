-- ===== src/Processor/Attempt.antt =====
-- packages/processor/src/events-processor.ts: the transactions that the processor commits. Each runs
-- under the advisory lock of its processor name.
use decentralised_treasury.Prelude.{
  ℕ, ◌+◌, ◌-◌, ◌*◌, ◌^◌, List, String, Bool, true, false, not, ◌&&◌, Option, none, some, leb, ◌==◌,
  if◌then◌else◌,
}
use decentralised_treasury.Processor.Types.{
  Event, ProcessorEventFailureState, ProcessorLifecycleState, ProcessorOffset,
  ProcessorEventFailure, EventError, Store, find_failure, save_failure, update_failures, is_at,
}
use decentralised_treasury.Processor.Router.{Handler, Dispatched, dispatch}

abbrev pub default_max_attempts : ℕ
default_max_attempts = 5

abbrev pub default_retry_base_delay_ms : ℕ
default_retry_base_delay_ms = 1000

abbrev pub default_retry_max_delay_ms : ℕ
default_retry_max_delay_ms = 60000

-- The options of a processor that its database work depends on.
pub record Options : Type 0 where
  pub batch_size : ℕ
  pub max_attempts : ℕ
  pub retry_base_delay_ms : ℕ
  pub retry_max_delay_ms : ℕ

pub data EventProcessingResult : Type 0 where
  processed skipped blocked : EventProcessingResult

abbrev pub event_failure_code : EventError → String
event_failure_code error = elim error [
  | EventError.not_handled ↦ "EVENT_NOT_HANDLED"
  | EventError.transient ↦ "EVENT_DEPENDENCY_UNAVAILABLE"
  | EventError.database ↦ "EVENT_DATABASE_FAILED"
  | EventError.other ↦ "EVENT_HANDLER_FAILED"
]

-- Whether an offset covers an event: `BigInt(lastSeenChangeSequence) >= BigInt(changeSequence)`.
abbrev pub covers : Option ProcessorOffset → ℕ → Bool
covers none sequence = false
covers (some o) sequence = leb sequence o.last_seen_change_sequence

abbrev pub offset_of : Event → ProcessorOffset
offset_of event = record {
  last_seen_updated_at = event.updated_at;
  last_seen_event_id = event.id;
  last_seen_change_sequence = event.change_sequence;
}

abbrev pub settle : ProcessorEventFailureState → ℕ → ProcessorEventFailure → ProcessorEventFailure
settle state now f = record f { state = state; retry_after = none; resolved_at = some now }

-- Another version of the event whose failure is still open.
abbrev pub is_other_version : Event → ProcessorEventFailure → Bool
is_other_version event f =
    f.archive_event_id == event.id
    && not (f.change_sequence == event.change_sequence)
    && elim f.state [
      | ProcessorEventFailureState.retrying ↦ true
      | ProcessorEventFailureState.quarantined ↦ true
      | _ ↦ false
    ]

-- `min(base * 2 ** min(30, max(0, attemptCount - 1)), max)`
abbrev pub retry_delay_ms : Options → ℕ → ℕ
retry_delay_ms options attempt_count =
    let doublings = if leb 30 (attempt_count - 1) then 30 else attempt_count - 1 in
    let delay = options.retry_base_delay_ms * 2 ^ doublings in
    if leb delay options.retry_max_delay_ms then delay else options.retry_max_delay_ms

-- A transaction commits with a result, or throws and is rolled back.
pub data Attempted (Output : Type 0) : Type 0 where
  finished : (result : EventProcessingResult) (store : Store Output) → Attempted Output
  thrown : (error : EventError) → Attempted Output

-- The failures after an event was handled. The first argument is the row that the caller read.
unfoldable pub close_failures :
    Option ProcessorEventFailure
    → Event
    → ℕ
    → List ProcessorEventFailure
    → List ProcessorEventFailure
unfolding save_failure update_failures
close_failures failure event now rows =
    let saved = elim failure as (λ _. List ProcessorEventFailure) [
      | none ↦ rows
      | some f ↦ save_failure rows (settle ProcessorEventFailureState.resolved now f)
    ] in
    update_failures (is_other_version event) (settle ProcessorEventFailureState.superseded now)
      saved

-- The failures when the offset already covers the event.
unfoldable pub supersede_failure :
    Option ProcessorEventFailure
    → Event
    → ℕ
    → List ProcessorEventFailure
    → List ProcessorEventFailure
unfolding update_failures
supersede_failure none event now rows = rows
supersede_failure (some f) event now rows = elim f.state [
  | ProcessorEventFailureState.quarantined ↦ rows
  | _ ↦
      update_failures (is_at event.id event.change_sequence)
        (settle ProcessorEventFailureState.superseded now) rows
]

-- What `updateRuntimeWithManager` may set besides the state.
pub record RuntimePatch : Type 0 where
  pub started_at : Option ℕ
  pub last_success_at : Option ℕ
  pub last_error : Option (ℕ × String)

abbrev pub or_else : {A : Type 0} → Option A → Option A → Option A
or_else (some a) other = some a
or_else none other = other

-- The row that `recordEventFailure` saves.
unfoldable pub failure_row :
    Options → Event → EventError → ℕ → ℕ → Option ProcessorEventFailure → ProcessorEventFailure
failure_row options event error attempt_count now existing =
    let quarantined = elim error as (λ _. Bool) [ EventError.not_handled ↦ true | _ ↦ false ] in
    record {
      archive_event_id = event.id;
      change_sequence = event.change_sequence;
      state =
          if quarantined
          then ProcessorEventFailureState.quarantined
          else ProcessorEventFailureState.retrying;
      attempt_count = attempt_count;
      retry_after = if quarantined then none else some (now + retry_delay_ms options attempt_count);
      error_code = event_failure_code error;
      event_snapshot = event;
      first_failed_at = elim existing [ none ↦ now | some f ↦ f.first_failed_at ];
      last_failed_at = now;
      resolved_at = none;
    }

module _ {Output : Type 0} where
  -- The transaction of `processEventWithRetries`. The database itself may fail in it.
  unfoldable pub attempt :
      List (Handler Output)
      → Option EventError
      → ℕ
      → Event
      → Option ProcessorEventFailure
      → Store Output
      → Attempted Output
  attempt handlers (some fault) now event failure store = thrown fault
  attempt handlers none now event failure store = elim (covers store.offset event.change_sequence) [
    | true ↦
        finished EventProcessingResult.skipped
          (record store { failures = supersede_failure failure event now store.failures })
    | false ↦ elim (dispatch handlers now event store.output) [
      | Dispatched.thrown error ↦ thrown error
      | Dispatched.unhandled output ↦ thrown EventError.not_handled
      | Dispatched.handled type output ↦ finished EventProcessingResult.processed (record store {
        offset = some (offset_of event);
        failures = close_failures failure event now store.failures;
        output = output;
      })
    ]
  ]

  -- `updateRuntimeWithManager`
  unfoldable pub update_runtime :
      ProcessorLifecycleState → RuntimePatch → ℕ → Store Output → Store Output
  update_runtime state patch now store =
      let at = elim patch.last_error as (λ _. Option ℕ) [ some (t, c) ↦ some t | none ↦ none ] in
      let code = elim patch.last_error as (λ _. Option String) [
        | some (t, c) ↦ some c
        | none ↦ none
      ] in
      record store {
        runtime = some (elim store.runtime [
          | none ↦ record {
            lifecycle_state = state;
            started_at = patch.started_at;
            heartbeat_at = now;
            last_success_at = patch.last_success_at;
            last_error_at = at;
            last_error_code = code;
          }
          | some r ↦ record {
            lifecycle_state = state;
            started_at = or_else patch.started_at r.started_at;
            heartbeat_at = now;
            last_success_at = or_else patch.last_success_at r.last_success_at;
            last_error_at = or_else at r.last_error_at;
            last_error_code = or_else code r.last_error_code;
          }
        ]);
      }

  -- `recordEventFailure`: a rejected event is passed over in the same transaction.
  unfoldable pub record_event_failure :
      Options → Event → EventError → ℕ → ℕ → Store Output → Store Output × ProcessorEventFailure
  record_event_failure options event error attempt_count now store =
      let offset = elim error as (λ _. Option ProcessorOffset) [
        | EventError.not_handled ↦
            if covers store.offset event.change_sequence
            then store.offset
            else some (offset_of event)
        | _ ↦ store.offset
      ] in
      let row =
        failure_row options event error attempt_count now
          (find_failure store.failures event.id event.change_sequence) in
      (
        update_runtime ProcessorLifecycleState.running
            (record {
              started_at = none;
              last_success_at = none;
              last_error = some (now, event_failure_code error);
            })
            now (record store { offset = offset; failures = save_failure store.failures row }),
        row,
      )
