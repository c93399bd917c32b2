-- ===== src/Processor/Passing.antt =====
-- packages/processor/src/events-processor.ts: the passes over the events, with their retries.

pub mod Outcome
pub mod Recovery
pub mod Backoff
use decentralised_treasury.Prelude.{
  ℕ, zero, suc, ◌+◌, ◌-◌, List, [], ◌∷◌, Bool, true, false, ◌||◌, Option, none, some, leb, ltb,
  if◌then◌else◌, length, ◌==◌,
}
use decentralised_treasury.Processor.Types.{
  Event, ProcessorEventFailureState, ProcessorEventFailure, EventError, Store, find_failure,
  ProcessorOffset,
}
use decentralised_treasury.Processor.Router.{Handler}
use decentralised_treasury.Processor.Attempt.{
  Options, EventProcessingResult, Attempted, attempt, record_event_failure,
}

-- What one turn of the retry loop finds: the clock at the transaction, at the failure and before the
-- wait, whether the database fails, and whether the processor is being stopped after the failure and
-- after the wait.
pub record Turn : Type 0 where
  pub attempted_at : ℕ
  pub fault : Option EventError
  pub failed_at : ℕ
  pub checked_at : ℕ
  pub stopping_after_failure : Bool
  pub stopping_after_wait : Bool

-- How an event was passed: the result, the rows, and the waits in milliseconds.
pub record Passed (Output : Type 0) : Type 0 where
  pub result : EventProcessingResult
  pub store : Store Output
  pub waits : List ℕ

-- `max(0, (retryAfter ?? now) - now)`
abbrev pub wait_ms : Option ℕ → ℕ → ℕ
wait_ms none now = 0
wait_ms (some retry_after) now = retry_after - now

module _ {Output : Type 0} (options : Options) (handlers : List (Handler Output))
    (event : Event) where
  abbrev pub after_wait : ℕ → Passed Output → Passed Output
  after_wait wait later = record later { waits = wait ∷ later.waits }

  -- After a failure with attempts left or without: give up, or wait and go on.
  abbrev pub wait_and_retry : Turn → ℕ → Passed Output → ℕ → Passed Output → Passed Output
  wait_and_retry t left stopped wait rest = elim t.stopping_after_failure [
    | true ↦ stopped
    | false ↦ elim left [
      | zero ↦ stopped
      | suc _ ↦ elim t.stopping_after_wait [
        | true ↦ after_wait wait stopped
        | false ↦ after_wait wait rest
      ]
    ]
  ]

  -- What the loop does after the row of a failure is saved.
  unfoldable pub after_failure :
      Turn → ℕ → Store Output → ProcessorEventFailure → Passed Output → Passed Output
  after_failure t left store row rest =
      let stopped : Passed Output = record {
        result = EventProcessingResult.blocked;
        store = store;
        waits = [];
      } in
      elim row.state [
        | ProcessorEventFailureState.quarantined ↦ record {
          result = EventProcessingResult.skipped;
          store = store;
          waits = [];
        }
        | ProcessorEventFailureState.blocked ↦ stopped
        | _ ↦ wait_and_retry t left stopped (wait_ms row.retry_after t.checked_at) rest
      ]

  -- What the loop does after its transaction; the last argument is the rest of the loop.
  unfoldable pub after_attempt :
      Turn
      → ℕ
      → ℕ
      → Store Output
      → (ProcessorEventFailure → Store Output → Passed Output)
      → Attempted Output
      → Passed Output
  after_attempt t left attempt_count store rest (Attempted.finished result store') = record {
    result = result;
    store = store';
    waits = [];
  }
  after_attempt t left attempt_count store rest (Attempted.thrown error) =
      let (store', row) =
        record_event_failure options event error attempt_count t.failed_at store in
      after_failure t left store' row (rest row store')

  -- The loop of `processEventWithRetries`, with the attempts that are left and those made.
  unfoldable pub retry_loop :
      (ℕ → Turn) → ℕ → ℕ → ℕ → Option ProcessorEventFailure → Store Output → Passed Output
  retry_loop turn zero attempts_this_pass attempt_count failure store = record {
    result = EventProcessingResult.blocked;
    store = store;
    waits = [];
  }
  retry_loop turn (suc left) attempts_this_pass attempt_count failure store =
      let t = turn attempts_this_pass in
      after_attempt t left (suc attempt_count) store
        (λ row store'.
          retry_loop turn left (suc attempts_this_pass) (suc attempt_count) (some row) store')
        (attempt handlers t.fault t.attempted_at event failure store)

  -- The start for an event whose failure row is in a state.
  unfoldable pub resume :
      ℕ
      → Bool
      → (ℕ → Turn)
      → Store Output
      → ProcessorEventFailure
      → ProcessorEventFailureState
      → Passed Output
  resume now stopping turn store f ProcessorEventFailureState.blocked = record {
    result = EventProcessingResult.blocked;
    store = store;
    waits = [];
  }
  resume now stopping turn store f ProcessorEventFailureState.retrying =
      let wait = wait_ms f.retry_after now in
      let rest : Passed Output =
        if stopping
        then record { result = EventProcessingResult.blocked; store = store; waits = [] }
        else retry_loop turn options.max_attempts 0 f.attempt_count (some f) store in
      if wait == 0 then rest else after_wait wait rest
  resume now stopping turn store f state =
      if stopping
      then record { result = EventProcessingResult.blocked; store = store; waits = [] }
      else retry_loop turn options.max_attempts 0 0 (some f) store

  -- The start for the failure row that is found.
  unfoldable pub start :
      ℕ → Bool → (ℕ → Turn) → Store Output → Option ProcessorEventFailure → Passed Output
  start now stopping turn store none =
      if stopping
      then record { result = EventProcessingResult.blocked; store = store; waits = [] }
      else retry_loop turn options.max_attempts 0 0 none store
  start now stopping turn store (some f) = resume now stopping turn store f f.state

  -- `processEventWithRetries`: `now` is the clock at the start, then whether the processor is being
  -- stopped after the wait for an earlier failure.
  unfoldable pub process_event_with_retries : ℕ → Bool → (ℕ → Turn) → Store Output → Passed Output
  process_event_with_retries now stopping turn store =
      start now stopping turn store (find_failure store.failures event.id event.change_sequence)
