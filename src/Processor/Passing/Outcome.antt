-- ===== src/Processor/Passing/Outcome.antt =====
-- What each result of an event's pass says of the rows before and after it.
use decentralised_treasury.Prelude.{
  ℕ, zero, suc, ◌≡◌, refl, ◌∙◌, ◌⊎◌, inl, inr, List, [], String, Bool, true, false, Option, none,
  some, Bool-cases, arith, ◌==◌, if◌then◌else◌,
}
use decentralised_treasury.Processor.Types.{
  Event, ProcessorEventFailureState, ProcessorEventFailure, EventError, Store, find_failure,
}
use decentralised_treasury.Processor.Router.{Handler, Dispatched, dispatch}
use decentralised_treasury.Processor.Attempt.{
  Options, EventProcessingResult, Attempted, attempt, covers, offset_of, record_event_failure,
  failure_row, close_failures, update_runtime,
}
use decentralised_treasury.Processor.Passing.{
  Turn, Passed, wait_ms, after_wait, wait_and_retry, after_failure, after_attempt, retry_loop,
  resume, start, process_event_with_retries,
}

module _ {Output : Type 0} (options : Options) (handlers : List (Handler Output))
    (event : Event) where
  -- Processed: the offset did not cover the event, the handlers accepted it on the tables as they
  -- were, the tables are what they made, and the offset is the event's. Skipped: the tables are as they were,
  -- and the offset either covered the event and is as it was, or did not and is the event's. Blocked:
  -- tables and offset are as they were.
  abbrev pub Covered : Store Output → Store Output → Type 0
  Covered s s' =
      ((covers s.offset event.change_sequence ≡ true) × (s'.offset ≡ s.offset))
      ⊎ ((covers s.offset event.change_sequence ≡ false) × (s'.offset ≡ some (offset_of event)))

  abbrev pub Outcome : EventProcessingResult → Store Output → Store Output → Type 0
  Outcome EventProcessingResult.processed s s' =
      (covers s.offset event.change_sequence ≡ false)
      × ((now : ℕ) × (type : String) × (dispatch handlers now event s.output
            ≡ Dispatched.handled type s'.output))
      × (s'.offset ≡ some (offset_of event))
  Outcome EventProcessingResult.skipped s s' = (s'.output ≡ s.output) × Covered s s'
  Outcome EventProcessingResult.blocked s s' = (s'.output ≡ s.output) × (s'.offset ≡ s.offset)

  abbrev pub Committed : Store Output → Attempted Output → Type 0
  Committed s (Attempted.finished r s') = Outcome r s s'
  Committed s (Attempted.thrown error) = Unit {0}

  -- A transaction that commits has processed or skipped the event.
  pub attempt-Committed :
      (fault : Option EventError) (now : ℕ) (failure : Option ProcessorEventFailure)
      (s : Store Output)
      → Committed s (attempt handlers fault now event failure s)
  unfolding attempt
  attempt-Committed (some fault) now failure s = tt
  attempt-Committed none now failure s = elim (Bool-cases (covers s.offset event.change_sequence)) [
    | inl e ↦ rw (e, Committed) (refl, inl (e, refl))
    | inr e ↦ rw (e, Committed) (dispatched e (dispatch handlers now event s.output) refl)
  ]
    where
      dispatched :
          covers s.offset event.change_sequence ≡ false
          → (d : Dispatched Output) → dispatch handlers now event s.output ≡ d
          → Committed s (elim d [
            | Dispatched.thrown error ↦ Attempted.thrown error
            | Dispatched.unhandled output ↦ Attempted.thrown EventError.not_handled
            | Dispatched.handled type output ↦
                Attempted.finished EventProcessingResult.processed (record s {
                  offset = some (offset_of event);
                  failures = close_failures failure event now s.failures;
                  output = output;
                })
          ])
      dispatched uncovered (Dispatched.handled type output) e = (uncovered, (now, type, e), refl)
      dispatched uncovered (Dispatched.unhandled output) e = tt
      dispatched uncovered (Dispatched.thrown error) e = tt

  -- An outcome reads the offset and the tables alone.
  Outcome-from :
      (r : EventProcessingResult) (s t s' : Store Output)
      → t.output ≡ s.output
      → t.offset ≡ s.offset
      → Outcome r t s'
      → Outcome r s s'
  Outcome-from EventProcessingResult.processed s t s' same_output same_offset o = ground arith
  Outcome-from EventProcessingResult.skipped s t s' same_output same_offset (o, c) =
      (o ∙ same_output, ground (arith, c))
  Outcome-from EventProcessingResult.blocked s t s' same_output same_offset (o, c) =
      (o ∙ same_output, c ∙ same_offset)

  -- A rejected event is covered afterwards; after any other error the offset is as it was.
  pub record_failure_lem :
      (error : EventError) (count now : ℕ) (s : Store Output)
      → let (s', row) = record_event_failure options event error count now s in
        (s'.output ≡ s.output)
        × (((row.state ≡ ProcessorEventFailureState.quarantined) × Covered s s')
            ⊎ ((row.state ≡ ProcessorEventFailureState.retrying) × (s'.offset ≡ s.offset)))
  unfolding record_event_failure update_runtime failure_row
  record_failure_lem EventError.not_handled count now s =
      elim (Bool-cases (covers s.offset event.change_sequence)) [
        | inl e ↦ rw e (refl, inl (refl, inl (refl, refl)))
        | inr e ↦ rw e (refl, inl (refl, inr (refl, refl)))
      ]
  record_failure_lem EventError.transient count now s = (refl, inr (refl, refl))
  record_failure_lem EventError.database count now s = (refl, inr (refl, refl))
  record_failure_lem EventError.other count now s = (refl, inr (refl, refl))

  wait_and_retry-Outcome :
      (t : Turn) (left wait : ℕ) (s : Store Output) (stopped rest : Passed Output)
      → Outcome stopped.result s stopped.store
      → Outcome rest.result s rest.store
      → let p = wait_and_retry options handlers event t left stopped wait rest in
        Outcome p.result s p.store
  wait_and_retry-Outcome t zero wait s stopped rest o o' =
      elim (Bool-cases t.stopping_after_failure) [ inl e ↦ rw e o | inr e ↦ rw e o ]
  wait_and_retry-Outcome t (suc n) wait s stopped rest o o' =
      elim (Bool-cases t.stopping_after_failure) [
        | inl e ↦ rw e o
        | inr e ↦ elim (Bool-cases t.stopping_after_wait) [
          | inl e' ↦ rw (e, e') o
          | inr e' ↦ rw (e, e') o'
        ]
      ]

  after_failure-Outcome :
      (t : Turn) (left : ℕ) (s s' : Store Output) (row : ProcessorEventFailure)
      (rest : Passed Output)
      → Outcome rest.result s' rest.store
      → (s'.output ≡ s.output)
        × (((row.state ≡ ProcessorEventFailureState.quarantined) × Covered s s')
            ⊎ ((row.state ≡ ProcessorEventFailureState.retrying) × (s'.offset ≡ s.offset)))
      → let p = after_failure options handlers event t left s' row rest in
        Outcome p.result s p.store
  unfolding after_failure
  after_failure-Outcome t left s s' row rest o (same, inl (q, covered)) = rw q (same, covered)
  after_failure-Outcome t left s s' row rest o (same, inr (q, kept)) =
      let stopped : Passed Output = record {
        result = EventProcessingResult.blocked;
        store = s';
        waits = [];
      } in
      rw q (
        wait_and_retry-Outcome t left (wait_ms row.retry_after t.checked_at) s stopped rest
          (same, kept) (Outcome-from rest.result s s' rest.store same kept o))

  after_attempt-Outcome :
      (t : Turn) (left count : ℕ) (s : Store Output)
      (rest : ProcessorEventFailure → Store Output → Passed Output)
      → ((row : ProcessorEventFailure) (s' : Store Output)
          → Outcome (rest row s').result s' (rest row s').store)
      → (a : Attempted Output) → Committed s a
      → let p = after_attempt options handlers event t left count s rest a in
        Outcome p.result s p.store
  unfolding after_attempt
  after_attempt-Outcome t left count s rest later (Attempted.finished r s') c = c
  after_attempt-Outcome t left count s rest later (Attempted.thrown error) c =
      let (s', row) = record_event_failure options event error count t.failed_at s in
      after_failure-Outcome t left s s' row (rest row s') (later row s')
        (record_failure_lem error count t.failed_at s)

  -- The loop's result, whatever the turns are.
  retry_loop-Outcome :
      (turn : ℕ → Turn) (left attempts count : ℕ) (failure : Option ProcessorEventFailure)
      (s : Store Output)
      → let p = retry_loop options handlers event turn left attempts count failure s in
        Outcome p.result s p.store
  unfolding retry_loop
  retry_loop-Outcome turn zero attempts count failure s = (refl, refl)
  retry_loop-Outcome turn (suc left) attempts count failure s =
      let t = turn attempts in
      after_attempt-Outcome t left (suc count) s
        (λ row s'.
          retry_loop options handlers event turn left (suc attempts) (suc count) (some row) s')
        (λ row s'. retry_loop-Outcome turn left (suc attempts) (suc count) (some row) s')
        (attempt handlers t.fault t.attempted_at event failure s)
        (attempt-Committed t.fault t.attempted_at failure s)

  if-Outcome :
      (b : Bool) (s : Store Output) (p q : Passed Output)
      → Outcome p.result s p.store
      → Outcome q.result s q.store
      → let r = if b then p else q in Outcome r.result s r.store
  if-Outcome true s p q o o' = o
  if-Outcome false s p q o o' = o'

  started-Outcome :
      (stopping : Bool) (turn : ℕ → Turn) (s : Store Output) (count : ℕ)
      (failure : Option ProcessorEventFailure)
      → let blocked : Passed Output = record {
        result = EventProcessingResult.blocked;
        store = s;
        waits = [];
      } in
        let p =
          if stopping
          then blocked
          else retry_loop options handlers event turn options.max_attempts 0 count failure s in
        Outcome p.result s p.store
  started-Outcome true turn s count failure = (refl, refl)
  started-Outcome false turn s count failure =
      retry_loop-Outcome turn options.max_attempts 0 count failure s

  resume-Outcome :
      (now : ℕ) (stopping : Bool) (turn : ℕ → Turn) (s : Store Output) (f : ProcessorEventFailure)
      (state : ProcessorEventFailureState)
      → let p = resume options handlers event now stopping turn s f state in
        Outcome p.result s p.store
  unfolding resume
  resume-Outcome now stopping turn s f ProcessorEventFailureState.blocked = (refl, refl)
  resume-Outcome now stopping turn s f ProcessorEventFailureState.retrying =
      let rest : Passed Output =
        if stopping
        then record { result = EventProcessingResult.blocked; store = s; waits = [] }
        else retry_loop options handlers event turn options.max_attempts 0 f.attempt_count (some f)
            s in
      let started = started-Outcome stopping turn s f.attempt_count (some f) in
      let wait = wait_ms f.retry_after now in
      if-Outcome (wait == 0) s rest (after_wait options handlers event wait rest) started started
  resume-Outcome now stopping turn s f ProcessorEventFailureState.quarantined =
      started-Outcome stopping turn s 0 (some f)
  resume-Outcome now stopping turn s f ProcessorEventFailureState.resolved =
      started-Outcome stopping turn s 0 (some f)
  resume-Outcome now stopping turn s f ProcessorEventFailureState.superseded =
      started-Outcome stopping turn s 0 (some f)

  start-Outcome :
      (now : ℕ) (stopping : Bool) (turn : ℕ → Turn) (s : Store Output)
      (found : Option ProcessorEventFailure)
      → let p = start options handlers event now stopping turn s found in Outcome p.result s p.store
  unfolding start
  start-Outcome now stopping turn s none = started-Outcome stopping turn s 0 none
  start-Outcome now stopping turn s (some f) = resume-Outcome now stopping turn s f f.state

  -- Whatever the options, the handlers, the clock, the failures of the database and the stops of the
  -- processor: when the result for an event is `processed`, the offset did not cover the event, the
  -- handlers accepted it at some time on their tables as they were before the first attempt, the
  -- tables are what this one acceptance made, and the offset is the event's. When it is `skipped`, the
  -- tables are as they were, and the offset either covered the event and is as it was, or did not and
  -- is the event's. When it is `blocked`, the tables and the offset are as they were.
  pub process_event-Outcome :
      (now : ℕ) (stopping : Bool) (turn : ℕ → Turn) (s : Store Output)
      → let p = process_event_with_retries options handlers event now stopping turn s in
        Outcome p.result s p.store
  unfolding process_event_with_retries
  process_event-Outcome now stopping turn s =
      start-Outcome now stopping turn s (find_failure s.failures event.id event.change_sequence)
