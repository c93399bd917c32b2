-- ===== src/Processor/Passing/Recovery.antt =====
-- Retries: how many waits an event's pass makes, and when it gets through.
use decentralised_treasury.Prelude.{
  ℕ, zero, suc, ◌<◌, ◌≡◌, ◌≢◌, refl, ◌∙◌, List, String, false, Option, none, some, arith,
}
use decentralised_treasury.Processor.Types.{
  Event, ProcessorEventFailure, EventError, Store, find_failure,
}
use decentralised_treasury.Processor.Router.{Handler, Dispatched, dispatch}
use decentralised_treasury.Processor.Attempt.{
  Options, EventProcessingResult, Attempted, attempt, covers, offset_of, close_failures,
  record_event_failure, failure_row, update_runtime,
}
use decentralised_treasury.Processor.Passing.{
  Turn, Passed, after_failure, after_attempt, retry_loop, start, process_event_with_retries,
}

-- A turn in which the database fails, for a reason that is retried, and nobody stops the processor.
pub record PassingFault (t : Turn) : Type 0 where
  pub error : EventError
  pub faulty : t.fault ≡ some error
  pub retried : error ≢ EventError.not_handled
  pub on : t.stopping_after_failure ≡ false
  pub still_on : t.stopping_after_wait ≡ false

module _ {Output : Type 0} (options : Options) (handlers : List (Handler Output)) (event : Event)
    (output : Output) where
  -- A turn in which the database works and the handlers accept the event.
  pub record Accepting (t : Turn) : Type 0 where
    pub sound : t.fault ≡ none
    pub type : String
    pub made : Output
    pub accepts : dispatch handlers t.attempted_at event output ≡ Dispatched.handled type made

  -- From a turn on, some faults that pass, and then an accepting turn.
  abbrev pub Recovers : (ℕ → Turn) → ℕ → ℕ → Type 0
  Recovers turn i zero = Accepting (turn i)
  Recovers turn i (suc faults) = PassingFault (turn i) × Recovers turn (suc i) faults

  attempt-Accepting :
      (t : Turn) (failure : Option ProcessorEventFailure) (s : Store Output)
      → Accepting t
      → s.output ≡ output
      → covers s.offset event.change_sequence ≡ false
      → (s' : Store Output) × (attempt handlers t.fault t.attempted_at event failure s
          ≡ Attempted.finished EventProcessingResult.processed s')
  unfolding attempt
  attempt-Accepting t failure s a same fresh = (
    record s {
      offset = some (offset_of event);
      failures = close_failures failure event t.attempted_at s.failures;
      output = a.made;
    },
    rw (a.sound, attempt, fresh, same, a.accepts) refl,
  )

  after_fault :
      (t : Turn) (left count : ℕ) (s : Store Output)
      (rest : ProcessorEventFailure → Store Output → Passed Output) (error : EventError)
      → error ≢ EventError.not_handled
      → t.stopping_after_failure ≡ false
      → t.stopping_after_wait ≡ false
      → let (s', row) = record_event_failure options event error count t.failed_at s in
        ((after_attempt options handlers event t
            (suc left)
            count
            s
            rest
            (Attempted.thrown error)).result
          ≡ (rest row s').result)
        × (s'.output ≡ s.output)
        × (s'.offset ≡ s.offset)
  unfolding after_attempt after_failure record_event_failure failure_row update_runtime
  after_fault t left count s rest EventError.not_handled other on still_on = absurd (other refl)
  after_fault t left count s rest EventError.transient other on still_on =
      (rw (on, still_on) refl, refl, refl)
  after_fault t left count s rest EventError.database other on still_on =
      (rw (on, still_on) refl, refl, refl)
  after_fault t left count s rest EventError.other other on still_on =
      (rw (on, still_on) refl, refl, refl)

  loop-Recovers :
      (turn : ℕ → Turn) (left i faults count : ℕ) (failure : Option ProcessorEventFailure)
      (s : Store Output)
      → faults < left
      → Recovers turn i faults
      → s.output ≡ output
      → covers s.offset event.change_sequence ≡ false
      → (retry_loop options handlers event turn left i count failure s).result
        ≡ EventProcessingResult.processed
  unfolding retry_loop attempt after_attempt
  loop-Recovers turn zero i faults count failure s few r same fresh = absurd (omega (arith, few))
  loop-Recovers turn (suc left) i zero count failure s few r same fresh =
      let (s', e) = attempt-Accepting (turn i) failure s r same fresh in rw (e, after_attempt) refl
  loop-Recovers turn (suc zero) i (suc faults) count failure s few r same fresh =
      absurd (omega (arith, few))
  loop-Recovers turn (suc (suc left)) i (suc faults) count failure s few (f, r) same fresh =
      let t = turn i in
      let rest = λ (row : ProcessorEventFailure) (s' : Store Output).
        retry_loop options handlers event turn (suc left) (suc i) (suc count) (some row) s' in
      let (s', row) = record_event_failure options event f.error (suc count) t.failed_at s in
      let (on, same', kept) =
        after_fault t left (suc count) s rest f.error f.retried f.on f.still_on in
      let thrown : attempt handlers t.fault t.attempted_at event failure s
          ≡ Attempted.thrown f.error =
        rw (f.faulty, attempt) refl in
      rw thrown on
      ∙ loop-Recovers turn (suc left) (suc i) faults (suc count) (some row) s' (omega (arith, few))
          r (same' ∙ same) (rw kept fresh)

  -- When the offset does not cover the event, no failure of it is on record, the processor is not being
  -- stopped, and the first turns are faults that pass (each retried, and without a stop), fewer than the
  -- attempts allowed, and then the handlers accept the event on the tables as they are, the event is
  -- processed.
  pub event-Recovers :
      (now : ℕ) (turn : ℕ → Turn) (faults : ℕ) (s : Store Output)
      → faults < options.max_attempts
      → Recovers turn 0 faults
      → s.output ≡ output
      → covers s.offset event.change_sequence ≡ false
      → find_failure s.failures event.id event.change_sequence ≡ none
      → (process_event_with_retries options handlers event now false turn s).result
        ≡ EventProcessingResult.processed
  unfolding process_event_with_retries start
  event-Recovers now turn faults s few r same fresh unknown =
      rw (unknown, start)
        (loop-Recovers turn options.max_attempts 0 faults 0 none s few r same fresh)
