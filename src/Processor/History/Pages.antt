-- ===== src/Processor/History/Pages.antt =====
-- The passes of the events of a page are a history of transactions.
use decentralised_treasury.Prelude.{
  ℕ, zero, suc, ◌≡◌, refl, sym, ap, List, [], ◌∷◌, ◌++◌, Bool, true, false, Option, none, some,
  if◌then◌else◌, ◌==◌, length, length-append, arith, ◌⊎◌, inl, inr, Bool-cases,
}
use mathlib.Core.Path.{subst}
use decentralised_treasury.Processor.Types.{
  Event, Store, ProcessorEventFailure, ProcessorEventFailureState, find_failure,
}
use decentralised_treasury.Processor.Router.{Handler}
use decentralised_treasury.Processor.Attempt.{
  Options, EventProcessingResult, Attempted, attempt, record_event_failure,
}
use decentralised_treasury.Processor.Passing.{
  Turn, Passed, wait_ms, after_wait, wait_and_retry, after_failure, after_attempt, retry_loop,
  resume, start, process_event_with_retries,
}
use decentralised_treasury.Processor.Passing.Outcome.{record_failure_lem}
use decentralised_treasury.Processor.Page.{
  Script, PagePassed, count_row, process_items, process_once_from_indexer_api,
  change_sequence_after,
}
use decentralised_treasury.Processor.History.{Step, Run, handled_by}

append_assoc : (xs ys zs : List ℕ) → (xs ++ ys) ++ zs ≡ xs ++ (ys ++ zs)
append_assoc [] ys zs = refl
append_assoc (x ∷ xs) ys zs = ap (λ l. x ∷ l) (append_assoc xs ys zs)

module _ {Output : Type 0} (options : Options) (handlers : List (Handler Output)) where
  -- One history after another.
  pub run-append :
      {s t u : Store Output} {log new : List ℕ}
      → Run options handlers s t log
      → Run options handlers t u new
      → Run options handlers s u (new ++ log)
  run-append first Run.started = first
  run-append {s} {u} {log} first (Run.then {log = middle} {new} later last) =
      subst (Run options handlers s u) (sym (append_assoc new middle log))
        (Run.then (run-append first later) last)

  module _ (event : Event) where
    -- The pass of the event is a history that handles it if the result says so.
    abbrev Follows : Store Output → Passed Output → Type 0
    Follows s p = Run options handlers s p.store (handled_by p.result event)

    only :
        (r : EventProcessingResult) (s s' : Store Output)
        → Step options handlers s s' (handled_by r event)
        → Run options handlers s s' (handled_by r event)
    only EventProcessingResult.processed s s' step = Run.then Run.started step
    only EventProcessingResult.skipped s s' step = Run.then Run.started step
    only EventProcessingResult.blocked s s' step = Run.then Run.started step

    after_step :
        (r : EventProcessingResult) (s s' s'' : Store Output)
        → Run options handlers s s' []
        → Run options handlers s' s'' (handled_by r event)
        → Run options handlers s s'' (handled_by r event)
    after_step EventProcessingResult.processed s s' s'' step rest = run-append step rest
    after_step EventProcessingResult.skipped s s' s'' step rest = run-append step rest
    after_step EventProcessingResult.blocked s s' s'' step rest = run-append step rest

    wait_and_retry-Follows :
        (t : Turn) (left wait : ℕ) (s : Store Output) (stopped rest : Passed Output)
        → Follows s stopped
        → Follows s rest
        → Follows s (wait_and_retry options handlers event t left stopped wait rest)
    wait_and_retry-Follows t zero wait s stopped rest h h' =
        elim (Bool-cases t.stopping_after_failure) [ inl e ↦ rw e h | inr e ↦ rw e h ]
    wait_and_retry-Follows t (suc n) wait s stopped rest h h' =
        elim (Bool-cases t.stopping_after_failure) [
          | inl e ↦ rw e h
          | inr e ↦ elim (Bool-cases t.stopping_after_wait) [
            | inl e' ↦ rw (e, e') h
            | inr e' ↦ rw (e, e') h'
          ]
        ]

    after_failure-Follows :
        (t : Turn) (left : ℕ) (s s' : Store Output) (row : ProcessorEventFailure)
        (rest : Passed Output)
        → (row.state ≡ ProcessorEventFailureState.quarantined)
          ⊎ (row.state ≡ ProcessorEventFailureState.retrying)
        → Run options handlers s s' []
        → Follows s' rest
        → Follows s (after_failure options handlers event t left s' row rest)
    unfolding after_failure
    after_failure-Follows t left s s' row rest (inl q) saved later = rw q saved
    after_failure-Follows t left s s' row rest (inr q) saved later =
        let stopped : Passed Output = record {
          result = EventProcessingResult.blocked;
          store = s';
          waits = [];
        } in
        rw q (
          wait_and_retry-Follows t left (wait_ms row.retry_after t.checked_at) s stopped rest saved
            (after_step rest.result s s' rest.store saved later))

    after_attempt-Follows :
        (t : Turn) (left count : ℕ) (failure : Option ProcessorEventFailure) (s : Store Output)
        (rest : ProcessorEventFailure → Store Output → Passed Output)
        → ((row : ProcessorEventFailure) (s' : Store Output) → Follows s' (rest row s'))
        → (a : Attempted Output) → attempt handlers t.fault t.attempted_at event failure s ≡ a
        → Follows s (after_attempt options handlers event t left count s rest a)
    unfolding after_attempt
    after_attempt-Follows t left count failure s rest later (Attempted.finished r s') e =
        only r s s' (Step.attempted t.fault t.attempted_at event failure r e)
    after_attempt-Follows t left count failure s rest later (Attempted.thrown error) e =
        let (s', row) = record_event_failure options event error count t.failed_at s in
        let (_, states) = record_failure_lem options handlers event error count t.failed_at s in
        after_failure-Follows t left s s' row (rest row s')
          (elim states [ inl q ↦ inl q.0 | inr q ↦ inr q.0 ])
          (Run.then Run.started (Step.failed event error count t.failed_at)) (later row s')

    retry_loop-Follows :
        (turn : ℕ → Turn) (left attempts count : ℕ) (failure : Option ProcessorEventFailure)
        (s : Store Output)
        → Follows s (retry_loop options handlers event turn left attempts count failure s)
    unfolding retry_loop
    retry_loop-Follows turn zero attempts count failure s = Run.started
    retry_loop-Follows turn (suc left) attempts count failure s =
        let t = turn attempts in
        after_attempt-Follows t left (suc count) failure s
          (λ row s'.
            retry_loop options handlers event turn left (suc attempts) (suc count) (some row) s')
          (λ row s'. retry_loop-Follows turn left (suc attempts) (suc count) (some row) s')
          (attempt handlers t.fault t.attempted_at event failure s) refl

    started-Follows :
        (stopping : Bool) (turn : ℕ → Turn) (s : Store Output) (count : ℕ)
        (failure : Option ProcessorEventFailure)
        → let blocked : Passed Output = record {
          result = EventProcessingResult.blocked;
          store = s;
          waits = [];
        } in
          Follows s (
            if stopping
            then blocked
            else retry_loop options handlers event turn options.max_attempts 0 count failure s)
    started-Follows true turn s count failure = Run.started
    started-Follows false turn s count failure =
        retry_loop-Follows turn options.max_attempts 0 count failure s

    if-Follows :
        (b : Bool) (s : Store Output) (p q : Passed Output)
        → Follows s p
        → Follows s q
        → Follows s (if b then p else q)
    if-Follows true s p q h h' = h
    if-Follows false s p q h h' = h'

    resume-Follows :
        (now : ℕ) (stopping : Bool) (turn : ℕ → Turn) (s : Store Output) (f : ProcessorEventFailure)
        (state : ProcessorEventFailureState)
        → Follows s (resume options handlers event now stopping turn s f state)
    unfolding resume
    resume-Follows now stopping turn s f ProcessorEventFailureState.blocked = Run.started
    resume-Follows now stopping turn s f ProcessorEventFailureState.retrying =
        let rest : Passed Output =
          if stopping
          then record { result = EventProcessingResult.blocked; store = s; waits = [] }
          else retry_loop options handlers event turn options.max_attempts 0 f.attempt_count
              (some f) s in
        let started = started-Follows stopping turn s f.attempt_count (some f) in
        let wait = wait_ms f.retry_after now in
        if-Follows (wait == 0) s rest (after_wait options handlers event wait rest) started started
    resume-Follows now stopping turn s f ProcessorEventFailureState.quarantined =
        started-Follows stopping turn s 0 (some f)
    resume-Follows now stopping turn s f ProcessorEventFailureState.resolved =
        started-Follows stopping turn s 0 (some f)
    resume-Follows now stopping turn s f ProcessorEventFailureState.superseded =
        started-Follows stopping turn s 0 (some f)

    start-Follows :
        (now : ℕ) (stopping : Bool) (turn : ℕ → Turn) (s : Store Output)
        (found : Option ProcessorEventFailure)
        → Follows s (start options handlers event now stopping turn s found)
    unfolding start
    start-Follows now stopping turn s none = started-Follows stopping turn s 0 none
    start-Follows now stopping turn s (some f) = resume-Follows now stopping turn s f f.state

    event-Follows :
        (now : ℕ) (stopping : Bool) (turn : ℕ → Turn) (s : Store Output)
        → Follows s (process_event_with_retries options handlers event now stopping turn s)
    unfolding process_event_with_retries
    event-Follows now stopping turn s =
        start-Follows now stopping turn s (find_failure s.failures event.id event.change_sequence)

  -- A history that ends in a store and has handled a number of events.
  abbrev pub Runs : Store Output → Store Output → ℕ → Type 0
  Runs s s' count = (log : List ℕ) × Run options handlers s s' log × (length log ≡ count)

  counted :
      (event : Event) (r : EventProcessingResult) (s s' : Store Output) (rest : PagePassed Output)
      → Run options handlers s s' (handled_by r event)
      → Runs s' rest.store rest.processed_rows
      → let p = count_row options handlers r s' rest in Runs s p.store p.processed_rows
  unfolding count_row
  counted event EventProcessingResult.processed s s' rest first (log, later, e) = (
    log ++ (event.change_sequence ∷ []),
    run-append first later,
    omega (arith, e, length-append log (event.change_sequence ∷ [])),
  )
  counted event EventProcessingResult.skipped s s' rest first (log, later, e) =
      (log ++ [], run-append first later, omega (arith, e, length-append log []))
  counted event EventProcessingResult.blocked s s' rest first later = ([], first, refl)

  items-Runs :
      (script : ℕ → Script) (i : ℕ) (events : List Event) (s : Store Output)
      → let p = process_items options handlers script i events s in Runs s p.store p.processed_rows
  unfolding process_items
  items-Runs script i [] s = ([], Run.started, refl)
  items-Runs script i (event ∷ events) s =
      let t = script i in
      let one =
        process_event_with_retries options handlers event t.started_at t.stopping t.turn s in
      counted event one.result s one.store
        (process_items options handlers script (suc i) events one.store)
        (event-Follows event t.started_at t.stopping t.turn s)
        (items-Runs script (suc i) events one.store)

  -- A page is passed in a history of transactions, which handles as many events as are counted.
  pub page-Runs :
      (fetch_items : ℕ → ℕ → List Event) (script : ℕ → Script) (s : Store Output)
      → let p = process_once_from_indexer_api options handlers fetch_items script s in
        Runs s p.store p.processed_rows
  unfolding process_once_from_indexer_api
  page-Runs fetch_items script s =
      items-Runs script 0 (fetch_items (change_sequence_after s.offset) options.batch_size) s
