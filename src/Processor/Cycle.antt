-- ===== src/Processor/Cycle.antt =====
-- packages/processor/src/events-processor.ts: one round of the processor.
use decentralised_treasury.Prelude.{
  ℕ, List, [], ◌∷◌, String, Bool, true, false, not, ◌&&◌, Option, none, some, if◌then◌else◌,
}
use decentralised_treasury.Processor.Types.{ProcessorEventFailure, ProcessorLifecycleState, Store}
use decentralised_treasury.Processor.Router.{Handler, get_handled_event_types}
use decentralised_treasury.Processor.Attempt.{Options, covers, RuntimePatch, update_runtime}
use decentralised_treasury.Processor.Page.{Script, process_once_from_indexer_api}
use decentralised_treasury.Processor.Blocked.{
  Page, find_blocked_failure, try_supersede_blocked_failure,
}

abbrev pub no_patch : RuntimePatch
no_patch = record { started_at = none; last_success_at = none; last_error = none }

-- What a round finds: the clock, the pages of the API or the code of its failure, the clocks of the
-- events, whether the processor is being stopped at the end, and what `afterProcessing` does.
pub record Round (Output : Type 0) : Type 0 where
  pub now : ℕ
  pub fetch_page : ℕ → Page
  pub unavailable : Option String
  pub script : ℕ → Script
  pub stopping : Bool
  pub after_processing : Output → Output

module _ {Output : Type 0} (options : Options) (json_string : String → String)
    (handlers : List (Handler Output)) where
  -- `recordInfrastructureFailure`
  abbrev pub record_infrastructure_failure : String → ℕ → Store Output → Store Output
  record_infrastructure_failure code now store =
      update_runtime ProcessorLifecycleState.degraded
        (record no_patch { last_error = some (now, code) }) now store

  -- The end of a round that was not blocked or stopped.
  abbrev pub finish : Round Output → Store Output → Store Output
  finish r store =
      update_runtime ProcessorLifecycleState.idle (record no_patch { last_success_at = some r.now })
        r.now (record store { output = r.after_processing store.output })

  -- The part of `runProcessOnce` that takes a page.
  unfoldable pub run_page : Round Output → Store Output → Store Output × ℕ
  run_page r store =
      let running = update_runtime ProcessorLifecycleState.running no_patch r.now store in
      elim r.unavailable [
        | some code ↦ (record_infrastructure_failure code r.now running, 0)
        | none ↦
            let fetch_items = λ (after limit : ℕ). (r.fetch_page after).items in
            let p = process_once_from_indexer_api options handlers fetch_items r.script running in
            (
              if not p.blocked && not r.stopping then finish r p.store else p.store,
              p.processed_rows,
            )
      ]

  -- After the attempt to supersede a blocked failure.
  unfoldable pub run_unless_blocked :
      Round Output → Store Output → Option ProcessorEventFailure → Store Output × ℕ
  run_unless_blocked r store none = run_page r store
  run_unless_blocked r store (some remaining) = (
    update_runtime ProcessorLifecycleState.blocked
        (record no_patch { last_error = some (remaining.last_failed_at, remaining.error_code) })
        r.now store,
    0,
  )

  -- The start of a round for the blocked failure that is found, on fuel for the scan.
  unfoldable pub run_with_blocked :
      ℕ → Round Output → Store Output → Option ProcessorEventFailure → Option (Store Output × ℕ)
  run_with_blocked fuel r store none = some (run_page r store)
  run_with_blocked fuel r store (some failure) = elim r.unavailable [
    | some code ↦ elim (covers store.offset failure.change_sequence) [
      | false ↦ some (record_infrastructure_failure code r.now store, 0)
      | true ↦
          elim (try_supersede_blocked_failure json_string r.fetch_page failure fuel r.now store) [
            | none ↦ none
            | some (store', done) ↦
                some (run_unless_blocked r store' (find_blocked_failure store'.failures))
          ]
    ]
    | none ↦
        elim (try_supersede_blocked_failure json_string r.fetch_page failure fuel r.now store) [
          | none ↦ none
          | some (store', done) ↦
              some (run_unless_blocked r store' (find_blocked_failure store'.failures))
        ]
  ]

  -- The start of a round for the event types of the handlers.
  unfoldable pub run_for_types :
      ℕ → Round Output → Store Output → List String → Option (Store Output × ℕ)
  run_for_types fuel r store [] = some (
    update_runtime ProcessorLifecycleState.idle (record no_patch { last_success_at = some r.now })
        r.now store,
    0,
  )
  run_for_types fuel r store (type ∷ types) =
      run_with_blocked fuel r store (find_blocked_failure store.failures)

  -- `runProcessOnce`, with the number of events that it has processed.
  unfoldable pub run_process_once : ℕ → Round Output → Store Output → Option (Store Output × ℕ)
  run_process_once fuel r store = run_for_types fuel r store (get_handled_event_types handlers)
