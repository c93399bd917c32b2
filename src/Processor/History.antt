-- ===== src/Processor/History.antt =====
-- The transactions of any number of processors with one name, in any order.
pub mod Once
pub mod Pages
pub mod Rounds
use decentralised_treasury.Prelude.{ℕ, ◌≡◌, List, [], ◌∷◌, ◌++◌, Option}
use decentralised_treasury.Processor.Types.{
  Event, ProcessorEventFailure, ProcessorLifecycleState, EventError, Store,
}
use decentralised_treasury.Processor.Router.{Handler}
use decentralised_treasury.Processor.Attempt.{
  Options, EventProcessingResult, Attempted, attempt, record_event_failure, RuntimePatch,
  update_runtime,
}
use decentralised_treasury.Processor.Blocked.{mark_failure_superseded, reopen_blocked_event}

-- The change sequences that a transaction has handled.
abbrev pub handled_by : EventProcessingResult → Event → List ℕ
handled_by EventProcessingResult.processed event = event.change_sequence ∷ []
handled_by EventProcessingResult.skipped event = []
handled_by EventProcessingResult.blocked event = []

module _ {Output : Type 0} (options : Options) (handlers : List (Handler Output)) where
  -- One committed transaction, with what it has handled. The row that a processor has read of an event
  -- may be out of date, and so may the failure it supersedes.
  pub data Step : Store Output → Store Output → List ℕ → Type 0 where
    attempted :
        (fault : Option EventError) (now : ℕ) (event : Event)
        (failure : Option ProcessorEventFailure) (result : EventProcessingResult)
        {s s' : Store Output}
        → attempt handlers fault now event failure s ≡ Attempted.finished result s'
        → Step s s' (handled_by result event)
    failed :
        (event : Event) (error : EventError) (attempt_count now : ℕ) {s : Store Output}
        → Step s ((record_event_failure options event error attempt_count now s).0) []
    superseded :
        (failure : ProcessorEventFailure) (now : ℕ) {s : Store Output}
        → Step s ((mark_failure_superseded failure now s).0) []
    reopened : {s : Store Output} → Step s (reopen_blocked_event s) []
    reported :
        (state : ProcessorLifecycleState) (patch : RuntimePatch) (now : ℕ) {s : Store Output}
        → Step s (update_runtime state patch now s) []

  -- A history, with what was handled in it, the latest first.
  pub data Run : Store Output → Store Output → List ℕ → Type 0 where
    started : {s : Store Output} → Run s s []
    then :
        {s t u : Store Output} {log new : List ℕ}
        → Run s t log
        → Step t u new
        → Run s u (new ++ log)
