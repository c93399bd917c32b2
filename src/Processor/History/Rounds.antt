-- ===== src/Processor/History/Rounds.antt =====
-- A round of a processor is a history of transactions, and then the work after it.
use decentralised_treasury.Prelude.{ℕ, ◌≡◌, ◌⊎◌, List, String, Option, some}
use decentralised_treasury.Processor.Types.{Store}
use decentralised_treasury.Processor.Router.{Handler}
use decentralised_treasury.Processor.Attempt.{Options}
use decentralised_treasury.Processor.Cycle.{Round}
use decentralised_treasury.Processor.History.Pages.{Runs}

module _ {Output : Type 0} (options : Options) (json_string : String → String)
    (handlers : List (Handler Output)) (r : Round Output) where
  -- The transactions lead to a store that handles the counted events; the round leaves its offset and
  -- its failures, and at most the work after processing changes the tables of the handlers.
  pub record Done (s : Store Output) (after : Store Output) (count : ℕ) : Type 0 where
    pub mid : Store Output
    pub runs : Runs options handlers s mid count
    pub same_offset : after.offset ≡ mid.offset
    pub same_failures : after.failures ≡ mid.failures
    pub tables : (after.output ≡ mid.output) ⊎ (after.output ≡ r.after_processing mid.output)

  abbrev Reaches : Store Output → Store Output × ℕ → Type 0
  Reaches s (after, count) = Done s after count

  -- The round ends, and has done what a history does.
  abbrev Finishes : Store Output → Option (Store Output × ℕ) → Type 0
  Finishes s result =
      (after : Store Output) × (count : ℕ) × (result ≡ some (after, count)) × Done s after count
