-- ===== src/Processor/History/Once.antt =====
-- Each version of an event is handled at most once, and in the order of the versions.
use decentralised_treasury.Prelude.{ℕ, ◌<◌, ◌≡◌, List, [], ◌∷◌, true, false, Option}
use decentralised_treasury.Processor.Types.{Store, ProcessorOffset}
use decentralised_treasury.Processor.Router.{Handler}
use decentralised_treasury.Processor.Attempt.{Options, covers}
use decentralised_treasury.Processor.Passing.Outcome.{Outcome}
use decentralised_treasury.Processor.Page.Order.{Advanced}

-- Every number of a list is new to one offset and covered by a later one.
abbrev pub Between : List ℕ → Option ProcessorOffset → Option ProcessorOffset → Type 0
Between [] before after = Unit {0}
Between (n ∷ ns) before after =
    (covers before n ≡ false) × (covers after n ≡ true) × Between ns before after

abbrev pub AllBelow : List ℕ → ℕ → Type 0
AllBelow [] n = Unit {0}
AllBelow (m ∷ ms) n = (m < n) × AllBelow ms n

-- Each number is below the one before it.
abbrev pub Falling : List ℕ → Type 0
Falling [] = Unit {0}
Falling (n ∷ ns) = AllBelow ns n × Falling ns

module _ {Output : Type 0} (options : Options) (handlers : List (Handler Output)) where
  -- What a transaction does to the offset.
  abbrev pub Moved : Store Output → Store Output → List ℕ → Type 0
  Moved s s' new = Advanced s.offset s'.offset × Between new s.offset s'.offset × Falling new
