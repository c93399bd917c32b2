-- ===== src/Processor/Router.antt =====
-- packages/processor/src/router.ts: the handlers by event type, and the dispatch of an event.
use decentralised_treasury.Prelude.{
  ℕ, List, [], ◌∷◌, ◌++◌, map, String, Bool, true, false, not, ◌&&◌, Option, none, some,
}
use decentralised_treasury.Processor.Types.{text_eq, Event, EventError}

-- What `tryHandle` does in a transaction: it returns true or false, or throws.
pub data Trial (Output : Type 0) : Type 0 where
  accepted : (output : Output) → Trial Output
  declined : (output : Output) → Trial Output
  thrown : (error : EventError) → Trial Output

-- An `EventProcessorHandler`. What `tryHandle` does may depend on the time.
pub record Handler (Output : Type 0) : Type 0 where
  pub event_type : String
  pub try_handle : ℕ → Event → Output → Trial Output

pub data Dispatched (Output : Type 0) : Type 0 where
  handled : (resolved_event_type : String) → (output : Output) → Dispatched Output
  unhandled : (output : Output) → Dispatched Output
  thrown : (error : EventError) → Dispatched Output

module _ {Output : Type 0} where
  -- `handlersByType.has` and `handlersByType.get`
  unfoldable pub find_handler : List (Handler Output) → String → Option (Handler Output)
  find_handler [] type = none
  find_handler (h ∷ hs) type = elim (text_eq h.event_type type) [
    | true ↦ some h
    | false ↦ find_handler hs type
  ]

  -- The constructor: the handlers in the order of the map, or the duplicate that it rejects.
  unfoldable pub event_processor_router :
      List (Handler Output) → List (Handler Output) → Option (List (Handler Output))
  event_processor_router added [] = some added
  event_processor_router added (h ∷ hs) = elim (find_handler added h.event_type) [
    | some duplicate ↦ none
    | none ↦ event_processor_router (added ++ (h ∷ [])) hs
  ]

  abbrev pub get_handled_event_types : List (Handler Output) → List String
  get_handled_event_types = map (λ h. h.event_type)

  -- `handler.eventType === event.eventType`
  abbrev pub has_type : Handler Output → Event → Bool
  has_type h event = elim event.event_type [ none ↦ false | some type ↦ text_eq h.event_type type ]

  -- The loop of `dispatch` over the handlers of other types.
  unfoldable pub dispatch_others : List (Handler Output) → ℕ → Event → Output → Dispatched Output
  dispatch_others [] now event output = Dispatched.unhandled output
  dispatch_others (h ∷ hs) now event output = elim (has_type h event) [
    | true ↦ dispatch_others hs now event output
    | false ↦ elim (h.try_handle now event output) [
      | Trial.accepted output' ↦ Dispatched.handled h.event_type output'
      | Trial.declined output' ↦ dispatch_others hs now event output'
      | Trial.thrown error ↦ Dispatched.thrown error
    ]
  ]

  -- The handler that is asked first.
  unfoldable pub typed_handler : List (Handler Output) → Event → Option (Handler Output)
  typed_handler handlers event = elim event.event_type [
    | none ↦ none
    | some type ↦ elim (not (text_eq type "") && not (text_eq type "unknown")) [
      | true ↦ find_handler handlers type
      | false ↦ none
    ]
  ]

  unfoldable pub dispatch : List (Handler Output) → ℕ → Event → Output → Dispatched Output
  dispatch handlers now event output = elim (typed_handler handlers event) [
    | none ↦ dispatch_others handlers now event output
    | some h ↦ elim (h.try_handle now event output) [
      | Trial.accepted output' ↦ Dispatched.handled h.event_type output'
      | Trial.declined output' ↦ dispatch_others handlers now event output'
      | Trial.thrown error ↦ Dispatched.thrown error
    ]
  ]
