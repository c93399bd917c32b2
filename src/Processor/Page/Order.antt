-- ===== src/Processor/Page/Order.antt =====
-- No event of a page is lost, and the offset does not go back.
use decentralised_treasury.Prelude.{
  ℕ, suc, ◌≤◌, ◌≡◌, refl, ◌⊎◌, inl, inr, List, [], ◌∷◌, true, false, Option, none, some, arith,
  length,
}
use decentralised_treasury.Processor.Types.{Event, Store, ProcessorOffset}
use decentralised_treasury.Processor.Router.{Handler}
use decentralised_treasury.Processor.Attempt.{Options, EventProcessingResult, covers, offset_of}
use decentralised_treasury.Processor.Passing.{process_event_with_retries}
use decentralised_treasury.Processor.Passing.Outcome.{Outcome, process_event-Outcome}
use decentralised_treasury.Processor.Page.{
  Script, PagePassed, count_row, process_items, process_once_from_indexer_api,
  change_sequence_after,
}

-- What one offset covers, the other covers as well.
abbrev pub Advanced : Option ProcessorOffset → Option ProcessorOffset → Type 0
Advanced before after = (n : ℕ) → covers before n ≡ true → covers after n ≡ true

pub Advanced-offset :
    (before : Option ProcessorOffset) (event : Event)
    → covers before event.change_sequence ≡ false
    → Advanced before (some (offset_of event))
Advanced-offset none event h n c = cc
Advanced-offset (some o) event h n c = ground arith

abbrev pub AllCovered : List Event → Option ProcessorOffset → Type 0
AllCovered [] offset = Unit {0}
AllCovered (event ∷ events) offset =
    (covers offset event.change_sequence ≡ true) × AllCovered events offset

module _ {Output : Type 0} (options : Options) (handlers : List (Handler Output)) where
  -- An event's pass does not take the offset back, and covers the event unless it is blocked.
  pub Outcome-Advanced :
      (event : Event) (r : EventProcessingResult) (s s' : Store Output)
      → Outcome options handlers event r s s'
      → Advanced s.offset s'.offset
        × ((r ≡ EventProcessingResult.blocked) ⊎ (covers s'.offset event.change_sequence ≡ true))
  Outcome-Advanced event EventProcessingResult.processed s s' (fresh, _, e) =
      rw e (Advanced-offset s.offset event fresh, inr (ground arith))
  Outcome-Advanced event EventProcessingResult.skipped s s' (_, inl (covered, e)) =
      rw e ((λ n c. c), inr covered)
  Outcome-Advanced event EventProcessingResult.skipped s s' (_, inr (fresh, e)) =
      rw e (Advanced-offset s.offset event fresh, inr (ground arith))
  Outcome-Advanced event EventProcessingResult.blocked s s' (_, e) = rw e ((λ n c. c), inl refl)

  counted :
      (event : Event) (events : List Event) (s : Store Output) (r : EventProcessingResult)
      (s' : Store Output) (rest : PagePassed Output)
      → Advanced s.offset s'.offset
      → (r ≡ EventProcessingResult.blocked) ⊎ (covers s'.offset event.change_sequence ≡ true)
      → Advanced s'.offset rest.store.offset
        × (rest.processed_rows ≤ length events)
        × (rest.blocked ≡ false → AllCovered events rest.store.offset)
      → let p = count_row options handlers r s' rest in
        Advanced s.offset p.store.offset
        × (p.processed_rows ≤ length (event ∷ events))
        × (p.blocked ≡ false → AllCovered (event ∷ events) p.store.offset)
  unfolding count_row
  counted event events s EventProcessingResult.processed s' rest on (inr c) (on', few, all) =
      ((λ n k. on' n (on n k)), omega (arith, few), (λ h. (on' event.change_sequence c, all h)))
  counted event events s EventProcessingResult.skipped s' rest on (inr c) (on', few, all) =
      ((λ n k. on' n (on n k)), omega (arith, few), (λ h. (on' event.change_sequence c, all h)))
  counted event events s EventProcessingResult.processed s' rest on (inl e) later = cc
  counted event events s EventProcessingResult.skipped s' rest on (inl e) later = cc
  counted event events s EventProcessingResult.blocked s' rest on done later =
      (on, omega arith, (λ h. cc))

  -- However the page's events pass, the offset covers what it covered before; no more rows are
  -- processed than the page has; and unless an event is blocked, the offset covers every event of the
  -- page.
  items_covered :
      (script : ℕ → Script) (i : ℕ) (events : List Event) (s : Store Output)
      → let p = process_items options handlers script i events s in
        Advanced s.offset p.store.offset
        × (p.processed_rows ≤ length events)
        × (p.blocked ≡ false → AllCovered events p.store.offset)
  unfolding process_items
  items_covered script i [] s = ((λ n c. c), omega arith, (λ h. tt))
  items_covered script i (event ∷ events) s =
      let t = script i in
      let one =
        process_event_with_retries options handlers event t.started_at t.stopping t.turn s in
      let (on, done) =
        Outcome-Advanced event one.result s one.store
          (process_event-Outcome options handlers event t.started_at t.stopping t.turn s) in
      counted event events s one.result one.store
        (process_items options handlers script (suc i) events one.store) on done
        (items_covered script (suc i) events one.store)

  -- However the API answers and the page's events pass, the offset covers what it covered before; no
  -- more rows are processed than fetched; and unless an event is blocked, the offset covers every
  -- event that was fetched.
  pub page_covered :
      (fetch_items : ℕ → ℕ → List Event) (script : ℕ → Script) (s : Store Output)
      → let p = process_once_from_indexer_api options handlers fetch_items script s in
        Advanced s.offset p.store.offset
        × (p.processed_rows ≤ p.fetched_rows)
        × (p.blocked ≡ false
            → AllCovered
                (fetch_items (change_sequence_after s.offset) options.batch_size)
                p.store.offset)
  unfolding process_once_from_indexer_api
  page_covered fetch_items script s =
      items_covered script 0 (fetch_items (change_sequence_after s.offset) options.batch_size) s
