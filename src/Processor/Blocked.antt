-- ===== src/Processor/Blocked.antt =====
-- packages/processor/src/events-processor.ts: a blocked event, which is retried on demand or superseded
-- by a later version of the same event.
pub mod Scan
use decentralised_treasury.Prelude.{
  ℕ, zero, suc, ◌+◌, List, [], ◌∷◌, String, Bool, true, false, ◌&&◌, Option, none, some, ltb, leb,
  ◌==◌,
}
use Prim.Native.String.{◌++◌}
use decentralised_treasury.Processor.Types.{
  text_eq, ContractData, Event, ProcessorEventFailureState, ProcessorEventFailure, ProcessorOffset,
  Store, find_failure, save_failure,
}
use decentralised_treasury.Processor.Attempt.{settle, covers}
use decentralised_treasury.Processor.Page.{change_sequence_after}

-- `JSON.stringify` of a text is the runtime's.
module _ (json_string : String → String) where
  -- The inner part of the text of a list: `map` and `join(",")`.
  unfoldable pub join_entries : List String → String
  join_entries [] = ""
  join_entries (value ∷ []) = json_string value
  join_entries (value ∷ values) = json_string value ++ ("," ++ join_entries values)

  -- `stableJson` of a contract's data; it has no text for `undefined`.
  abbrev pub stable_json : ContractData → Option String
  stable_json ContractData.undefined = none
  stable_json ContractData.null = some "null"
  stable_json (ContractData.entries values) = some ("[" ++ (join_entries values ++ "]"))

  abbrev pub optional_text_eq : Option String → Option String → Bool
  optional_text_eq none none = true
  optional_text_eq (some a) (some b) = text_eq a b
  optional_text_eq _ _ = false

  unfoldable pub is_immutable_successor : ProcessorEventFailure → Event → Bool
  is_immutable_successor failure event =
      let snapshot = failure.event_snapshot in
      event.id == failure.archive_event_id
      && (ltb failure.change_sequence event.change_sequence
          && (snapshot.id == event.id
              && (optional_text_eq snapshot.event_type event.event_type
                  && (text_eq snapshot.tx_hash event.tx_hash
                      && (snapshot.account_update_index == event.account_update_index
                          && (snapshot.event_index == event.event_index
                              && optional_text_eq (stable_json snapshot.contract_data)
                                  (stable_json event.contract_data)))))))

  -- `page.items.some(...)`
  unfoldable pub has_successor : ProcessorEventFailure → List Event → Bool
  has_successor failure [] = false
  has_successor failure (event ∷ events) = elim (is_immutable_successor failure event) [
    | true ↦ true
    | false ↦ has_successor failure events
  ]

-- `IndexerEventsPage`
pub record Page : Type 0 where
  pub items : List Event
  pub next_cursor : Option ℕ

-- The row that is blocked since the earliest time.
unfoldable pub find_blocked_failure : List ProcessorEventFailure → Option ProcessorEventFailure
find_blocked_failure [] = none
find_blocked_failure (f ∷ fs) =
    let rest = find_blocked_failure fs in
    elim f.state [
      | ProcessorEventFailureState.blocked ↦ elim rest [
        | none ↦ some f
        | some g ↦ elim (leb f.last_failed_at g.last_failed_at) [ true ↦ some f | false ↦ some g ]
      ]
      | _ ↦ rest
    ]

module _ {Output : Type 0} where
  -- The row as it is now is superseded if it is still blocked.
  unfoldable pub mark_current :
      ℕ → Store Output → Option ProcessorEventFailure → Store Output × Bool
  mark_current now store none = (store, false)
  mark_current now store (some current) = elim current.state [
    | ProcessorEventFailureState.blocked ↦ (
      record store {
        failures =
            save_failure store.failures (settle ProcessorEventFailureState.superseded now current);
      },
      true,
    )
    | _ ↦ (store, false)
  ]

  -- `markFailureSuperseded`
  unfoldable pub mark_failure_superseded :
      ProcessorEventFailure → ℕ → Store Output → Store Output × Bool
  mark_failure_superseded failure now store =
      mark_current now store
        (find_failure store.failures failure.archive_event_id failure.change_sequence)

  -- The part of `retryBlockedEventInitialized` that changes the rows.
  unfoldable pub reopen_blocked_event : Store Output → Store Output
  reopen_blocked_event store = elim (find_blocked_failure store.failures) [
    | none ↦ store
    | some f ↦ record store {
      failures = save_failure store.failures (record f {
        state = ProcessorEventFailureState.retrying;
        attempt_count = 0;
        retry_after = none;
        resolved_at = none;
      });
    }
  ]

module _ (json_string : String → String) (fetch_page : ℕ → Page)
    (failure : ProcessorEventFailure) where
  -- The scan of `trySupersedeBlockedFailure`, on fuel: whether a page from the cursor on has a
  -- successor.
  unfoldable pub scan_pages : ℕ → ℕ → Option Bool
  scan_pages zero cursor = none
  scan_pages (suc fuel) cursor =
      let page = fetch_page cursor in
      elim (has_successor json_string failure page.items) [
        | true ↦ some true
        | false ↦ elim page.next_cursor [
          | none ↦ some false
          | some next ↦ elim (leb next cursor) [ true ↦ some false | false ↦ scan_pages fuel next ]
        ]
      ]

  -- `trySupersedeBlockedFailure`, on fuel for its scan.
  unfoldable pub try_supersede_blocked_failure :
      {Output : Type 0} → ℕ → ℕ → Store Output → Option (Store Output × Bool)
  try_supersede_blocked_failure fuel now store =
      elim (covers store.offset failure.change_sequence) [
        | true ↦ some (mark_failure_superseded failure now store)
        | false ↦ elim (scan_pages fuel (change_sequence_after store.offset)) [
          | none ↦ none
          | some true ↦ some (mark_failure_superseded failure now store)
          | some false ↦ some (store, false)
        ]
      ]
