-- ===== src/Indexer/Rows.antt =====
-- packages/indexer/src/events-repository.ts: the rows of the events and the cursors, from observations
-- that are normalized already.
pub mod Kept
use decentralised_treasury.Prelude.{
  ℕ, zero, suc, ◌+◌, ◌-◌, List, [], ◌∷◌, ◌++◌, map, String, Bool, true, false, not, ◌&&◌, ◌||◌,
  Option, none, some, leb, ltb, ◌==◌, if◌then◌else◌, length,
}
use decentralised_treasury.Processor.Types.{text_eq}

pub data EventStatus : Type 0 where
  pending canonical orphaned : EventStatus

-- What an observation says of the block of an event; these columns change together.
pub record Block : Type 0 where
  pub block_height : ℕ
  pub block_timestamp : Option ℕ
  pub global_slot_since_genesis : Option ℕ
  pub state_hash : Option String
  pub parent_hash : Option String
  pub chain_status : Option String
  pub block_event_index : ℕ

pub record Identity : Type 0 where
  pub tx_hash : String
  pub account_update_index : ℕ
  pub event_index : ℕ

pub record Row : Type 0 where
  pub identity : Identity
  pub event_type : String
  pub contract_data : List String
  pub status : EventStatus
  pub pending_seen_at_height : Option ℕ
  pub block : Block

-- `eventIdentity` of both is the same text.
abbrev pub same_identity : Identity → Identity → Bool
same_identity a b =
    text_eq a.tx_hash b.tx_hash
    && (a.account_update_index == b.account_update_index && a.event_index == b.event_index)

abbrev pub texts_eq : List String → List String → Bool
texts_eq [] [] = true
texts_eq (a ∷ left) (b ∷ right) = text_eq a b && texts_eq left right
texts_eq _ _ = false

abbrev pub is_pending : EventStatus → Bool
is_pending EventStatus.pending = true
is_pending EventStatus.canonical = false
is_pending EventStatus.orphaned = false

abbrev pub is_canonical : EventStatus → Bool
is_canonical EventStatus.pending = false
is_canonical EventStatus.canonical = true
is_canonical EventStatus.orphaned = false

abbrev pub same_contents : Row → Row → Bool
same_contents a b = text_eq a.event_type b.event_type && texts_eq a.contract_data b.contract_data

abbrev pub immutable_event_matches : Row → Row → Bool
immutable_event_matches existing incoming =
    same_identity existing.identity incoming.identity && same_contents existing incoming

unfoldable pub find_row : List Row → Identity → Option Row
find_row [] id = none
find_row (r ∷ rs) id = elim (same_identity r.identity id) [ true ↦ some r | false ↦ find_row rs id ]

-- The first loop of `prepareBatch`: the first row of each identity, and the number of the rows that
-- contradict it.
unfoldable pub unique_rows : List Row → List Row → List Row × ℕ
unique_rows seen [] = (seen, 0)
unique_rows seen (row ∷ rows) = elim (find_row seen row.identity) [
  | none ↦ unique_rows (seen ++ (row ∷ [])) rows
  | some prior ↦
      let (kept, conflicts) = unique_rows seen rows in
      (kept, if immutable_event_matches prior row then conflicts else suc conflicts)
]

-- The last loop: the candidates that do not contradict a stored row, and the number of the others.
unfoldable pub consistent_rows : List Row → List Row → List Row × ℕ
consistent_rows stored [] = ([], 0)
consistent_rows stored (row ∷ rows) =
    let (accepted, rejected) = consistent_rows stored rows in
    elim (find_row stored row.identity) [
      | none ↦ (row ∷ accepted, rejected)
      | some existing ↦
          if immutable_event_matches existing row
          then (row ∷ accepted, rejected)
          else (accepted, suc rejected)
    ]

-- `advancesCanonical`
unfoldable pub advances_canonical : List Row → List Row → Bool
advances_canonical stored [] = false
advances_canonical stored (row ∷ rows) =
    let was_canonical = elim (find_row stored row.identity) as (λ _. Bool) [
      | none ↦ false
      | some existing ↦ is_canonical existing.status
    ] in
    (is_canonical row.status && not was_canonical) || advances_canonical stored rows

-- `prepareBatch`: the accepted rows, the number of the rejected ones, and whether one of the accepted
-- is newly canonical.
unfoldable pub prepare_batch : List Row → List Row → List Row × ℕ × Bool
prepare_batch stored batch =
    let (candidates, conflicts) = unique_rows [] batch in
    let (accepted, rejected) = consistent_rows stored candidates in
    (accepted, conflicts + rejected, advances_canonical stored accepted)

-- The columns of the `ON CONFLICT` clause.
abbrev pub merged_status : EventStatus → EventStatus → EventStatus
merged_status EventStatus.canonical incoming = EventStatus.canonical
merged_status _ EventStatus.canonical = EventStatus.canonical
merged_status _ incoming = incoming

abbrev pub coalesce : {A : Type 0} → Option A → Option A → Option A
coalesce (some a) other = some a
coalesce none other = other

abbrev pub merged_pending_height : Row → Row → Option ℕ
merged_pending_height existing incoming =
    if is_canonical existing.status && not (is_canonical incoming.status)
    then existing.pending_seen_at_height
    else elim incoming.status [
      | EventStatus.pending ↦ elim existing.status [
        | EventStatus.orphaned ↦ incoming.pending_seen_at_height
        | _ ↦ coalesce existing.pending_seen_at_height incoming.pending_seen_at_height
      ]
      | _ ↦ existing.pending_seen_at_height
    ]

-- The row after a conflict: other contents change nothing.
unfoldable pub merge_row : Row → Row → Row
merge_row existing incoming = elim (same_contents existing incoming) [
  | false ↦ existing
  | true ↦ record existing {
    status = merged_status existing.status incoming.status;
    pending_seen_at_height = merged_pending_height existing incoming;
    block =
        if is_canonical existing.status && not (is_canonical incoming.status)
        then existing.block
        else incoming.block;
  }
]

unfoldable pub upsert_row : List Row → Row → List Row
upsert_row [] incoming = incoming ∷ []
upsert_row (r ∷ rs) incoming = elim (same_identity r.identity incoming.identity) [
  | true ↦ merge_row r incoming ∷ rs
  | false ↦ r ∷ upsert_row rs incoming
]

-- `upsertAccepted`
unfoldable pub upsert_accepted : List Row → List Row → List Row
upsert_accepted stored [] = stored
upsert_accepted stored (row ∷ rows) = upsert_accepted (upsert_row stored row) rows

-- An update that orphans the pending rows of a kind.
unfoldable pub orphan_pending : (Row → Bool) → List Row → List Row
orphan_pending test [] = []
orphan_pending test (r ∷ rs) =
    (if is_pending r.status && test r then record r { status = EventStatus.orphaned } else r)
    ∷ orphan_pending test rs

abbrev pub is_absent : List Row → Row → Bool
is_absent observed r = elim (find_row observed r.identity) [ none ↦ true | some same ↦ false ]

-- `retireAbsentPendingEvents`
unfoldable pub retire_absent_pending_events : ℕ → ℕ → List Row → List Row → List Row
retire_absent_pending_events from to observed stored =
    orphan_pending
      (λ r. leb from r.block.block_height && (leb r.block.block_height to && is_absent observed r))
      stored

-- `markPendingAsOrphaned`
unfoldable pub mark_pending_as_orphaned : ℕ → ℕ → List Row → List Row
mark_pending_as_orphaned canonical_cursor orphan_depth_blocks stored =
    if ltb canonical_cursor orphan_depth_blocks
    then stored
    else orphan_pending
        (λ r. elim r.pending_seen_at_height [
          | none ↦ false
          | some height ↦ leb height (canonical_cursor - orphan_depth_blocks)
        ])
        stored
