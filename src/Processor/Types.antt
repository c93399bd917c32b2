-- ===== src/Processor/Types.antt =====
-- packages/processor/src/entities.ts and event-handler.ts: the rows of the processor's database for
-- one processor name, and the errors of a handler. A bigint column is its number, and a date its time
-- in milliseconds. The texts of error messages are left out.
use decentralised_treasury.Prelude.{
  ℕ, List, [], ◌∷◌, String, Bool, true, false, ◌&&◌, Option, none, some, ◌==◌,
}
use Prim.Native.String.{compare}
use text.Mathlib.Text.{is_eq}

-- `===` on strings.
abbrev pub text_eq : String → String → Bool
text_eq s t = is_eq (compare s t)

-- `rawEventData.data`
pub data ContractData : Type 0 where
  undefined null : ContractData
  entries : (values : List String) → ContractData

-- The fields of a `SequencedArchiveEvent` that the processor reads.
pub record Event : Type 0 where
  pub id : ℕ
  pub change_sequence : ℕ
  pub status : String
  pub event_type : Option String
  pub tx_hash : String
  pub account_update_index : ℕ
  pub event_index : ℕ
  pub contract_data : ContractData
  pub updated_at : ℕ

pub data ProcessorEventFailureState : Type 0 where
  retrying blocked quarantined resolved superseded : ProcessorEventFailureState

pub data ProcessorLifecycleState : Type 0 where
  starting running idle degraded blocked stopping stopped : ProcessorLifecycleState

pub record ProcessorOffset : Type 0 where
  pub last_seen_updated_at : ℕ
  pub last_seen_event_id : ℕ
  pub last_seen_change_sequence : ℕ

pub record ProcessorEventFailure : Type 0 where
  pub archive_event_id : ℕ
  pub change_sequence : ℕ
  pub state : ProcessorEventFailureState
  pub attempt_count : ℕ
  pub retry_after : Option ℕ
  pub error_code : String
  pub event_snapshot : Event
  pub first_failed_at : ℕ
  pub last_failed_at : ℕ
  pub resolved_at : Option ℕ

pub record ProcessorRuntimeStatus : Type 0 where
  pub lifecycle_state : ProcessorLifecycleState
  pub started_at : Option ℕ
  pub heartbeat_at : ℕ
  pub last_success_at : Option ℕ
  pub last_error_at : Option ℕ
  pub last_error_code : Option String

-- What the transaction of an event may throw: `EventHandlingError`, `TransientEventError`, an error
-- of the database, or any other.
pub data EventError : Type 0 where
  not_handled transient database other : EventError

-- The rows of one processor, and the tables its handlers write.
pub record Store (Output : Type 0) : Type 0 where
  pub offset : Option ProcessorOffset
  pub failures : List ProcessorEventFailure
  pub runtime : Option ProcessorRuntimeStatus
  pub output : Output

-- Whether a row has the given primary key.
abbrev pub is_at : ℕ → ℕ → ProcessorEventFailure → Bool
is_at id sequence f = f.archive_event_id == id && f.change_sequence == sequence

-- `findOneBy` with the primary key.
unfoldable pub find_failure : List ProcessorEventFailure → ℕ → ℕ → Option ProcessorEventFailure
find_failure [] id sequence = none
find_failure (f ∷ fs) id sequence = elim (is_at id sequence f) [
  | true ↦ some f
  | false ↦ find_failure fs id sequence
]

-- `save`: the row with the same key is replaced, or the row is added.
unfoldable pub save_failure :
    List ProcessorEventFailure → ProcessorEventFailure → List ProcessorEventFailure
save_failure [] row = row ∷ []
save_failure (f ∷ fs) row = elim (is_at row.archive_event_id row.change_sequence f) [
  | true ↦ row ∷ fs
  | false ↦ f ∷ save_failure fs row
]

-- An `update` with a condition on the rows.
unfoldable pub update_failures :
    (ProcessorEventFailure → Bool)
    → (ProcessorEventFailure → ProcessorEventFailure)
    → List ProcessorEventFailure
    → List ProcessorEventFailure
update_failures test change [] = []
update_failures test change (f ∷ fs) = elim (test f) [
  | true ↦ change f ∷ update_failures test change fs
  | false ↦ f ∷ update_failures test change fs
]
