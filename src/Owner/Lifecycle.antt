-- ===== src/Owner/Lifecycle.antt =====
-- `LifecyclePeriod`, `getLifecyclePeriodSlotRange` and `requireLifecyclePeriod`.
pub mod Windows
use decentralised_treasury.Prelude.{ℕ, ◌-◌, ◌^◌, Bool, true, false, ◌&&◌, leb, if◌then◌else◌}
use decentralised_treasury.Circuit.{UInt, Result, ok, ◌>>=◌, require, checked, outside_period}

-- `LIFECYCLE_PERIOD_DURATION`, in slots
abbrev pub lifecycle_period_duration : ℕ
lifecycle_period_duration = 7140

pub data LifecyclePeriod : Type 0 where
  proposal exploration voting cooldown : LifecyclePeriod

abbrev pub number_of_periods : ℕ
number_of_periods = 4

abbrev pub period_number : LifecyclePeriod → ℕ
period_number LifecyclePeriod.proposal = 0
period_number LifecyclePeriod.exploration = 1
period_number LifecyclePeriod.voting = 2
period_number LifecyclePeriod.cooldown = 3

-- `UInt32.MAXINT()`
abbrev pub max_slot : ℕ
max_slot = 2 ^ 32 - 1

-- The first and the last slot.
pub record SlotRange : Type 0 where
  pub from_slot : ℕ
  pub to_slot : ℕ

module _ (u : UInt 32) (duration : ℕ) where
  pub get_lifecycle_period_slot_range : ℕ → LifecyclePeriod → ℕ → Bool → Result SlotRange
  get_lifecycle_period_slot_range deployed_at period lifecycle_id no_upper_bound = do
    periods ← checked (u.mul number_of_periods lifecycle_id)
    lifecycle_offset ← checked (u.mul duration periods)
    lifecycle_start ← checked (u.add deployed_at lifecycle_offset)
    period_offset ← checked (u.mul duration (period_number period))
    from_slot ← checked (u.add lifecycle_start period_offset)
    next_slot ← checked (u.add from_slot duration)
    last_slot ← checked (u.sub next_slot 1)
    ok (record { from_slot = from_slot; to_slot = if no_upper_bound then max_slot else last_slot })

  -- The precondition on the slot at which the transaction is included.
  unfoldable pub require_lifecycle_period : ℕ → LifecyclePeriod → ℕ → Bool → ℕ → Result (Unit {0})
  unfolding get_lifecycle_period_slot_range
  require_lifecycle_period deployed_at period lifecycle_id no_upper_bound slot = do
    range ← get_lifecycle_period_slot_range deployed_at period lifecycle_id no_upper_bound
    require (leb range.from_slot slot && leb slot range.to_slot) outside_period
