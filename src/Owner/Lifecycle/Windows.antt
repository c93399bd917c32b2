-- ===== src/Owner/Lifecycle/Windows.antt =====
-- About `requireLifecyclePeriod`: the slots of a period, counted in whole periods.
use native.Mathlib.Nat.{div-eq_of_lt-le, le-div_iff_mul-le, div-lt_iff_lt-mul, mul-le-mul_right}
use decentralised_treasury.Prelude.{
  ℕ, ◌+◌, ◌-◌, ◌*◌, ◌/◌, ◌^◌, ◌≤◌, ◌<◌, ◌≡◌, ◌↔◌, Bool, true, false, if◌then◌else◌, arith, ap, ◌∙◌,
  sym,
}
use decentralised_treasury.Circuit.{UInt, ok, add_ok, mul_ok, sub_ok}
use decentralised_treasury.Owner.Lifecycle.{
  LifecyclePeriod, number_of_periods, period_number, max_slot, get_lifecycle_period_slot_range,
  require_lifecycle_period,
}

-- Periods counted from the deployment.
abbrev pub period_count : ℕ → LifecyclePeriod → ℕ
period_count lifecycle_id period = number_of_periods * lifecycle_id + period_number period

period_number-lt : (p : LifecyclePeriod) → period_number p < number_of_periods
period_number-lt LifecyclePeriod.proposal = omega arith
period_number-lt LifecyclePeriod.exploration = omega arith
period_number-lt LifecyclePeriod.voting = omega arith
period_number-lt LifecyclePeriod.cooldown = omega arith

module _ (u : UInt 32) (duration deployed lifecycle_id : ℕ) (period : LifecyclePeriod)
    (pos : 0 < duration)
    (fits : deployed + duration * (period_count lifecycle_id period + 1) < 2 ^ 32) where
  period_start :
      (n : ℕ)
      → duration * period_count n period
        ≡ duration * (number_of_periods * n) + duration * period_number period
  period_start n = omega arith

  range_lem :
      (open_end : Bool)
      → get_lifecycle_period_slot_range u duration deployed period lifecycle_id open_end
        ≡ ok (record {
          from_slot = deployed + duration * (period_count lifecycle_id period);
          to_slot =
              if open_end
              then max_slot
              else deployed + duration * (period_count lifecycle_id period) + duration - 1;
        })
  unfolding get_lifecycle_period_slot_range
  range_lem open_end =
      let whole = period_start lifecycle_id in
      let ids : 1 * (number_of_periods * lifecycle_id)
          ≤ duration * (number_of_periods * lifecycle_id) =
        mul-le-mul_right (number_of_periods * lifecycle_id) (omega arith) in
      let start = deployed + duration * (number_of_periods * lifecycle_id) in
      let from = start + duration * period_number period in
      rw
        (
          mul_ok u number_of_periods lifecycle_id (omega arith),
          mul_ok u duration (number_of_periods * lifecycle_id) (omega arith),
          add_ok u deployed (duration * (number_of_periods * lifecycle_id)) (omega arith),
          mul_ok u duration (period_number period) (omega arith),
          add_ok u start (duration * period_number period) (omega arith),
          add_ok u from duration (omega arith),
          sub_ok u (from + duration) 1 (omega arith),
        )
        (ap
          (λ (s : ℕ).
            ok
              (record { from_slot = s; to_slot = if open_end then max_slot else s + duration - 1 }))
          (omega arith))

  -- A method that is bound to a period is accepted at a slot exactly when the number of whole
  -- periods since the deployment is that of the period: four for each lifecycle before it, and the
  -- period's own number. The duration of a period has to be positive, and the slot after the period
  -- has to fit in 32 bits.
  pub require_lifecycle_period_iff :
      (slot : ℕ)
      → (require_lifecycle_period u duration deployed period lifecycle_id false slot ≡ ok tt)
        ↔ ((deployed ≤ slot) × ((slot - deployed) / duration ≡ period_count lifecycle_id period))
  unfolding require_lifecycle_period
  require_lifecycle_period_iff slot =
      let count = period_count lifecycle_id period in
      let next : duration * (count + 1) ≡ duration * count + duration = omega arith in
      rw (range_lem false) (
        (λ h. (
          ground arith,
          div-eq_of_lt-le {k = count} duration {m = slot - deployed} (ground arith) (ground arith),
        )),
        (λ h.
            let low =
              (le-div_iff_mul-le {k = duration} {x = count} {y = slot - deployed} pos).0
                (omega arith) in
            let high =
              (div-lt_iff_lt-mul {k = duration} {x = slot - deployed} {y = count + 1} pos).0
                (omega arith) in
            ground arith),
      )

  -- A method that is open-ended from a period on is accepted at exactly the slots from the start of
  -- that period, among the slots of 32 bits. The duration of a period has to be positive, and the slot
  -- after the period has to fit in 32 bits, since the unused upper bound is computed all the same and
  -- rejects when it overflows.
  pub require_lifecycle_period_open_iff :
      (slot : ℕ)
      → slot < 2 ^ 32
      → (require_lifecycle_period u duration deployed period lifecycle_id true slot ≡ ok tt)
        ↔ ((deployed ≤ slot) × (period_count lifecycle_id period ≤ (slot - deployed) / duration))
  unfolding require_lifecycle_period
  require_lifecycle_period_open_iff slot small =
      let count = period_count lifecycle_id period in
      let iff = le-div_iff_mul-le {k = duration} {x = count} {y = slot - deployed} pos in
      rw (range_lem true)
        ((λ h. (ground arith, iff.1 (ground arith))), (λ h. let low = iff.0 h.1 in ground arith))

period_count-injective :
    (i j : ℕ) (p q : LifecyclePeriod)
    → period_count i p ≡ period_count j q
    → (i ≡ j) × (period_number p ≡ period_number q)
period_count-injective i j p q h =
    let ps = period_number-lt p in let qs = period_number-lt q in (omega arith, omega arith)

period_number-injective : (p q : LifecyclePeriod) → period_number p ≡ period_number q → p ≡ q
period_number-injective p q h = ground arith

-- No slot lies in two periods: methods that are bound to different periods, or to different
-- lifecycles, are never accepted at the same slot. The duration of a period is positive, and the
-- slots after the two periods fit in 32 bits.
pub windows_disjoint :
    (u : UInt 32) (duration deployed i j : ℕ) (p q : LifecyclePeriod) (slot : ℕ)
    → 0 < duration
    → deployed + duration * (period_count i p + 1) < 2 ^ 32
    → deployed + duration * (period_count j q + 1) < 2 ^ 32
    → require_lifecycle_period u duration deployed p i false slot ≡ ok tt
    → require_lifecycle_period u duration deployed q j false slot ≡ ok tt
    → (i ≡ j) × (p ≡ q)
windows_disjoint u duration deployed i j p q slot pos fp fq hp hq =
    let (_, ep) = (require_lifecycle_period_iff u duration deployed i p pos fp slot).0 hp in
    let (_, eq) = (require_lifecycle_period_iff u duration deployed j q pos fq slot).0 hq in
    let (same, numbers) = period_count-injective i j p q (sym ep ∙ eq) in
    (same, period_number-injective p q numbers)
