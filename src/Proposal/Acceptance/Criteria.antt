-- ===== src/Proposal/Acceptance/Criteria.antt =====
-- About `calculateAcceptanceCriteria`: its bounds and how it depends on the amount.
use native.Mathlib.Nat.{
  zero-add, mul-div_left, div-le_of_le-mul, mul-le-mul, mul-le-mul_left, mul-le-mul_right,
  div-mul-le_self, div-zero, le-div_iff_mul-le, le_of_mul-le-mul_right,
}
use decentralised_treasury.Prelude.{
  ℕ, zero, suc, ◌+◌, ◌-◌, ◌*◌, ◌/◌, ◌^◌, ◌≤◌, ◌<◌, ◌≡◌, refl, arith,
}
use decentralised_treasury.Circuit.{UInt, ok, err, uint_range, add_ok, mul_ok, sub_ok, div_ok}
use decentralised_treasury.Constants.{
  basis_points, min_participation_bp, min_approval_bp, max_participation_bp, max_approval_bp,
  curve_constant_participation_bp, curve_constant_approval_bp,
}
use decentralised_treasury.Proposal.Acceptance.{
  AcceptanceCriteria, min_uint96, curve_bp, threshold_bp, calculate_acceptance_criteria,
}

-- The curve as plain arithmetic.
curve_denominator : ℕ → ℕ → ℕ
curve_denominator c r = r + c * (basis_points - r) / basis_points

curve : ℕ → ℕ → ℕ
unfolding curve_denominator
curve c r = r * basis_points / curve_denominator c r

threshold : ℕ → ℕ → ℕ → ℕ
threshold low high k = low + (high - low) * k / basis_points

curve_denominator_pos : (c r : ℕ) → 0 < c → r ≤ basis_points → 0 < curve_denominator c r
unfolding curve_denominator
curve_denominator_pos c zero hc hr =
    rw (zero-add, mul-div_left c {n = basis_points} (omega arith)) hc
curve_denominator_pos c (suc r) hc hr = omega arith

curve-le : (c r : ℕ) → r ≤ basis_points → curve c r ≤ basis_points
unfolding curve curve_denominator
curve-le c r hr = div-le_of_le-mul (curve_denominator c r) (grind arith)

threshold_bounds :
    (low high k : ℕ)
    → low ≤ high
    → k ≤ basis_points
    → (low ≤ threshold low high k) × (threshold low high k ≤ high)
unfolding threshold
threshold_bounds low high k h hk =
    let scaled : (high - low) * k ≤ (high - low) * basis_points = mul-le-mul_left (high - low) hk in
    (omega arith, omega arith)

curve_scaled_small : (c r : ℕ) → c ≤ basis_points → c * (basis_points - r) < 2 ^ 96
curve_scaled_small c r hc =
    let small : c * (basis_points - r) ≤ basis_points * basis_points =
      mul-le-mul {m₂ = basis_points} hc (omega arith) in
    omega arith

module _ (u : UInt 96) where
  curve_bp_lem :
      (c r : ℕ) → 0 < c → c ≤ basis_points → r ≤ basis_points → curve_bp u c r ≡ ok (curve c r)
  unfolding curve_bp curve curve_denominator
  curve_bp_lem c r pc hc hr =
      let small = curve_scaled_small c r hc in
      rw (
        sub_ok u basis_points r hr,
        mul_ok u c (basis_points - r) small,
        div_ok u (c * (basis_points - r)) basis_points (omega arith),
        add_ok u r (c * (basis_points - r) / basis_points) (omega arith),
        mul_ok u r basis_points (omega arith),
        div_ok u (r * basis_points) (curve_denominator c r) (curve_denominator_pos c r pc hr),
      )

  threshold_bp_lem :
      (low high k : ℕ)
      → low ≤ high
      → high ≤ basis_points
      → k ≤ basis_points
      → threshold_bp u low high k ≡ ok (threshold low high k)
  unfolding threshold_bp threshold
  threshold_bp_lem low high k hl hh hk =
      let scaled : (high - low) * k ≤ basis_points * basis_points =
        mul-le-mul {n₂ = basis_points} (omega arith) hk in
      rw (
        sub_ok u high low hl,
        mul_ok u (high - low) k (omega arith),
        div_ok u ((high - low) * k) basis_points (omega arith),
        add_ok u low ((high - low) * k / basis_points) (omega arith),
      )

-- The criteria as plain arithmetic.
ratio_of : ℕ → ℕ → ℕ
unfolding min_uint96
ratio_of amount balance = min_uint96 (amount * basis_points / balance) basis_points

participation_of : ℕ → ℕ → ℕ
participation_of amount balance =
    threshold min_participation_bp max_participation_bp
      (curve curve_constant_participation_bp (ratio_of amount balance))

approval_of : ℕ → ℕ → ℕ
approval_of amount balance =
    threshold min_approval_bp max_approval_bp
      (curve curve_constant_approval_bp (ratio_of amount balance))

ratio_of-le : (amount balance : ℕ) → ratio_of amount balance ≤ basis_points
unfolding ratio_of
ratio_of-le amount balance = ground arith

participation_bounds :
    (amount balance : ℕ)
    → (min_participation_bp ≤ participation_of amount balance)
      × (participation_of amount balance ≤ max_participation_bp)
unfolding participation_of
participation_bounds amount balance =
    threshold_bounds _ _ _ (omega arith) (curve-le _ _ (ratio_of-le amount balance))

approval_bounds :
    (amount balance : ℕ)
    → (min_approval_bp ≤ approval_of amount balance)
      × (approval_of amount balance ≤ max_approval_bp)
unfolding approval_of
approval_bounds amount balance =
    threshold_bounds _ _ _ (omega arith) (curve-le _ _ (ratio_of-le amount balance))

criteria_of : ℕ → ℕ → ℕ → AcceptanceCriteria
criteria_of amount balance total = record {
  required_participation_bp = participation_of amount balance;
  required_approval_bp = approval_of amount balance;
  required_participation = total * participation_of amount balance / basis_points;
}

calculate_acceptance_criteria_lem :
    (u : UInt 96) (amount balance total : ℕ)
    → amount < 2 ^ 64
    → 0 < balance
    → total < 2 ^ 64
    → calculate_acceptance_criteria u amount balance total ≡ ok (criteria_of amount balance total)
unfolding calculate_acceptance_criteria criteria_of ratio_of participation_of approval_of
calculate_acceptance_criteria_lem u amount balance total ha hb ht =
    let r = ratio_of amount balance in
    let hr = ratio_of-le amount balance in
    let pb = participation_bounds amount balance in
    let weighted : total * participation_of amount balance ≤ 2 ^ 64 * basis_points =
      mul-le-mul {n₂ = 2 ^ 64} {m₂ = basis_points} (omega arith) (omega (arith, pb.1)) in
    rw (
      mul_ok u amount basis_points (omega arith),
      div_ok u (amount * basis_points) balance hb,
      curve_bp_lem u curve_constant_participation_bp r (omega arith) (omega arith) hr,
      curve_bp_lem u curve_constant_approval_bp r (omega arith) (omega arith) hr,
      threshold_bp_lem u min_participation_bp max_participation_bp
          (curve curve_constant_participation_bp r) (omega arith) (omega arith)
          (curve-le curve_constant_participation_bp r hr),
      threshold_bp_lem u min_approval_bp max_approval_bp (curve curve_constant_approval_bp r)
          (omega arith) (omega arith) (curve-le curve_constant_approval_bp r hr),
      mul_ok u total (participation_of amount balance) (omega arith),
      div_ok u (total * participation_of amount balance) basis_points (omega arith),
    )

-- For every 64-bit proposal amount and total currency and every positive treasury balance the
-- criteria are computed without overflow; the participation threshold lies between 20% and 50%, the
-- approval threshold between 51% and 70%, and the required participation is that share of the total
-- currency, at most half of it.
pub criteria_within_bounds :
    (u : UInt 96) (amount balance total : ℕ)
    → amount < 2 ^ 64
    → 0 < balance
    → total < 2 ^ 64
    → (c : AcceptanceCriteria) × (calculate_acceptance_criteria u amount balance total ≡ ok c)
      × (min_participation_bp ≤ c.required_participation_bp)
      × (c.required_participation_bp ≤ max_participation_bp)
      × (min_approval_bp ≤ c.required_approval_bp)
      × (c.required_approval_bp ≤ max_approval_bp)
      × (c.required_participation ≡ total * c.required_participation_bp / basis_points)
      × (c.required_participation ≤ total / 2)
unfolding criteria_of
criteria_within_bounds u amount balance total ha hb ht =
    let (pl, ph) = participation_bounds amount balance in
    let (al, ah) = approval_bounds amount balance in
    let half : total * participation_of amount balance ≤ total * max_participation_bp =
      mul-le-mul_left total ph in
    (
      criteria_of amount balance total,
      calculate_acceptance_criteria_lem u amount balance total ha hb ht,
      pl,
      ph,
      al,
      ah,
      refl,
      omega arith,
    )

-- With an empty treasury there are no criteria: the ratio is a division by zero.
pub criteria_of_empty_treasury :
    (u : UInt 96) (amount total : ℕ)
    → calculate_acceptance_criteria u amount 0 total ≡ err uint_range
unfolding calculate_acceptance_criteria
criteria_of_empty_treasury u amount total =
    ground (arith, u.mul_lem amount basis_points, u.div_lem (amount * basis_points) 0)

-- Fractions with positive denominators, compared across.
div-le-div : (a b c d : ℕ) → 0 < b → 0 < d → a * d ≤ c * b → a / b ≤ c / d
div-le-div a b c d hb hd h =
    let q : a / b * b ≤ a = div-mul-le_self a b in
    let scaled : a / b * b * d ≤ a * d = mul-le-mul_right d q in
    (le-div_iff_mul-le hd).1 (le_of_mul-le-mul_right {k = b} (omega (arith, scaled)) hb)

curve_rest_mono :
    (c r s : ℕ)
    → r ≤ s
    → c * (basis_points - s) / basis_points ≤ c * (basis_points - r) / basis_points
curve_rest_mono c r s h =
    let rest : c * (basis_points - s) ≤ c * (basis_points - r) = mul-le-mul_left c (omega arith) in
    omega arith

curve_mono : (c r s : ℕ) → 0 < c → r ≤ s → s ≤ basis_points → curve c r ≤ curve c s
unfolding curve curve_denominator
curve_mono c r s hc h hs =
    div-le-div _ _ _ _ (curve_denominator_pos c r hc (omega arith))
      (curve_denominator_pos c s hc hs) (omega (arith, mul-le-mul h (curve_rest_mono c r s h)))

div-le-div_right : {a b : ℕ} (k : ℕ) → a ≤ b → a / k ≤ b / k
div-le-div_right {a} {b} zero h = rw (div-zero a, div-zero b) (omega arith)
div-le-div_right {a} {b} (suc k) h =
    div-le-div a (suc k) b (suc k) (omega arith) (omega arith) (mul-le-mul_right (suc k) h)

ratio_of_mono : (a b balance : ℕ) → a ≤ b → ratio_of a balance ≤ ratio_of b balance
unfolding ratio_of
ratio_of_mono a b balance h =
    let scaled : a * basis_points ≤ b * basis_points = mul-le-mul_right basis_points h in
    ground (arith, div-le-div_right {a = a * basis_points} {b = b * basis_points} balance scaled)

threshold_mono : (low high j k : ℕ) → j ≤ k → threshold low high j ≤ threshold low high k
unfolding threshold
threshold_mono low high j k h =
    let scaled : (high - low) * j ≤ (high - low) * k = mul-le-mul_left (high - low) h in omega arith

-- A proposal that asks for more of the same treasury never has lower thresholds.
pub criteria_mono :
    (u : UInt 96) (a b balance total : ℕ)
    → a ≤ b
    → b < 2 ^ 64
    → 0 < balance
    → total < 2 ^ 64
    → (c d : AcceptanceCriteria) × (calculate_acceptance_criteria u a balance total ≡ ok c)
      × (calculate_acceptance_criteria u b balance total ≡ ok d)
      × (c.required_participation_bp ≤ d.required_participation_bp)
      × (c.required_approval_bp ≤ d.required_approval_bp)
      × (c.required_participation ≤ d.required_participation)
unfolding criteria_of participation_of approval_of
criteria_mono u a b balance total h hb pos ht =
    let ratios = ratio_of_mono a b balance h in
    let top = ratio_of-le b balance in
    let participation =
      threshold_mono min_participation_bp max_participation_bp _ _
        (curve_mono curve_constant_participation_bp _ _ (omega arith) ratios top) in
    let approval =
      threshold_mono min_approval_bp max_approval_bp _ _
        (curve_mono curve_constant_approval_bp _ _ (omega arith) ratios top) in
    (
      criteria_of a balance total,
      criteria_of b balance total,
      calculate_acceptance_criteria_lem u a balance total (omega arith) pos ht,
      calculate_acceptance_criteria_lem u b balance total hb pos ht,
      participation,
      approval,
      div-le-div_right basis_points (mul-le-mul_left total participation),
    )
