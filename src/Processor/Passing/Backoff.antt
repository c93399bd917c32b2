-- ===== src/Processor/Passing/Backoff.antt =====
-- The delay before a retry.
use decentralised_treasury.Prelude.{ℕ, suc, ◌-◌, ◌*◌, ◌^◌, ◌≤◌, ◌≡◌, ap, leb, if◌then◌else◌, arith}
use native.Mathlib.Nat.{mul-le-mul_left, pow-le-pow_right, one-le-pow}
use decentralised_treasury.Processor.Attempt.{Options, retry_delay_ms}

capped_mono :
    (a b cap : ℕ) → a ≤ b → (if leb a cap then a else cap) ≤ (if leb b cap then b else cap)
capped_mono a b cap h = ground arith

-- The doublings are 30 at most.
doublings_mono : (a b : ℕ) → a ≤ b → (if leb 30 a then 30 else a) ≤ (if leb 30 b then 30 else b)
doublings_mono a b h = ground arith

-- With a base delay that is at most the largest delay, the delay before a retry is between the two; it
-- does not fall from one attempt to a later one; and for one of the first 31 attempts it is the base
-- delay, doubled for each attempt before, or the largest delay if that is less.
pub retry_delay_bounds :
    (options : Options) (n m : ℕ)
    → options.retry_base_delay_ms ≤ options.retry_max_delay_ms
    → n ≤ m
    → (options.retry_base_delay_ms ≤ retry_delay_ms options n)
      × (retry_delay_ms options n ≤ retry_delay_ms options m)
      × (retry_delay_ms options m ≤ options.retry_max_delay_ms)
      × (n ≤ 30
          → retry_delay_ms options (suc n) ≡ (
              if leb (options.retry_base_delay_ms * 2 ^ n) options.retry_max_delay_ms
              then options.retry_base_delay_ms * 2 ^ n
              else options.retry_max_delay_ms))
retry_delay_bounds options n m h le =
    let base = options.retry_base_delay_ms in
    let cap = options.retry_max_delay_ms in
    let d = λ (k : ℕ). if leb 30 (k - 1) then 30 else k - 1 in
    let grows =
      mul-le-mul_left base
        (pow-le-pow_right (omega arith) (doublings_mono (n - 1) (m - 1) (omega (arith, le)))) in
    let once = mul-le-mul_left base (one-le-pow (d n) 2 (omega arith)) in
    (
      ground (arith, once),
      capped_mono (base * 2 ^ d n) (base * 2 ^ d m) cap grows,
      ground arith,
      (λ few.
          let exact : d (suc n) ≡ n = ground arith in
          ap (λ k. if leb (base * 2 ^ k) cap then base * 2 ^ k else cap) exact),
    )
