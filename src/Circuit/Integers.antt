-- ===== src/Circuit/Integers.antt =====
-- The integers over native numbers, with the laws that the circuits take from a field and a pairing
-- that is free of collisions, for the tests.
use native.Mathlib.Nat.{mul-le-mul}
use decentralised_treasury.Prelude.{
  ℕ, ◌+◌, ◌-◌, ◌*◌, ◌≤◌, ◌<◌, ◌≡◌, ◌↔◌, refl, sym, ap, Bool, true, false, ltb, leb, ◌==◌,
  if◌then◌else◌, arith, ==→eq, eq→==,
}

pub data ℤ : Type 0 where
  pos : ℕ → ℤ
  negsuc : ℕ → ℤ

infixl 6 ◌+ℤ◌ ◌-ℤ◌
infixl 7 ◌*ℤ◌
infix 4 ◌==ℤ◌
abbrev pub ◌+ℤ◌ : ℤ → ℤ → ℤ
pos a +ℤ pos b = pos (a + b)
pos a +ℤ negsuc b = if ltb b a then pos (a - (b + 1)) else negsuc (b - a)
negsuc a +ℤ pos b = if ltb a b then pos (b - (a + 1)) else negsuc (a - b)
negsuc a +ℤ negsuc b = negsuc (a + b + 1)

abbrev pub ◌-ℤ◌ : ℤ → ℤ → ℤ
pos a -ℤ pos b = if leb b a then pos (a - b) else negsuc (b - a - 1)
pos a -ℤ negsuc b = pos (a + b + 1)
negsuc a -ℤ pos b = negsuc (a + b)
negsuc a -ℤ negsuc b = if leb a b then pos (b - a) else negsuc (a - b - 1)

abbrev pub ◌*ℤ◌ : ℤ → ℤ → ℤ
pos a *ℤ pos b = pos (a * b)
pos a *ℤ negsuc b = if a == 0 then pos 0 else negsuc (a * (b + 1) - 1)
negsuc a *ℤ pos b = if b == 0 then pos 0 else negsuc ((a + 1) * b - 1)
negsuc a *ℤ negsuc b = pos ((a + 1) * (b + 1))

abbrev pub ◌==ℤ◌ : ℤ → ℤ → Bool
pos a ==ℤ pos b = a == b
negsuc a ==ℤ negsuc b = a == b
_ ==ℤ _ = false

pub ==ℤ-iff : (x y : ℤ) → ((x ==ℤ y) ≡ true) ↔ (x ≡ y)
==ℤ-iff (pos a) (pos b) = ((λ h. ap pos (==→eq a b h)), (λ h. eq→== a b (ground arith)))
==ℤ-iff (pos a) (negsuc b) = ((λ h. cc), (λ h. cc))
==ℤ-iff (negsuc a) (pos b) = ((λ h. cc), (λ h. cc))
==ℤ-iff (negsuc a) (negsuc b) = ((λ h. ap negsuc (==→eq a b h)), (λ h. eq→== a b (ground arith)))

pub add_zero : (x : ℤ) → x +ℤ pos 0 ≡ x
add_zero (pos a) = ap pos (omega arith)
add_zero (negsuc a) = ground arith

pub sub_zero : (x : ℤ) → x -ℤ pos 0 ≡ x
sub_zero (pos a) = ground arith
sub_zero (negsuc a) = ap negsuc (omega arith)

pub add_sub : (x y : ℤ) → y +ℤ (x -ℤ y) ≡ x
add_sub (pos a) (pos b) = ground arith
add_sub (pos a) (negsuc b) = ground arith
add_sub (negsuc a) (pos b) = ground arith
add_sub (negsuc a) (negsuc b) = ground arith

pub sub_sub : (x y : ℤ) → x -ℤ (x -ℤ y) ≡ y
sub_sub (pos a) (pos b) = ground arith
sub_sub (pos a) (negsuc b) = ground arith
sub_sub (negsuc a) (pos b) = ground arith
sub_sub (negsuc a) (negsuc b) = ground arith

pub one_mul : (x : ℤ) → pos 1 *ℤ x ≡ x
one_mul (pos a) = ap pos (omega arith)
one_mul (negsuc a) = ap negsuc (omega arith)

pub zero_mul : (x : ℤ) → pos 0 *ℤ x ≡ pos 0
zero_mul (pos a) = ap pos (omega arith)
zero_mul (negsuc a) = refl

-- Each integer as a number, and two of them as one.
abbrev pub code : ℤ → ℕ
code (pos a) = 2 * a
code (negsuc a) = 2 * a + 1

abbrev pub pair : ℤ → ℤ → ℤ
pair x y = pos ((code x + code y) * (code x + code y) + code y)

code_injective : (x y : ℤ) → code x ≡ code y → x ≡ y
code_injective (pos a) (pos b) h = ap pos (omega arith)
code_injective (pos a) (negsuc b) h = absurd (omega arith)
code_injective (negsuc a) (pos b) h = absurd (omega arith)
code_injective (negsuc a) (negsuc b) h = ap negsuc (omega arith)

square_above : (s t b c : ℕ) → b ≤ s → s * s + b ≡ t * t + c → c ≤ t → s < t → ⊥
square_above s t b c hb e hc h =
    let above : (s + 1) * (s + 1) ≤ t * t = mul-le-mul (omega arith) (omega arith) in
    omega (arith, above)

pub pair-injective : (x y x' y' : ℤ) → pair x y ≡ pair x' y' → (x ≡ x') × (y ≡ y')
pair-injective x y x' y' h =
    let s = code x + code y in
    let t = code x' + code y' in
    let e : s * s + code y ≡ t * t + code y' = ground arith in
    let not_below = square_above s t (code y) (code y') (omega arith) e (omega arith) in
    let not_above = square_above t s (code y') (code y) (omega arith) (sym e) (omega arith) in
    let same : s ≡ t = ground (arith, not_below, not_above) in
    let last : code y ≡ code y' = omega (arith, e, ap (λ n. n * n) same) in
    (code_injective x x' (omega (arith, same, last)), code_injective y y' last)
