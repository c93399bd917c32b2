-- ===== src/Circuit.antt =====
-- What the contracts and programs take from o1js: checked unsigned integers, the field with its
-- arithmetic, the Poseidon sponge, keys and signatures. These are parameters of the model, with the
-- documented behaviour that the code relies on as laws. An assertion that fails, an overflow and a
-- precondition that does not hold all reject the transaction: `Result` with the reason.
mod Errors
pub mod Sample
pub mod Integers
pub mod Lawful
pub use Errors.*
use decentralised_treasury.Prelude.{
  ℕ, ◌+◌, ◌-◌, ◌*◌, ◌/◌, ◌^◌, ◌<◌, ◌≤◌, ◌≡◌, ◌≢◌, refl, ◌↔◌, Bool, true, false, Option, none, some,
  List, [], ◌∷◌, String, arith, ltb, leb, ◌==◌, if◌then◌else◌, lt→ltb, le→leb,
}

-- Unsigned integers of one width. An operation whose result does not fit fails.
pub record UInt (w : ℕ) : Type 0 where
  pub add : ℕ → ℕ → Option ℕ
  pub sub : ℕ → ℕ → Option ℕ
  pub mul : ℕ → ℕ → Option ℕ
  pub div : ℕ → ℕ → Option ℕ
  pub add_lem : (a b : ℕ) → add a b ≡ (if ltb (a + b) (2 ^ w) then some (a + b) else none)
  pub sub_lem : (a b : ℕ) → sub a b ≡ (if leb b a then some (a - b) else none)
  pub mul_lem : (a b : ℕ) → mul a b ≡ (if ltb (a * b) (2 ^ w) then some (a * b) else none)
  pub div_lem : (a b : ℕ) → div a b ≡ (if b == 0 then none else some (a / b))

pub record O1js : Type 1 where
  -- `Field`
  pub Field : Type 0
  pub of_nat : ℕ → Field
  pub field_add : Field → Field → Field
  pub field_sub : Field → Field → Field
  pub field_mul : Field → Field → Field
  pub equals : Field → Field → Bool
  -- `Poseidon.hash`, `Poseidon.update`, `Poseidon.hashWithPrefix`, `prefixToField`
  pub poseidon_hash : List Field → Field
  pub poseidon_update : Field × Field × Field → List Field → Field × Field × Field
  pub poseidon_prefixed : String → List Field → Field
  pub prefix_to_field : String → Field
  -- `PublicKey`, `Signature`
  pub PublicKey : Type 0
  pub key_fields : PublicKey → List Field
  pub key_x : PublicKey → Field
  pub key_is_odd : PublicKey → Bool
  pub empty_key : PublicKey
  pub key_eq : PublicKey → PublicKey → Bool
  pub Signature : Type 0
  pub verify_signature : Signature → PublicKey → List Field → Bool
  -- `Reducer.initialActionState`, `TokenId.default`
  pub initial_action_state : Field
  pub default_token : Field
  -- `Field.sizeInBits`, and the constants that an empty account is made of
  pub size_in_bits : ℕ
  pub token_from_base58 : String → Field
  pub receipt_chain_hash_from_base58 : String → Field
  pub state_hash_from_base58 : String → Field
  pub empty_token_symbol : Field
  pub dummy_verification_key_hash : Field
  pub uint32 : UInt 32
  pub uint64 : UInt 64
  pub uint96 : UInt 96
  pub equals_iff : (x y : Field) → (equals x y ≡ true) ↔ (x ≡ y)
  pub key_eq_iff : (x y : PublicKey) → (key_eq x y ≡ true) ↔ (x ≡ y)

-- The laws of the field that the witness calculations rely on. The order of the field is above
-- 2 ^ 254, so smaller numbers are told apart.
pub record FieldLaws (o : O1js) : Type 0 where
  pub add_zero : (x : o.Field) → o.field_add x (o.of_nat 0) ≡ x
  pub sub_zero : (x : o.Field) → o.field_sub x (o.of_nat 0) ≡ x
  pub add_sub : (x y : o.Field) → o.field_add y (o.field_sub x y) ≡ x
  pub sub_sub : (x y : o.Field) → o.field_sub x (o.field_sub x y) ≡ y
  pub one_mul : (x : o.Field) → o.field_mul (o.of_nat 1) x ≡ x
  pub zero_mul : (x : o.Field) → o.field_mul (o.of_nat 0) x ≡ o.of_nat 0
  pub of_nat-add : (a b : ℕ) → o.field_add (o.of_nat a) (o.of_nat b) ≡ o.of_nat (a + b)
  pub of_nat-mul : (a b : ℕ) → o.field_mul (o.of_nat a) (o.of_nat b) ≡ o.of_nat (a * b)
  pub of_nat_injective : (a b : ℕ) → a < 2 ^ 254 → b < 2 ^ 254 → o.of_nat a ≡ o.of_nat b → a ≡ b

-- A result of unsigned arithmetic inside a method.
abbrev pub checked : Option ℕ → Result ℕ
checked none = err uint_range
checked (some n) = ok n

module _ {w : ℕ} (u : UInt w) (a b : ℕ) where
  pub add_ok : a + b < 2 ^ w → checked (u.add a b) ≡ ok (a + b)
  add_ok h = rw (u.add_lem a b, lt→ltb (a + b) (2 ^ w) h)

  pub mul_ok : a * b < 2 ^ w → checked (u.mul a b) ≡ ok (a * b)
  mul_ok h = rw (u.mul_lem a b, lt→ltb (a * b) (2 ^ w) h)

  pub sub_ok : b ≤ a → checked (u.sub a b) ≡ ok (a - b)
  sub_ok h = rw (u.sub_lem a b, le→leb b a h)

  pub div_ok : 0 < b → checked (u.div a b) ≡ ok (a / b)
  div_ok h = rw (u.div_lem a b) (ground arith)

  -- An operation that goes through has computed the plain result, in range.
  pub add_inv : {c : ℕ} → checked (u.add a b) ≡ ok c → (c ≡ a + b) × (a + b < 2 ^ w)
  add_inv h = ground (arith, u.add_lem a b)

  pub sub_inv : {c : ℕ} → checked (u.sub a b) ≡ ok c → (c ≡ a - b) × (b ≤ a)
  sub_inv h = ground (arith, u.sub_lem a b)

  pub mul_inv : {c : ℕ} → checked (u.mul a b) ≡ ok c → (c ≡ a * b) × (a * b < 2 ^ w)
  mul_inv h = ground (arith, u.mul_lem a b)

  pub div_inv : {c : ℕ} → checked (u.div a b) ≡ ok c → (c ≡ a / b) × (0 < b)
  div_inv h = ground (arith, u.div_lem a b)
