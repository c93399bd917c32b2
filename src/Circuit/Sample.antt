-- ===== src/Circuit/Sample.antt =====
-- Concrete instances of the parameters, for the tests: integers that meet the laws of `UInt`, and
-- a field and keys of numbers, in which a signature names the key that made it.
use decentralised_treasury.Prelude.{
  ℕ, ◌+◌, ◌-◌, ◌*◌, ◌/◌, ◌%◌, ◌^◌, refl, some, none, ltb, leb, ◌==◌, if◌then◌else◌, List, [], ◌∷◌,
  false, ==→eq, eq→==,
}
use decentralised_treasury.Circuit.{UInt, O1js}

abbrev pub sample_uint : (w : ℕ) → UInt w
sample_uint w = record {
  add = λ a b. if ltb (a + b) (2 ^ w) then some (a + b) else none;
  sub = λ a b. if leb b a then some (a - b) else none;
  mul = λ a b. if ltb (a * b) (2 ^ w) then some (a * b) else none;
  div = λ a b. if b == 0 then none else some (a / b);
  add_lem = λ a b. refl;
  sub_lem = λ a b. refl;
  mul_lem = λ a b. refl;
  div_lem = λ a b. refl;
}

abbrev pub sample_hash : List ℕ → ℕ
sample_hash [] = 1
sample_hash (x ∷ xs) = (x + 31 * sample_hash xs) % 1000003

abbrev pub sample_o1js : O1js
sample_o1js = record {
  Field = ℕ;
  of_nat = λ n. n;
  field_add = λ x y. x + y;
  field_sub = λ x y. x - y;
  field_mul = λ x y. x * y;
  equals = λ x y. x == y;
  poseidon_hash = sample_hash;
  poseidon_update = λ state xs. (sample_hash (state.0 ∷ xs), state.0, 0);
  poseidon_prefixed = λ prefix xs. sample_hash xs;
  prefix_to_field = λ prefix. 3;
  PublicKey = ℕ;
  key_fields = λ key. key ∷ [];
  key_x = λ key. key;
  key_is_odd = λ key. false;
  empty_key = 0;
  key_eq = λ x y. x == y;
  Signature = ℕ;
  verify_signature = λ s key message. s == key;
  initial_action_state = 11;
  default_token = 1;
  size_in_bits = 255;
  token_from_base58 = λ text. 1;
  receipt_chain_hash_from_base58 = λ text. 2;
  state_hash_from_base58 = λ text. 3;
  empty_token_symbol = 0;
  dummy_verification_key_hash = 4;
  uint32 = sample_uint 32;
  uint64 = sample_uint 64;
  uint96 = sample_uint 96;
  equals_iff = λ x y. (==→eq x y, eq→== x y);
  key_eq_iff = λ x y. (==→eq x y, eq→== x y);
}
