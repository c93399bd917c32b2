-- ===== src/Circuit/Lawful.antt =====
-- A field of integers in which the hash of two nodes pairs them, for the tests: it meets the laws
-- and is free of collisions.
use decentralised_treasury.Prelude.{ℕ, refl, List, [], ◌∷◌, false, arith, ==→eq, eq→==, ◌==◌}
use decentralised_treasury.Circuit.{O1js, FieldLaws}
use decentralised_treasury.Circuit.Sample.{sample_uint}
use decentralised_treasury.Circuit.Integers.{
  ℤ, pos, ◌+ℤ◌, ◌-ℤ◌, ◌*ℤ◌, ◌==ℤ◌, ==ℤ-iff, add_zero, sub_zero, add_sub, sub_sub, one_mul, zero_mul,
  pair,
}

-- The elements of a list, paired from the right.
abbrev pub paired : List ℤ → ℤ
paired [] = pos 0
paired (x ∷ []) = x
paired (x ∷ y ∷ xs) = pair x (paired (y ∷ xs))

abbrev pub lawful_o1js : O1js
lawful_o1js = record {
  Field = ℤ;
  of_nat = pos;
  field_add = ◌+ℤ◌;
  field_sub = ◌-ℤ◌;
  field_mul = ◌*ℤ◌;
  equals = ◌==ℤ◌;
  poseidon_hash = paired;
  poseidon_update = λ state xs. (paired xs, state.0, pos 0);
  poseidon_prefixed = λ prefix xs. paired xs;
  prefix_to_field = λ prefix. pos 3;
  PublicKey = ℕ;
  key_fields = λ key. pos key ∷ [];
  key_x = pos;
  key_is_odd = λ key. false;
  empty_key = 0;
  key_eq = λ x y. x == y;
  Signature = ℕ;
  verify_signature = λ s key message. s == key;
  initial_action_state = pos 11;
  default_token = pos 1;
  size_in_bits = 255;
  token_from_base58 = λ text. pos 1;
  receipt_chain_hash_from_base58 = λ text. pos 2;
  state_hash_from_base58 = λ text. pos 3;
  empty_token_symbol = pos 0;
  dummy_verification_key_hash = pos 4;
  uint32 = sample_uint 32;
  uint64 = sample_uint 64;
  uint96 = sample_uint 96;
  equals_iff = ==ℤ-iff;
  key_eq_iff = λ x y. (==→eq x y, eq→== x y);
}

pub lawful : FieldLaws lawful_o1js
lawful = record {
  add_zero = add_zero;
  sub_zero = sub_zero;
  add_sub = add_sub;
  sub_sub = sub_sub;
  one_mul = one_mul;
  zero_mul = zero_mul;
  of_nat-add = λ a b. refl;
  of_nat-mul = λ a b. refl;
  of_nat_injective = λ a b ha hb e. ground arith;
}
