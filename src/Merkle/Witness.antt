-- ===== src/Merkle/Witness.antt =====
-- The circuit's witness, `BasePrefixedMerkleWitness`, and `conditionalSwap`.
use decentralised_treasury.Prelude.{
  ℕ, ◌+◌, List, [], ◌∷◌, String, Bool, true, false, length, ◌==◌, if◌then◌else◌,
}
use decentralised_treasury.Circuit.{O1js, Result, ok, err, witness_height_mismatch}

module _ (o : O1js) where
  open o use {Field, of_nat, field_add, field_sub, field_mul, poseidon_prefixed}

  -- `Witness`: for each level from the leaves up, whether the node is a left child, and its sibling.
  abbrev pub Witness : Type 0
  Witness = List (Bool × Field)

  -- The constructor of the witness class for trees of the given height.
  unfoldable pub prefixed_merkle_witness : ℕ → Witness → Result Witness
  prefixed_merkle_witness height witness =
      if (length witness + 1) == height then ok witness else err witness_height_mismatch

  -- `Bool.toField`
  unfoldable pub bool_to_field : Bool → Field
  bool_to_field true = of_nat 1
  bool_to_field false = of_nat 0

  -- Swap two values if the Boolean is false.
  unfoldable pub conditional_swap : Bool → Field → Field → Field × Field
  unfolding bool_to_field
  conditional_swap b x y =
      let m = field_mul (bool_to_field b) (field_sub x y) in (field_add y m, field_sub x m)

  unfoldable pub hash_pair : String → Field × Field → Field
  hash_pair prefix (left, right) = poseidon_prefixed prefix (left ∷ right ∷ [])

  -- The loop of `calculateRoot`. The prefixes are as many as the levels of the witness.
  unfoldable pub calculate_root : Witness → Field → List String → Field
  unfolding conditional_swap hash_pair
  calculate_root [] hash prefixes = hash
  calculate_root ((is_left, sibling) ∷ rest) hash [] = hash
  calculate_root ((is_left, sibling) ∷ rest) hash (prefix ∷ prefixes) =
      calculate_root rest (hash_pair prefix (conditional_swap is_left hash sibling)) prefixes

  -- The loop of `calculateIndex` over the power of two and the index so far.
  unfoldable pub calculate_index_from : Witness → Field → Field → Field
  calculate_index_from [] power_of_two index = index
  calculate_index_from ((is_left, sibling) ∷ rest) power_of_two index =
      calculate_index_from rest (field_mul power_of_two (of_nat 2))
        (if is_left then index else field_add index power_of_two)

  unfoldable pub calculate_index : Witness → Field
  unfolding calculate_index_from
  calculate_index witness = calculate_index_from witness (of_nat 1) (of_nat 0)
