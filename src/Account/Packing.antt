-- ===== src/Account/Packing.antt =====
-- The input of the random oracle, and `packToFields`.
use decentralised_treasury.Prelude.{ℕ, zero, suc, ◌+◌, List, [], ◌∷◌, ◌++◌, ltb, if◌then◌else◌}
use decentralised_treasury.Circuit.{O1js}

module _ (o : O1js) where
  open o use {Field, of_nat, field_add, field_mul, size_in_bits}

  pub record RandomOracleInput : Type 0 where
    pub field_elements : List Field
    pub packeds : List (Field × ℕ)

  abbrev pub empty_input : RandomOracleInput
  empty_input = record { field_elements = []; packeds = [] }

  unfoldable pub append : RandomOracleInput → RandomOracleInput → RandomOracleInput
  append t1 t2 = record {
    field_elements = t1.field_elements ++ t2.field_elements;
    packeds = t1.packeds ++ t2.packeds;
  }

  -- `inputs.reduce(append, { fieldElements: [], packeds: [] })`
  pub append_all_from : RandomOracleInput → List RandomOracleInput → RandomOracleInput
  unfolding append
  append_all_from acc [] = acc
  append_all_from acc (x ∷ xs) = append_all_from (append acc x) xs

  unfoldable pub append_all : List RandomOracleInput → RandomOracleInput
  unfolding append_all_from
  append_all inputs = append_all_from empty_input inputs

  -- `field x`, one full element
  unfoldable pub field : Field → RandomOracleInput
  field x = record { field_elements = x ∷ []; packeds = [] }

  -- `packed x`, a chunk of the given width
  unfoldable pub packed : Field → ℕ → RandomOracleInput
  packed x width = record { field_elements = []; packeds = (x, width) ∷ [] }

  -- The loop of `pow2` over the rounds left.
  pub double_times : ℕ → Field → Field
  double_times zero acc = acc
  double_times (suc n) acc = double_times n (field_mul acc (of_nat 2))

  pub pow2 : ℕ → Field
  unfolding double_times
  pow2 zero = of_nat 2
  pow2 (suc n) = double_times n (of_nat 2)

  pub shift_left : Field → ℕ → Field
  unfolding pow2
  shift_left acc n = field_mul acc (pow2 n)

  -- What the loop of `packToFields` holds.
  pub record PackState : Type 0 where
    pub packed_bits : List Field
    pub acc : Field
    pub acc_bits : ℕ

  -- `if (accBits > 0) packedBits.push(acc)`
  pub flush : PackState → List Field
  flush s = if ltb 0 s.acc_bits then s.packed_bits ++ s.acc ∷ [] else s.packed_bits

  pub pack_step : PackState → Field × ℕ → PackState
  unfolding shift_left flush
  pack_step s (x, n) =
      let next_bits = n + s.acc_bits in
      if ltb next_bits size_in_bits
      then record s { acc = field_add x (shift_left s.acc n); acc_bits = next_bits }
      else record { packed_bits = flush s; acc = x; acc_bits = n }

  pub pack_loop : PackState → List (Field × ℕ) → PackState
  unfolding pack_step
  pack_loop s [] = s
  pack_loop s (p ∷ ps) = pack_loop (pack_step s p) ps

  unfoldable pub pack_to_fields : RandomOracleInput → List Field
  unfolding pack_loop flush
  pack_to_fields input =
      input.field_elements
      ++ flush (pack_loop (record { packed_bits = []; acc = of_nat 0; acc_bits = 0 }) input.packeds)
