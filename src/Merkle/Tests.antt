-- ===== src/Merkle/Tests.antt =====
-- A tree of four leaves 10, 11, 12, 13, and the witness of the leaf at index 2.
use decentralised_treasury.Prelude.{ℕ, ◌+◌, ◌≡◌, refl, true, false, List, [], ◌∷◌, String, arith}
use decentralised_treasury.Circuit.Integers.{ℤ, pos, pair, pair-injective}
use decentralised_treasury.Circuit.Lawful.{lawful_o1js, lawful}
use decentralised_treasury.Merkle.Witness.{Witness, calculate_root, hash_pair}
use decentralised_treasury.Merkle.Complete.{CollisionFree, update, tree_root, index_of, parents}
use decentralised_treasury.Merkle.Soundness.{calculate_root_sound, calculate_root-update}

pairing : CollisionFree lawful_o1js
unfolding hash_pair
pairing prefix a b c d h = pair-injective a b c d h

abbrev leaves : ℕ → ℤ
leaves i = pos (10 + i)

abbrev levels : List String
levels = "low" ∷ "high" ∷ []

abbrev third : Witness lawful_o1js
third = (true, pos 13) ∷ (false, pair (pos 10) (pos 11)) ∷ []

opened : calculate_root lawful_o1js third (pos 12) levels ≡ tree_root lawful_o1js 2 levels leaves
unfolding calculate_root tree_root parents
opened = refl

calculate_root_sound_example : pos 12 ≡ leaves (index_of lawful_o1js third)
calculate_root_sound_example =
    calculate_root_sound lawful_o1js lawful pairing third levels (pos 12) leaves (omega arith)
      opened

calculate_root-update_example :
    calculate_root lawful_o1js third (pos 99) levels
    ≡ tree_root lawful_o1js 2 levels (update leaves (index_of lawful_o1js third) (pos 99))
calculate_root-update_example =
    calculate_root-update lawful_o1js lawful pairing third levels (pos 12) (pos 99) leaves
      (omega arith) opened
