-- ===== src/Merkle/Tree/Tests.antt =====
-- A stored tree of four leaves.
use decentralised_treasury.Prelude.{
  ℕ, ◌≤◌, ◌<◌, ◌≡◌, ◌-◌, refl, List, [], ◌∷◌, String, none, length, arith,
}
use decentralised_treasury.Circuit.{ok, err, leaf_index_out_of_range, too_many_leaves}
use decentralised_treasury.Circuit.Integers.{ℤ, pos}
use decentralised_treasury.Circuit.Lawful.{lawful_o1js, lawful}
use decentralised_treasury.Merkle.Witness.{
  Witness, prefixed_merkle_witness, calculate_root, calculate_index,
}
use decentralised_treasury.Merkle.Complete.{update, tree_root}
use decentralised_treasury.Merkle.Tree.{
  Storage, PrefixedMerkleTree, prefixed_merkle_tree, empty_nodes, get_root, leaf_count, set_leaf,
  get_witness, fill,
}
use decentralised_treasury.Merkle.Tree.Represents.{
  Represents, empty_represents, set_leaf_sound, get_root_sound, get_witness_sound,
}
use decentralised_treasury.Merkle.Tree.Fill.{get_or, fill_sound}

abbrev prefixes : List String
prefixes = "low" ∷ "high" ∷ []

abbrev tree : PrefixedMerkleTree lawful_o1js
tree = record {
  height = 3;
  hash_prefixes = prefixes;
  zeroes = empty_nodes lawful_o1js 2 prefixes (pos 7);
}

made : prefixed_merkle_tree lawful_o1js 3 (pos 7) prefixes ≡ tree
unfolding prefixed_merkle_tree
made = refl

abbrev no_nodes : Storage lawful_o1js
no_nodes l i = none

abbrev sevens : ℕ → ℤ
sevens i = pos 7

start : Represents lawful_o1js tree no_nodes sevens
unfolding prefixed_merkle_tree
start = empty_represents lawful_o1js 3 (pos 7) prefixes (omega arith)

set_leaf_sound_example :
    (nodes : Storage lawful_o1js) × (set_leaf lawful_o1js tree no_nodes 2 (pos 9) ≡ ok nodes)
    × Represents lawful_o1js tree nodes (update sevens 2 (pos 9))
set_leaf_sound_example =
    set_leaf_sound lawful_o1js tree no_nodes sevens start 2 (pos 9) (omega arith)

start_root :
    get_root lawful_o1js tree no_nodes ≡ tree_root lawful_o1js (tree.height - 1) prefixes sevens
start_root = get_root_sound lawful_o1js tree no_nodes sevens start

get_witness_sound_example :
    (w : Witness lawful_o1js) × (get_witness lawful_o1js tree no_nodes 3 ≡ ok w)
    × (prefixed_merkle_witness lawful_o1js 3 w ≡ ok w)
    × (calculate_root lawful_o1js w (pos 7) prefixes ≡ get_root lawful_o1js tree no_nodes)
    × (calculate_index lawful_o1js w ≡ pos 3)
get_witness_sound_example =
    get_witness_sound lawful_o1js tree no_nodes sevens start lawful 3 (omega arith) (omega arith)

-- An index beyond the leaves is refused.
out_of_range :
    (set_leaf lawful_o1js tree no_nodes 4 (pos 9) ≡ err leaf_index_out_of_range)
    × (get_witness lawful_o1js tree no_nodes 4 ≡ err leaf_index_out_of_range)
unfolding set_leaf get_witness
out_of_range = (refl, refl)

abbrev three : List ℤ
three = pos 1 ∷ pos 2 ∷ pos 3 ∷ []

fill_sound_example :
    (length three ≤ leaf_count lawful_o1js tree
      → (nodes : Storage lawful_o1js) × (fill lawful_o1js tree no_nodes three ≡ ok nodes)
        × Represents lawful_o1js tree nodes (λ i. get_or three i (pos 7)))
    × (leaf_count lawful_o1js tree < length three
        → fill lawful_o1js tree no_nodes three ≡ err too_many_leaves)
fill_sound_example = fill_sound lawful_o1js tree no_nodes sevens three start
