-- ===== src/Merkle/Tree/Represents.antt =====
-- A stored tree stands for a function from indices to leaves.
use decentralised_treasury.Prelude.{
  ℕ, zero, suc, ◌+◌, ◌-◌, ◌≤◌, ◌<◌, ◌≡◌, refl, sym, ap, fun_ext, ◌∙◌, List, [], ◌∷◌, String, none,
  length, arith, lt→ltb,
}
use decentralised_treasury.Circuit.{O1js, FieldLaws, ok}
use decentralised_treasury.Merkle.Witness.{
  Witness, hash_pair, prefixed_merkle_witness, calculate_root, calculate_index,
}
use decentralised_treasury.Merkle.Complete.{update, tree_root}
use decentralised_treasury.Merkle.Soundness.{calculate_index_lem}
use decentralised_treasury.Merkle.Tree.{
  Storage, PrefixedMerkleTree, prefixed_merkle_tree, empty_nodes, zero_at, set_node, view, set_path,
  path_up, get_node, get_root, leaf_count, set_leaf, get_witness,
}
use decentralised_treasury.Merkle.Tree.Rows.{
  Consistent, root-Consistent, Consistent-Almost, set_path-Consistent, view-set_node,
  view-set_node_other, path_up-opens,
}

module _ (o : O1js) where
  open o use {Field, of_nat}

  -- Every stored row is made of the one below, and the bottom row holds the leaves.
  pub record Represents (tree : PrefixedMerkleTree o) (nodes : Storage o) (leaves : ℕ → Field)
      : Type 0 where
    pub rows :
        Consistent o (tree.height - 1) tree.hash_prefixes 0 (view o (zero_at o tree.zeroes) nodes)
    pub leaf : (i : ℕ) → view o (zero_at o tree.zeroes) nodes 0 i ≡ leaves i

  zero_at-empty_nodes :
      (n : ℕ) (prefixes : List String) (node : Field)
      → zero_at o (empty_nodes o n prefixes node) 0 ≡ node
  unfolding zero_at empty_nodes
  zero_at-empty_nodes zero prefixes node = refl
  zero_at-empty_nodes (suc n) [] node = refl
  zero_at-empty_nodes (suc n) (prefix ∷ prefixes) node = refl

  empty-Consistent :
      (n : ℕ) (prefixes : List String) (node : Field) (level : ℕ) (f : ℕ → Field)
      → n ≤ length prefixes
      → ((k l : ℕ) → l ≡ level + k → f l ≡ zero_at o (empty_nodes o n prefixes node) k)
      → Consistent o n prefixes level (λ l i. f l)
  unfolding zero_at empty_nodes
  empty-Consistent zero prefixes node level f h same = tt
  empty-Consistent (suc n) [] node level f h same = absurd (omega arith)
  empty-Consistent (suc n) (prefix ∷ prefixes) node level f h same =
      let above = hash_pair o prefix (node, node) in
      (
        (λ i.
            rw (same zero level (omega arith))
              (same (suc zero) (level + 1) (omega arith) ∙ zero_at-empty_nodes n prefixes above)),
        empty-Consistent n prefixes above (level + 1) f (omega arith)
            (λ k l e. same (suc k) l (omega arith)),
      )

  -- A new tree over empty storage holds the empty leaf everywhere. It has a prefix for each level.
  pub empty_represents :
      (height : ℕ) (empty_leaf_hash : Field) (prefixes : List String)
      → height - 1 ≤ length prefixes
      → Represents
          (prefixed_merkle_tree o height empty_leaf_hash prefixes)
          (λ l i. none)
          (λ i. empty_leaf_hash)
  unfolding prefixed_merkle_tree
  empty_represents height empty_leaf_hash prefixes h =
      let nodes = empty_nodes o (height - 1) prefixes empty_leaf_hash in
      record {
        rows =
            empty-Consistent (height - 1) prefixes empty_leaf_hash 0 (zero_at o nodes) h
              (λ k l e. ap (zero_at o nodes) (omega arith));
        leaf = λ i. zero_at-empty_nodes (height - 1) prefixes empty_leaf_hash;
      }

  module _ (tree : PrefixedMerkleTree o) (nodes : Storage o) (leaves : ℕ → Field)
      (r : Represents tree nodes leaves) where
    -- When the storage represents a function from indices to leaves, `getRoot` is the root of the
    -- complete tree over those leaves.
    pub get_root_sound :
        get_root o tree nodes ≡ tree_root o (tree.height - 1) tree.hash_prefixes leaves
    unfolding get_root get_node
    get_root_sound =
        ap (λ l. view o (zero_at o tree.zeroes) nodes l 0) (omega arith)
        ∙ root-Consistent o (tree.height - 1) tree.hash_prefixes 0
            (view o (zero_at o tree.zeroes) nodes) r.rows
        ∙ ap (tree_root o (tree.height - 1) tree.hash_prefixes) (fun_ext r.leaf)

    -- When the storage represents a function from indices to leaves, `setLeaf` at an index of the tree
    -- succeeds, and the new storage represents that function with the one leaf replaced.
    pub set_leaf_sound :
        (index : ℕ) (leaf : Field)
        → index < leaf_count o tree
        → (nodes' : Storage o) × (set_leaf o tree nodes index leaf ≡ ok nodes')
          × Represents tree nodes' (update leaves index leaf)
    unfolding set_leaf
    set_leaf_sound index leaf h =
        let empty = zero_at o tree.zeroes in
        let n = tree.height - 1 in
        let written = set_node o nodes 0 index leaf in
        let almost =
          Consistent-Almost o n tree.hash_prefixes 0 index (view o empty nodes)
            (view o empty written) r.rows
            (λ l i low other. view-set_node_other o empty nodes 0 index leaf l i other) in
        let (above, below) =
          set_path-Consistent o empty n tree.hash_prefixes 0 index written almost in
        (
          set_path o empty n tree.hash_prefixes 0 index written,
          rw (lt→ltb index (leaf_count o tree) h),
          record {
            rows = above;
            leaf = λ i.
                below 0 i (omega arith)
                ∙ view-set_node o empty nodes 0 index leaf 0 i
                ∙ rw (r.leaf i) refl;
          },
        )

    -- When the storage represents some leaves, the field laws hold and the height is positive,
    -- `getWitness` at an index of the tree gives a witness of the tree's height, from which the circuit
    -- computes the tree's root for the leaf that is there, and the index.
    pub get_witness_sound :
        FieldLaws o
        → (index : ℕ) → 0 < tree.height
        → index < leaf_count o tree
        → (w : Witness o) × (get_witness o tree nodes index ≡ ok w)
          × (prefixed_merkle_witness o tree.height w ≡ ok w)
          × (calculate_root o w (leaves index) tree.hash_prefixes ≡ get_root o tree nodes)
          × (calculate_index o w ≡ of_nat index)
    unfolding get_witness get_root get_node prefixed_merkle_witness
    get_witness_sound laws index pos h =
        let n = tree.height - 1 in
        let node = view o (zero_at o tree.zeroes) nodes in
        let w = path_up o n 0 index node in
        let (root, indexed, long) =
          path_up-opens o laws n tree.hash_prefixes 0 index node r.rows h in
        (
          w,
          rw (lt→ltb index (leaf_count o tree) h),
          ground (arith, long),
          ap (λ leaf. calculate_root o w leaf tree.hash_prefixes) (sym (r.leaf index))
              ∙ root
              ∙ ap (λ l. node l 0) (omega arith),
          calculate_index_lem o laws w ∙ ap of_nat indexed,
        )
