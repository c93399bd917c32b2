-- ===== src/Merkle/Tree.antt =====
-- `PrefixedMerkleTree`: the tree that a prover keeps in storage, with the hash of an empty subtree
-- wherever no node is stored.
pub mod Rows
pub mod Represents
pub mod Fill
mod Tests
use decentralised_treasury.Prelude.{
  ℕ, zero, suc, ◌+◌, ◌-◌, ◌*◌, ◌/◌, ◌%◌, ◌^◌, List, [], ◌∷◌, String, Bool, ◌&&◌, Option, none, some,
  ltb, leb, ◌==◌, if◌then◌else◌, length,
}
use decentralised_treasury.Circuit.{
  O1js, Result, ok, ◌>>=◌, ◌>>◌, require, leaf_index_out_of_range, too_many_leaves,
}
use decentralised_treasury.Merkle.Witness.{Witness, hash_pair}

module _ (o : O1js) where
  open o use {Field, of_nat}

  -- `MerkleTreeStorage`: the nodes by level and index.
  abbrev pub Storage : Type 0
  Storage = ℕ → ℕ → Option Field

  abbrev pub set_node : Storage → ℕ → ℕ → Field → Storage
  set_node nodes level index value l i = if l == level && i == index then some value else nodes l i

  -- What is stored at a node, or the hash of an empty subtree of its level.
  abbrev pub view : (ℕ → Field) → Storage → ℕ → ℕ → Field
  view empty nodes level index = elim (nodes level index) [ some v ↦ v | none ↦ empty level ]

  -- The loop of the constructor: the hash of an empty subtree of each level, from the given one up.
  unfoldable pub empty_nodes : ℕ → List String → Field → List Field
  empty_nodes zero prefixes node = node ∷ []
  empty_nodes (suc n) [] node = node ∷ []
  empty_nodes (suc n) (prefix ∷ prefixes) node =
      node ∷ empty_nodes n prefixes (hash_pair o prefix (node, node))

  -- `height`, `hashPrefixes` and `zeroes`; the nodes are in the storage.
  pub record PrefixedMerkleTree : Type 0 where
    pub height : ℕ
    pub hash_prefixes : List String
    pub zeroes : List Field

  unfoldable pub prefixed_merkle_tree : ℕ → Field → List String → PrefixedMerkleTree
  unfolding empty_nodes
  prefixed_merkle_tree height empty_leaf_hash hash_prefixes = record {
    height = height;
    hash_prefixes = hash_prefixes;
    zeroes = empty_nodes (height - 1) hash_prefixes empty_leaf_hash;
  }

  -- `zeroes[level]`, which is asked for levels of the tree only.
  unfoldable pub zero_at : List Field → ℕ → Field
  zero_at [] level = of_nat 0
  zero_at (node ∷ nodes) zero = node
  zero_at (node ∷ nodes) (suc level) = zero_at nodes level

  -- The loop of `setLeaf` over the levels above the node.
  unfoldable pub set_path : (ℕ → Field) → ℕ → List String → ℕ → ℕ → Storage → Storage
  set_path empty zero prefixes level index nodes = nodes
  set_path empty (suc n) [] level index nodes = nodes
  set_path empty (suc n) (prefix ∷ prefixes) level index nodes =
      let parent = index / 2 in
      let node = view empty nodes level in
      set_path empty n prefixes (level + 1) parent (
        set_node nodes (level + 1) parent
          (hash_pair o prefix (node (2 * parent), node (2 * parent + 1))))

  -- The loop of `getWitness`.
  unfoldable pub path_up : ℕ → ℕ → ℕ → (ℕ → ℕ → Field) → Witness o
  path_up zero level index node = []
  path_up (suc n) level index node =
      let is_left = (index % 2) == 0 in
      (is_left, node level (if is_left then index + 1 else index - 1))
      ∷ path_up n (level + 1) (index / 2) node

  -- The first loop of `fill`.
  unfoldable pub set_leaves : List Field → ℕ → Storage → Storage
  set_leaves [] index nodes = nodes
  set_leaves (leaf ∷ leaves) index nodes =
      set_leaves leaves (index + 1) (set_node nodes 0 index leaf)

  -- The inner loop of `fill`: the parents of one row, from the given index on.
  unfoldable pub fill_row : (ℕ → Field) → String → ℕ → ℕ → ℕ → Storage → Storage
  fill_row empty prefix zero level index nodes = nodes
  fill_row empty prefix (suc n) level index nodes =
      let node = view empty nodes level in
      fill_row empty prefix n level (index + 1) (
        set_node nodes (level + 1) index
          (hash_pair o prefix (node (2 * index), node (2 * index + 1))))

  -- The outer loop of `fill`. An empty row ends it.
  unfoldable pub fill_rows : (ℕ → Field) → ℕ → List String → ℕ → ℕ → Storage → Storage
  unfolding fill_row
  fill_rows empty zero prefixes level width nodes = nodes
  fill_rows empty (suc n) [] level width nodes = nodes
  fill_rows empty (suc n) (prefix ∷ prefixes) level width nodes =
      let parent_width = (width + 1) / 2 in
      let rest =
        fill_rows empty n prefixes (level + 1) parent_width
          (fill_row empty prefix parent_width level 0 nodes) in
      if width == 0 then nodes else rest

  module _ (tree : PrefixedMerkleTree) where
    -- `getNode`
    unfoldable pub get_node : Storage → ℕ → ℕ → Field
    unfolding zero_at
    get_node nodes level index = view (zero_at tree.zeroes) nodes level index

    unfoldable pub get_leaf : Storage → ℕ → Field
    unfolding get_node
    get_leaf nodes index = get_node nodes 0 index

    unfoldable pub get_root : Storage → Field
    unfolding get_node
    get_root nodes = get_node nodes (tree.height - 1) 0

    abbrev pub leaf_count : ℕ
    leaf_count = 2 ^ (tree.height - 1)

    unfoldable pub set_leaf : Storage → ℕ → Field → Result Storage
    unfolding set_path
    set_leaf nodes index leaf = do
      require (ltb index leaf_count) leaf_index_out_of_range
      ok (
          set_path (zero_at tree.zeroes) (tree.height - 1) tree.hash_prefixes 0 index
            (set_node nodes 0 index leaf))

    unfoldable pub get_witness : Storage → ℕ → Result (Witness o)
    unfolding path_up get_node
    get_witness nodes index = do
      require (ltb index leaf_count) leaf_index_out_of_range
      ok (path_up (tree.height - 1) 0 index (get_node nodes))

    unfoldable pub fill : Storage → List Field → Result Storage
    unfolding set_leaves fill_rows
    fill nodes leaves = do
      require (leb (length leaves) leaf_count) too_many_leaves
      ok (
          fill_rows (zero_at tree.zeroes) (tree.height - 1) tree.hash_prefixes 0 (length leaves)
            (set_leaves leaves 0 nodes))
