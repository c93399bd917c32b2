-- ===== src/Merkle/Complete.antt =====
-- The complete tree over a function from indices to leaves, which the witnesses speak of.
use decentralised_treasury.Prelude.{
  ℕ, zero, suc, ◌+◌, ◌*◌, ◌≡◌, List, [], ◌∷◌, String, ◌==◌, if◌then◌else◌,
}
use decentralised_treasury.Circuit.{O1js}
use decentralised_treasury.Merkle.Witness.{Witness, hash_pair}

-- A function with one value replaced.
abbrev pub update {ℓ} : {A : Type ℓ} → (ℕ → A) → ℕ → A → ℕ → A
update f i v j = if j == i then v else f j

module _ (o : O1js) where
  open o use {Field}

  -- The parents of a row of nodes.
  unfoldable pub parents : String → (ℕ → Field) → ℕ → Field
  parents prefix nodes i = hash_pair o prefix (nodes (2 * i), nodes (2 * i + 1))

  -- The root above the given number of levels.
  unfoldable pub tree_root : ℕ → List String → (ℕ → Field) → Field
  tree_root zero prefixes nodes = nodes 0
  tree_root (suc n) [] nodes = nodes 0
  tree_root (suc n) (prefix ∷ prefixes) nodes = tree_root n prefixes (parents prefix nodes)

  -- The index of a witness as a number, the lowest bit first.
  unfoldable pub index_of : Witness o → ℕ
  index_of [] = 0
  index_of ((is_left, sibling) ∷ rest) = (if is_left then 0 else 1) + 2 * index_of rest

-- The collision resistance of the hash of two nodes.
abbrev pub CollisionFree : O1js → Type 0
CollisionFree o =
    (prefix : String) (a b c d : o.Field)
    → hash_pair o prefix (a, b) ≡ hash_pair o prefix (c, d)
    → (a ≡ c) × (b ≡ d)
