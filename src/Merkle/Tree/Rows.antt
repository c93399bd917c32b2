-- ===== src/Merkle/Tree/Rows.antt =====
-- The rows of a stored tree as functions of the index: each row is the parents of the one below.
use native.Mathlib.Nat.{pow-suc}
use decentralised_treasury.Prelude.{
  ℕ, zero, suc, ◌+◌, ◌-◌, ◌*◌, ◌/◌, ◌%◌, ◌^◌, ◌≤◌, ◌<◌, ◌≡◌, ◌≢◌, refl, ap, fun_ext, ◌∙◌, List, [],
  ◌∷◌, String, true, false, ◌&&◌, ◌⊎◌, length, ◌==◌, if◌then◌else◌, arith, inl, inr, Bool-cases,
  eq→==, ==→eq, ==→ne,
}
use decentralised_treasury.Circuit.{O1js, FieldLaws}
use decentralised_treasury.Merkle.Witness.{conditional_swap, hash_pair, calculate_root}
use decentralised_treasury.Merkle.Complete.{parents, tree_root, index_of}
use decentralised_treasury.Merkle.Soundness.{conditional_swap_lem}
use decentralised_treasury.Merkle.Tree.{Storage, set_node, view, set_path, path_up}

module _ (o : O1js) where
  open o use {Field}

  -- What a reader sees at a level and an index.
  abbrev pub View : Type 0
  View = ℕ → ℕ → Field

  -- The rows above the given level, as many as there are rounds, each made of the one below.
  abbrev pub Consistent : ℕ → List String → ℕ → View → Type 0
  Consistent zero prefixes level node = Unit {0}
  Consistent (suc n) [] level node = ⊥
  Consistent (suc n) (prefix ∷ prefixes) level node =
      ((i : ℕ)
        → node (level + 1) i ≡ hash_pair o prefix (node level (2 * i), node level (2 * i + 1)))
      × Consistent n prefixes (level + 1) node

  row-eq-parents :
      (prefix : String) (level : ℕ) (node : View)
      → ((i : ℕ)
          → node (level + 1) i ≡ hash_pair o prefix (node level (2 * i), node level (2 * i + 1)))
      → (i : ℕ) → node (level + 1) i ≡ parents o prefix (node level) i
  unfolding parents
  row-eq-parents prefix level node h i = h i

  -- The node at the top is the root of the row at the bottom.
  pub root-Consistent :
      (n : ℕ) (prefixes : List String) (level : ℕ) (node : View)
      → Consistent n prefixes level node
      → node (level + n) 0 ≡ tree_root o n prefixes (node level)
  unfolding tree_root
  root-Consistent zero prefixes level node c = ap (λ l. node l 0) (omega arith)
  root-Consistent (suc n) [] level node c = elim c [ ]
  root-Consistent (suc n) (prefix ∷ prefixes) level node (row, c) =
      ap (λ l. node l 0) (omega arith)
      ∙ root-Consistent n prefixes (level + 1) node c
      ∙ ap (tree_root o n prefixes) (fun_ext (row-eq-parents prefix level node row))

  -- Two views that agree from a level on.
  pub Consistent-agree :
      (n : ℕ) (prefixes : List String) (level : ℕ) (node node' : View)
      → ((l i : ℕ) → level ≤ l → node' l i ≡ node l i)
      → Consistent n prefixes level node
      → Consistent n prefixes level node'
  Consistent-agree zero prefixes level node node' same c = tt
  Consistent-agree (suc n) [] level node node' same c = c
  Consistent-agree (suc n) (prefix ∷ prefixes) level node node' same (row, c) = (
    (λ i.
        rw
          (
            same (level + 1) i (omega arith),
            same level (2 * i) (omega arith),
            same level (2 * i + 1) (omega arith),
          )
          (row i)),
    Consistent-agree n prefixes (level + 1) node node' (λ l i h. same l i (omega arith)) c,
  )

  -- A row and the rows above it, but for one node of the row above.
  abbrev pub Almost : ℕ → List String → ℕ → ℕ → View → Type 0
  Almost zero prefixes level index node = Unit {0}
  Almost (suc n) [] level index node = ⊥
  Almost (suc n) (prefix ∷ prefixes) level index node =
      ((i : ℕ)
        → i ≢ index / 2
        → node (level + 1) i ≡ hash_pair o prefix (node level (2 * i), node level (2 * i + 1)))
      × Consistent n prefixes (level + 1) node

  -- One changed node leaves all the rows but its parent.
  pub Consistent-Almost :
      (n : ℕ) (prefixes : List String) (level index : ℕ) (node node' : View)
      → Consistent n prefixes level node
      → ((l i : ℕ) → level ≤ l → (l ≢ level) ⊎ (i ≢ index) → node' l i ≡ node l i)
      → Almost n prefixes level index node'
  Consistent-Almost zero prefixes level index node node' c same = tt
  Consistent-Almost (suc n) [] level index node node' c same = c
  Consistent-Almost (suc n) (prefix ∷ prefixes) level index node node' (row, c) same = (
    (λ i other.
        rw
          (
            same (level + 1) i (omega arith) (inl (omega arith)),
            same level (2 * i) (omega arith) (inr (omega arith)),
            same level (2 * i + 1) (omega arith) (inr (omega arith)),
          )
          (row i)),
    Consistent-agree n prefixes (level + 1) node node'
        (λ l i h. same l i (omega arith) (inl (omega arith))) c,
  )

  module _ (empty : ℕ → Field) where
    pub view-set_node :
        (nodes : Storage o) (level index : ℕ) (value : Field) (l i : ℕ)
        → view o empty (set_node o nodes level index value) l i
          ≡ (if l == level && i == index then value else view o empty nodes l i)
    view-set_node nodes level index value l i = ground arith

    pub view-set_node_other :
        (nodes : Storage o) (level index : ℕ) (value : Field) (l i : ℕ)
        → (l ≢ level) ⊎ (i ≢ index)
        → view o empty (set_node o nodes level index value) l i ≡ view o empty nodes l i
    view-set_node_other nodes level index value l i h = ground arith

    -- The parent that the loop writes belongs to its children.
    mended_row :
        (prefix : String) (level index : ℕ) (nodes : Storage o)
        → ((i : ℕ)
            → i ≢ index / 2
            → view o empty nodes (level + 1) i
              ≡ hash_pair o prefix
                  (view o empty nodes level (2 * i), view o empty nodes level (2 * i + 1)))
        → (i : ℕ)
        → view o empty
            (set_node o nodes (level + 1) (index / 2) (
              hash_pair o prefix (
                view o empty nodes level (2 * (index / 2)),
                view o empty nodes level (2 * (index / 2) + 1),
              )))
            (level + 1)
            i
          ≡ hash_pair o prefix
              (view o empty nodes level (2 * i), view o empty nodes level (2 * i + 1))
    mended_row prefix level index nodes row i =
        let node = view o empty nodes level in
        let value = hash_pair o prefix (node (2 * (index / 2)), node (2 * (index / 2) + 1)) in
        elim (Bool-cases (i == index / 2)) [
          | inl e ↦
              view-set_node nodes (level + 1) (index / 2) value (level + 1) i
              ∙ rw (eq→== (level + 1) (level + 1) refl, e) (rw (==→eq i (index / 2) e) refl)
          | inr e ↦
              view-set_node_other nodes (level + 1) (index / 2) value (level + 1) i
                (inr (==→ne i (index / 2) e))
              ∙ row i (==→ne i (index / 2) e)
        ]

    -- The loop of `setLeaf` mends the rows above the node, and leaves its row and those below.
    pub set_path-Consistent :
        (n : ℕ) (prefixes : List String) (level index : ℕ) (nodes : Storage o)
        → Almost n prefixes level index (view o empty nodes)
        → Consistent n prefixes level (view o empty (set_path o empty n prefixes level index nodes))
          × ((l i : ℕ)
              → l ≤ level
              → view o empty (set_path o empty n prefixes level index nodes) l i
                ≡ view o empty nodes l i)
    unfolding set_path
    set_path-Consistent zero prefixes level index nodes a = (tt, λ l i h. refl)
    set_path-Consistent (suc n) [] level index nodes a = elim a [ ]
    set_path-Consistent (suc n) (prefix ∷ prefixes) level index nodes (row, c) =
        let parent = index / 2 in
        let node = view o empty nodes level in
        let value = hash_pair o prefix (node (2 * parent), node (2 * parent + 1)) in
        let nodes' = set_node o nodes (level + 1) parent value in
        let almost =
          Consistent-Almost n prefixes (level + 1) parent (view o empty nodes) (view o empty nodes')
            c (λ l i h other. view-set_node_other nodes (level + 1) parent value l i other) in
        let (above, below) = set_path-Consistent n prefixes (level + 1) parent nodes' almost in
        let unchanged = λ (j : ℕ).
          below level j (omega arith)
          ∙ view-set_node_other nodes (level + 1) parent value level j (inl (omega arith)) in
        (
          (
            (λ i.
                rw (unchanged (2 * i), unchanged (2 * i + 1))
                  (below (level + 1) i (omega arith) ∙ mended_row prefix level index nodes row i)),
            above,
          ),
          (λ l i h.
              below l i (omega arith)
              ∙ view-set_node_other nodes (level + 1) parent value l i (inl (omega arith))),
        )

  module _ (laws : FieldLaws o) where
    -- One step of a witness computes the parent.
    witness_step :
        (prefix : String) (level index : ℕ) (node : View)
        → ((i : ℕ)
            → node (level + 1) i ≡ hash_pair o prefix (node level (2 * i), node level (2 * i + 1)))
        → hash_pair o prefix (
            conditional_swap o
              ((index % 2) == 0)
              (node level index)
              (node level (if (index % 2) == 0 then index + 1 else index - 1)))
          ≡ node (level + 1) (index / 2)
    witness_step prefix level index node row = elim (Bool-cases ((index % 2) == 0)) [
      | inl e ↦
          let half : 2 * (index / 2) ≡ index = ground arith in
          rw (e, conditional_swap_lem o laws true, row (index / 2), half) refl
      | inr e ↦
          let half : 2 * (index / 2) ≡ index - 1 = ground arith in
          let next : index - 1 + 1 ≡ index = ground arith in
          rw (e, conditional_swap_lem o laws false, row (index / 2), half, next) refl
    ]

    -- The witness of an index computes the node at the top, and the index.
    pub path_up-opens :
        (n : ℕ) (prefixes : List String) (level index : ℕ) (node : View)
        → Consistent n prefixes level node
        → index < 2 ^ n
        → (calculate_root o (path_up o n level index node) (node level index) prefixes
            ≡ node (level + n) 0)
          × (index_of o (path_up o n level index node) ≡ index)
          × (length (path_up o n level index node) ≡ n)
    unfolding path_up calculate_root index_of
    path_up-opens zero prefixes level index node c h =
        let first : index ≡ 0 = omega arith in
        (ap (node level) first ∙ ap (λ l. node l 0) (omega arith), omega arith, refl)
    path_up-opens (suc n) [] level index node c h = elim c [ ]
    path_up-opens (suc n) (prefix ∷ prefixes) level index node (row, c) h =
        let small : index / 2 < 2 ^ n = omega (arith, pow-suc 2 n) in
        let (root, indexed, long) = path_up-opens n prefixes (level + 1) (index / 2) node c small in
        (
          ap (λ hash. calculate_root o (path_up o n (level + 1) (index / 2) node) hash prefixes)
                (witness_step prefix level index node row)
              ∙ root
              ∙ ap (λ l. node l 0) (omega arith),
          rw indexed (ground arith),
          omega (arith, long),
        )
