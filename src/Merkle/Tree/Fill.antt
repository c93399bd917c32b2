-- ===== src/Merkle/Tree/Fill.antt =====
-- `fill` against the leaves that it is given.
use decentralised_treasury.Prelude.{
  ℕ, zero, suc, ◌+◌, ◌-◌, ◌*◌, ◌/◌, ◌≤◌, ◌<◌, ◌≡◌, ◌≢◌, refl, sym, ap, ◌∙◌, List, [], ◌∷◌, String,
  ◌⊎◌, inl, inr, length, ltb, ◌==◌, arith, le→leb, Bool-cases, ==→eq, ==→ne, eq→==,
}
use decentralised_treasury.Circuit.{O1js, ok, err, too_many_leaves}
use decentralised_treasury.Merkle.Witness.{hash_pair}
use decentralised_treasury.Merkle.Tree.{
  Storage, PrefixedMerkleTree, zero_at, set_node, view, set_leaves, fill_row, fill_rows, leaf_count,
  fill,
}
use decentralised_treasury.Merkle.Tree.Rows.{
  View, Consistent, Consistent-agree, view-set_node, view-set_node_other,
}
use decentralised_treasury.Merkle.Tree.Represents.{Represents}

-- The element of a list at an index, or another value beyond its end.
abbrev pub get_or {ℓ} : {A : Type ℓ} → List A → ℕ → A → A
get_or [] i d = d
get_or (x ∷ xs) zero d = x
get_or (x ∷ xs) (suc i) d = get_or xs i d

get_or_head {ℓ} :
    {A : Type ℓ} (x : A) (xs : List A) (i : ℕ) (d : A) → i ≡ 0 → get_or (x ∷ xs) i d ≡ x
get_or_head x xs zero d h = refl
get_or_head x xs (suc i) d h = absurd (omega arith)

get_or_tail {ℓ} :
    {A : Type ℓ} (x : A) (xs : List A) (i k : ℕ) (d : A)
    → i ≡ k + 1
    → get_or (x ∷ xs) i d ≡ get_or xs k d
get_or_tail x xs zero k d h = absurd (omega arith)
get_or_tail x xs (suc i) k d h = let same : i ≡ k = omega arith in rw same refl

get_or_beyond {ℓ} : {A : Type ℓ} (xs : List A) (i : ℕ) (d : A) → length xs ≤ i → get_or xs i d ≡ d
get_or_beyond [] i d h = refl
get_or_beyond (x ∷ xs) zero d h = absurd (omega arith)
get_or_beyond (x ∷ xs) (suc i) d h = get_or_beyond xs i d (omega arith)

module _ (o : O1js) (empty : ℕ → o.Field) where
  open o use {Field}

  set_leaves_other :
      (leaves : List Field) (index : ℕ) (nodes : Storage o) (l i : ℕ)
      → (0 < l) ⊎ (i < index)
      → view o empty (set_leaves o leaves index nodes) l i ≡ view o empty nodes l i
  unfolding set_leaves
  set_leaves_other [] index nodes l i h = refl
  set_leaves_other (leaf ∷ leaves) index nodes l i h =
      set_leaves_other leaves (index + 1) (set_node o nodes 0 index leaf) l i (ground arith)
      ∙ view-set_node_other o empty nodes 0 index leaf l i (ground arith)

  set_leaves_lem :
      (leaves : List Field) (index : ℕ) (nodes : Storage o) (i : ℕ)
      → index ≤ i
      → view o empty (set_leaves o leaves index nodes) 0 i
        ≡ get_or leaves (i - index) (view o empty nodes 0 i)
  unfolding set_leaves
  set_leaves_lem [] index nodes i h = refl
  set_leaves_lem (leaf ∷ leaves) index nodes i h =
      let written = set_node o nodes 0 index leaf in
      elim (Bool-cases (i == index)) [
        | inl e ↦
            let same = ==→eq i index e in
            set_leaves_other leaves (index + 1) written 0 i (inr (omega arith))
            ∙ view-set_node o empty nodes 0 index leaf 0 i
            ∙ rw e
                (sym (get_or_head leaf leaves (i - index) (view o empty nodes 0 i) (omega arith)))
        | inr e ↦
            let other = ==→ne i index e in
            set_leaves_lem leaves (index + 1) written i (omega arith)
            ∙ ap (get_or leaves (i - (index + 1)))
                (view-set_node_other o empty nodes 0 index leaf 0 i (inr other))
            ∙ sym (
                get_or_tail leaf leaves (i - index) (i - (index + 1)) (view o empty nodes 0 i)
                  (omega arith))
      ]

  -- The nodes above the leaves, and the leaves beyond the list, stay.
  set_leaves_beyond :
      (leaves : List Field) (nodes : Storage o) (l i : ℕ)
      → (l ≢ 0) ⊎ (length leaves ≤ i)
      → view o empty (set_leaves o leaves 0 nodes) l i ≡ view o empty nodes l i
  set_leaves_beyond leaves nodes zero i h =
      set_leaves_lem leaves 0 nodes i (omega arith)
      ∙ get_or_beyond leaves (i - 0) (view o empty nodes 0 i) (omega (arith, h))
  set_leaves_beyond leaves nodes (suc l) i h =
      set_leaves_other leaves 0 nodes (suc l) i (inl (omega arith))

  -- The inner loop writes the parents of a range of a row, and nothing else.
  fill_row_other :
      (prefix : String) (n level index : ℕ) (nodes : Storage o) (l i : ℕ)
      → (l ≢ level + 1) ⊎ ((i < index) ⊎ (index + n ≤ i))
      → view o empty (fill_row o empty prefix n level index nodes) l i ≡ view o empty nodes l i
  unfolding fill_row
  fill_row_other prefix zero level index nodes l i h = refl
  fill_row_other prefix (suc n) level index nodes l i h =
      let node = view o empty nodes level in
      let value = hash_pair o prefix (node (2 * index), node (2 * index + 1)) in
      fill_row_other prefix n level (index + 1) (set_node o nodes (level + 1) index value) l i
        (ground arith)
      ∙ view-set_node_other o empty nodes (level + 1) index value l i (ground arith)

  fill_row_lem :
      (prefix : String) (n level index : ℕ) (nodes : Storage o) (i : ℕ)
      → index ≤ i
      → i < index + n
      → view o empty (fill_row o empty prefix n level index nodes) (level + 1) i
        ≡ hash_pair o prefix
            (view o empty nodes level (2 * i), view o empty nodes level (2 * i + 1))
  unfolding fill_row
  fill_row_lem prefix zero level index nodes i low high = absurd (omega arith)
  fill_row_lem prefix (suc n) level index nodes i low high =
      let node = view o empty nodes level in
      let value = hash_pair o prefix (node (2 * index), node (2 * index + 1)) in
      let written = set_node o nodes (level + 1) index value in
      elim (Bool-cases (i == index)) [
        | inl e ↦
            let same = ==→eq i index e in
            fill_row_other prefix n level (index + 1) written (level + 1) i
              (inr (inl (omega arith)))
            ∙ view-set_node o empty nodes (level + 1) index value (level + 1) i
            ∙ rw (eq→== (level + 1) (level + 1) refl, e) (rw same refl)
        | inr e ↦
            let other = ==→ne i index e in
            let kept = λ (j : ℕ).
              view-set_node_other o empty nodes (level + 1) index value level j
                (inl (omega arith)) in
            fill_row_lem prefix n level (index + 1) written i (omega arith) (omega arith)
            ∙ rw (kept (2 * i), kept (2 * i + 1)) refl
      ]

  -- The rows, but for the parents of the first nodes of the lowest one.
  abbrev Partial : ℕ → List String → ℕ → ℕ → View o → Type 0
  Partial zero prefixes level width node = Unit {0}
  Partial (suc n) [] level width node = ⊥
  Partial (suc n) (prefix ∷ prefixes) level width node =
      ((i : ℕ)
        → width ≤ 2 * i
        → node (level + 1) i ≡ hash_pair o prefix (node level (2 * i), node level (2 * i + 1)))
      × Consistent o n prefixes (level + 1) node

  Consistent-Partial :
      (n : ℕ) (prefixes : List String) (level width : ℕ) (node node' : View o)
      → Consistent o n prefixes level node
      → ((l i : ℕ) → level ≤ l → (l ≢ level) ⊎ (width ≤ i) → node' l i ≡ node l i)
      → Partial n prefixes level width node'
  Consistent-Partial zero prefixes level width node node' c same = tt
  Consistent-Partial (suc n) [] level width node node' c same = c
  Consistent-Partial (suc n) (prefix ∷ prefixes) level width node node' (row, c) same = (
    (λ i beyond.
        rw
          (
            same (level + 1) i (omega arith) (inl (omega arith)),
            same level (2 * i) (omega arith) (inr (omega arith)),
            same level (2 * i + 1) (omega arith) (inr (omega arith)),
          )
          (row i)),
    Consistent-agree o n prefixes (level + 1) node node'
        (λ l i h. same l i (omega arith) (inl (omega arith))) c,
  )

  -- The loop over the rows completes them, and leaves the lowest one.
  fill_rows-Consistent :
      (n : ℕ) (prefixes : List String) (level width : ℕ) (nodes : Storage o)
      → Partial n prefixes level width (view o empty nodes)
      → Consistent o n prefixes level
          (view o empty (fill_rows o empty n prefixes level width nodes))
        × ((l i : ℕ)
            → l ≤ level
            → view o empty (fill_rows o empty n prefixes level width nodes) l i
              ≡ view o empty nodes l i)
  unfolding fill_rows
  fill_rows-Consistent zero prefixes level width nodes p = (tt, λ l i h. refl)
  fill_rows-Consistent (suc n) [] level width nodes p = elim p [ ]
  fill_rows-Consistent (suc n) (prefix ∷ prefixes) level width nodes (row, c) =
      let parents = (width + 1) / 2 in
      let written = fill_row o empty prefix parents level 0 nodes in
      let other = fill_row_other prefix parents level 0 nodes in
      let part =
        Consistent-Partial n prefixes (level + 1) parents (view o empty nodes)
          (view o empty written) c (λ l i low away. other l i (ground arith)) in
      let (above, below) = fill_rows-Consistent n prefixes (level + 1) parents written part in
      let kept = λ (j : ℕ). below level j (omega arith) ∙ other level j (inl (omega arith)) in
      let made = λ (i : ℕ).
        elim (Bool-cases (ltb i parents))
          as (λ _.
            view o empty written (level + 1) i
            ≡ hash_pair o prefix
                (view o empty nodes level (2 * i), view o empty nodes level (2 * i + 1))) [
                  | inl e ↦ fill_row_lem prefix parents level 0 nodes i (omega arith) (ground arith)
                  | inr e ↦ other (level + 1) i (inr (inr (ground arith))) ∙ row i (ground arith)
                ] in
      elim (Bool-cases (width == 0)) [
        | inl e ↦ rw e (((λ i. row i (ground arith)), c), λ l i h. refl)
        | inr e ↦ rw e (
          (
            (λ i. rw (kept (2 * i), kept (2 * i + 1)) (below (level + 1) i (omega arith) ∙ made i)),
            above,
          ),
          (λ l i h. below l i (omega arith) ∙ other l i (inl (omega arith))),
        )
      ]

-- On a storage that represents some leaves, `fill` with no more leaves than the tree has replaces the first leaves by the ones given, and
-- makes a tree of them and of the leaves that were there beyond them; with more leaves it is refused.
pub fill_sound :
    (o : O1js) (tree : PrefixedMerkleTree o) (nodes : Storage o) (before : ℕ → o.Field)
    (leaves : List o.Field)
    → Represents o tree nodes before
    → (length leaves ≤ leaf_count o tree
        → (nodes' : Storage o) × (fill o tree nodes leaves ≡ ok nodes')
          × Represents o tree nodes' (λ i. get_or leaves i (before i)))
      × (leaf_count o tree < length leaves → fill o tree nodes leaves ≡ err too_many_leaves)
unfolding fill
fill_sound o tree nodes before leaves r = (
  (λ h.
      let empty = zero_at o tree.zeroes in
      let n = tree.height - 1 in
      let written = set_leaves o leaves 0 nodes in
      let part =
        Consistent-Partial o empty n tree.hash_prefixes 0 (length leaves) (view o empty nodes)
          (view o empty written) r.rows
          (λ l i low away. set_leaves_beyond o empty leaves nodes l i away) in
      let (above, below) =
        fill_rows-Consistent o empty n tree.hash_prefixes 0 (length leaves) written part in
      (
        fill_rows o empty n tree.hash_prefixes 0 (length leaves) written,
        rw (le→leb (length leaves) (leaf_count o tree) h),
        record {
          rows = above;
          leaf = λ i.
              below 0 i (omega arith)
              ∙ set_leaves_lem o empty leaves 0 nodes i (omega arith)
              ∙ ap (λ k. get_or leaves k (view o empty nodes 0 i)) (omega arith)
              ∙ ap (get_or leaves i) (r.leaf i);
        },
      )),
  (λ h. ground arith),
)
