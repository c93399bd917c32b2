-- ===== src/Merkle/Soundness.antt =====
-- What a witness that the circuit accepts says of the tree.
use native.Mathlib.Nat.{pow-suc}
use decentralised_treasury.Prelude.{
  ℕ, ◌+◌, ◌*◌, ◌^◌, ◌≤◌, ◌<◌, ◌≡◌, refl, sym, ap, ◌∙◌, fun_ext, List, [], ◌∷◌, String, Bool, true,
  false, length, ◌==◌, if◌then◌else◌, arith, inl, inr, Bool-cases, ==→eq, ==→ne, eq→==, ne→==,
}
use decentralised_treasury.Circuit.{O1js, FieldLaws}
use decentralised_treasury.Merkle.Witness.{
  Witness, conditional_swap, hash_pair, calculate_root, calculate_index_from, calculate_index,
}
use decentralised_treasury.Merkle.Complete.{update, parents, tree_root, index_of, CollisionFree}

module _ (o : O1js) (laws : FieldLaws o) where
  open o use {Field, of_nat}

  pub conditional_swap_lem :
      (b : Bool) (x y : Field) → conditional_swap o b x y ≡ (if b then (x, y) else (y, x))
  unfolding conditional_swap
  conditional_swap_lem true x y =
      rw (laws.one_mul (o.field_sub x y), laws.add_sub x y, laws.sub_sub x y)
  conditional_swap_lem false x y =
      rw (laws.zero_mul (o.field_sub x y), laws.add_zero y, laws.sub_zero x)

  calculate_index_from_lem :
      (w : Witness o) (power index : ℕ)
      → calculate_index_from o w (of_nat power) (of_nat index)
        ≡ of_nat (index + power * index_of o w)
  unfolding calculate_index_from index_of
  calculate_index_from_lem [] power index = ap of_nat (omega arith)
  calculate_index_from_lem ((true, s) ∷ w) power index =
      rw (laws.of_nat-mul power 2)
        (calculate_index_from_lem w (power * 2) index ∙ ap of_nat (omega arith))
  calculate_index_from_lem ((false, s) ∷ w) power index =
      rw (laws.of_nat-mul power 2, laws.of_nat-add index power)
        (calculate_index_from_lem w (power * 2) (index + power) ∙ ap of_nat (omega arith))

  -- The circuit's index is that of the witness as a number.
  pub calculate_index_lem : (w : Witness o) → calculate_index o w ≡ of_nat (index_of o w)
  unfolding calculate_index
  calculate_index_lem w = calculate_index_from_lem w 1 0 ∙ ap of_nat (omega arith)

  pub index_of-lt : (w : Witness o) → index_of o w < 2 ^ length w
  unfolding index_of
  index_of-lt [] = omega arith
  index_of-lt ((true, s) ∷ w) = rw (pow-suc 2 (length w)) (omega (arith, index_of-lt w))
  index_of-lt ((false, s) ∷ w) = rw (pow-suc 2 (length w)) (omega (arith, index_of-lt w))

  -- Replacing a left or a right child replaces the parent.
  parents-update_left :
      (p : String) (nodes : ℕ → Field) (i : ℕ) (y : Field)
      → parents o p (update nodes (0 + 2 * i) y)
        ≡ update (parents o p nodes) i (hash_pair o p (y, nodes (2 * i + 1)))
  unfolding parents
  parents-update_left p nodes i y = fun_ext λ j. elim (Bool-cases (j == i)) [
    | inl e ↦ rw (
      e,
      ==→eq j i e,
      eq→== (2 * i) (0 + 2 * i) (omega arith),
      ne→== (2 * i + 1) (0 + 2 * i) (omega arith),
    )
    | inr e ↦
        let n = ==→ne j i e in
        rw (e, ne→== (2 * j) (0 + 2 * i) (omega arith), ne→== (2 * j + 1) (0 + 2 * i) (omega arith))
  ]

  parents-update_right :
      (p : String) (nodes : ℕ → Field) (i : ℕ) (y : Field)
      → parents o p (update nodes (1 + 2 * i) y)
        ≡ update (parents o p nodes) i (hash_pair o p (nodes (2 * i), y))
  unfolding parents
  parents-update_right p nodes i y = fun_ext λ j. elim (Bool-cases (j == i)) [
    | inl e ↦ rw (
      e,
      ==→eq j i e,
      ne→== (2 * i) (1 + 2 * i) (omega arith),
      eq→== (2 * i + 1) (1 + 2 * i) (omega arith),
    )
    | inr e ↦
        let n = ==→ne j i e in
        rw (e, ne→== (2 * j) (1 + 2 * i) (omega arith), ne→== (2 * j + 1) (1 + 2 * i) (omega arith))
  ]

  module _ (collision_free : CollisionFree o) where
    opens_left :
        (p : String) (leaf s : Field) (nodes : ℕ → Field) (i : ℕ)
        → hash_pair o p (conditional_swap o true leaf s) ≡ parents o p nodes i
        → (leaf ≡ nodes (2 * i)) × (s ≡ nodes (2 * i + 1))
    unfolding parents
    opens_left p leaf s nodes i e =
        collision_free p _ _ _ _ (rw (conditional_swap_lem true leaf s) at e)

    opens_right :
        (p : String) (leaf s : Field) (nodes : ℕ → Field) (i : ℕ)
        → hash_pair o p (conditional_swap o false leaf s) ≡ parents o p nodes i
        → (s ≡ nodes (2 * i)) × (leaf ≡ nodes (2 * i + 1))
    unfolding parents
    opens_right p leaf s nodes i e =
        collision_free p _ _ _ _ (rw (conditional_swap_lem false leaf s) at e)

    -- A witness that computes the root of a tree of its height opens the tree: the leaf is the one
    -- at the witness's index. The hash of two nodes is free of collisions, the field has its laws,
    -- and there is a prefix for each level.
    pub calculate_root_sound :
        (w : Witness o) (prefixes : List String) (leaf : Field) (nodes : ℕ → Field)
        → length w ≤ length prefixes
        → calculate_root o w leaf prefixes ≡ tree_root o (length w) prefixes nodes
        → leaf ≡ nodes (index_of o w)
    unfolding calculate_root tree_root index_of
    calculate_root_sound [] prefixes leaf nodes h e = e
    calculate_root_sound ((b, s) ∷ w) [] leaf nodes h e = absurd (omega arith)
    calculate_root_sound ((true, s) ∷ w) (p ∷ prefixes) leaf nodes h e =
        let opened = calculate_root_sound w prefixes _ (parents o p nodes) (omega arith) e in
        (opens_left p leaf s nodes _ opened).0 ∙ ap nodes (omega arith)
    calculate_root_sound ((false, s) ∷ w) (p ∷ prefixes) leaf nodes h e =
        let opened = calculate_root_sound w prefixes _ (parents o p nodes) (omega arith) e in
        (opens_right p leaf s nodes _ opened).1 ∙ ap nodes (omega arith)

    -- Under the same conditions, the witness that computes a tree's root with the old leaf computes,
    -- with a new leaf, the root of the tree in which the leaf at its index is replaced.
    pub calculate_root-update :
        (w : Witness o) (prefixes : List String) (leaf leaf' : Field) (nodes : ℕ → Field)
        → length w ≤ length prefixes
        → calculate_root o w leaf prefixes ≡ tree_root o (length w) prefixes nodes
        → calculate_root o w leaf' prefixes
          ≡ tree_root o (length w) prefixes (update nodes (index_of o w) leaf')
    unfolding calculate_root tree_root index_of
    calculate_root-update [] prefixes leaf leaf' nodes h e = refl
    calculate_root-update ((b, s) ∷ w) [] leaf leaf' nodes h e = absurd (omega arith)
    calculate_root-update ((true, s) ∷ w) (p ∷ prefixes) leaf leaf' nodes h e =
        let opened = calculate_root_sound w prefixes _ (parents o p nodes) (omega arith) e in
        let sibling = (opens_left p leaf s nodes _ opened).1 in
        let next =
          calculate_root-update w prefixes _ (hash_pair o p (leaf', s)) (parents o p nodes)
            (omega arith) e in
        rw (conditional_swap_lem true leaf' s) (
          next
          ∙ ap
              (λ t.
                tree_root o (length w) prefixes
                  (update (parents o p nodes) (index_of o w) (hash_pair o p (leaf', t))))
              sibling
          ∙ ap (tree_root o (length w) prefixes)
              (sym (parents-update_left p nodes (index_of o w) leaf')))
    calculate_root-update ((false, s) ∷ w) (p ∷ prefixes) leaf leaf' nodes h e =
        let opened = calculate_root_sound w prefixes _ (parents o p nodes) (omega arith) e in
        let sibling = (opens_right p leaf s nodes _ opened).0 in
        let next =
          calculate_root-update w prefixes _ (hash_pair o p (s, leaf')) (parents o p nodes)
            (omega arith) e in
        rw (conditional_swap_lem false leaf' s) (
          next
          ∙ ap
              (λ t.
                tree_root o (length w) prefixes
                  (update (parents o p nodes) (index_of o w) (hash_pair o p (t, leaf'))))
              sibling
          ∙ ap (tree_root o (length w) prefixes)
              (sym (parents-update_right p nodes (index_of o w) leaf')))
