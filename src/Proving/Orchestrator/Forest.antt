-- ===== src/Proving/Orchestrator/Forest.antt =====
-- Sums over the pending list, and what taking a pair out of it leaves.
use decentralised_treasury.Prelude.{
  ℕ, zero, suc, ◌+◌, ◌-◌, ◌<◌, ◌≡◌, ◌≢◌, refl, sym, ap, ◌∙◌, inl, inr, List, [], ◌∷◌, ◌++◌, Bool,
  true, none, some, leb, ltb, ◌==◌, length, get_elem?, arith, Bool-cases, Option-cases, ==→eq,
}
use mathlib.Core.Path.{subst}
use mathlib.Core.Option.{some-injective}
use decentralised_treasury.Proving.Finder.{
  Fragment, Pairing, insert, sort, arrange, find_position, find_pair, find_mergeable_proofs,
}
use decentralised_treasury.Proving.Orchestrator.{remove_at, splice_pair}

module _ {A : Type 0} (w : A → ℕ) where
  abbrev pub total : List A → ℕ
  total [] = 0
  total (x ∷ xs) = w x + total xs

  pub total-append : (xs ys : List A) → total (xs ++ ys) ≡ total xs + total ys
  total-append [] ys = omega arith
  total-append (x ∷ xs) ys = omega (arith, total-append xs ys)

  pub total-remove_at :
      (i : ℕ) (xs : List A) (x : A)
      → get_elem? xs i ≡ some x
      → total xs ≡ w x + total (remove_at i xs)
  unfolding remove_at
  total-remove_at i [] x e = cc
  total-remove_at zero (y ∷ ys) x e = rw (some-injective y x e) refl
  total-remove_at (suc i) (y ∷ ys) x e = omega (arith, total-remove_at i ys x e)

get_elem?-remove_at_above :
    {A : Type 0} (i j : ℕ) (xs : List A)
    → i < j
    → get_elem? (remove_at i xs) (j - 1) ≡ get_elem? xs j
unfolding remove_at
get_elem?-remove_at_above i j [] h = refl
get_elem?-remove_at_above zero zero (x ∷ xs) h = absurd (omega arith)
get_elem?-remove_at_above zero (suc j) (x ∷ xs) h =
    let e : suc j - 1 ≡ j = omega arith in ap (get_elem? xs) e
get_elem?-remove_at_above (suc i) zero (x ∷ xs) h = absurd (omega arith)
get_elem?-remove_at_above (suc i) (suc zero) (x ∷ xs) h = absurd (omega arith)
get_elem?-remove_at_above (suc i) (suc (suc j)) (x ∷ xs) h =
    let e : suc (suc j) - 1 ≡ suc (suc j - 1) = omega arith in
    ap (get_elem? (x ∷ remove_at i xs)) e ∙ get_elem?-remove_at_above i (suc j) xs (omega arith)

get_elem?-remove_at_below :
    {A : Type 0} (i j : ℕ) (xs : List A) → j < i → get_elem? (remove_at i xs) j ≡ get_elem? xs j
unfolding remove_at
get_elem?-remove_at_below i j [] h = refl
get_elem?-remove_at_below zero j (x ∷ xs) h = absurd (omega arith)
get_elem?-remove_at_below (suc i) zero (x ∷ xs) h = refl
get_elem?-remove_at_below (suc i) (suc j) (x ∷ xs) h =
    get_elem?-remove_at_below i j xs (omega arith)

-- A pair at two positions is what the two splices take out.
pub total-splice_pair :
    {A : Type 0} (w : A → ℕ) (i j : ℕ) (xs : List A) (first second : A)
    → i ≢ j
    → get_elem? xs i ≡ some first
    → get_elem? xs j ≡ some second
    → total w xs ≡ w first + w second + total w (splice_pair i j xs)
total-splice_pair w i j xs first second apart e e' = elim (Bool-cases (i == j)) [
  | inl same ↦ absurd (apart (==→eq i j same))
  | inr other ↦ elim (Bool-cases (ltb i j)) [
    | inl up ↦
        rw (other, up)
          (omega (
            arith,
            total-remove_at w i xs first e,
            total-remove_at w (j - 1) (remove_at i xs) second
                (get_elem?-remove_at_above i j xs (ground arith) ∙ e'),
          ))
    | inr down ↦
        rw (other, down)
          (omega (
            arith,
            total-remove_at w i xs first e,
            total-remove_at w j (remove_at i xs) second
                (get_elem?-remove_at_below i j xs (ground arith) ∙ e'),
          ))
  ]
]

pub length-total : {A : Type 0} (xs : List A) → total (λ x. 1) xs ≡ length xs
length-total [] = refl
length-total (x ∷ xs) = omega (arith, length-total xs)

pub length-remove_at :
    {A : Type 0} (i : ℕ) (xs : List A) (x : A)
    → get_elem? xs i ≡ some x
    → length xs ≡ 1 + length (remove_at i xs)
length-remove_at i xs x e =
    omega (arith, length-total xs, length-total (remove_at i xs), total-remove_at (λ y. 1) i xs x e)

module _ {Proof : Type 0} where
  total-insert :
      (w : Fragment Proof → ℕ) (key : Proof → ℕ) (f : Fragment Proof) (fs : List (Fragment Proof))
      → total w (insert key f fs) ≡ w f + total w fs
  unfolding insert
  total-insert w key f [] = refl
  total-insert w key f (g ∷ gs) = elim (Bool-cases (leb (key f.proof) (key g.proof))) [
    | inl e ↦ rw (e, insert) refl
    | inr e ↦ rw (e, insert) (omega (arith, total-insert w key f gs))
  ]

  total-sort :
      (w : Fragment Proof → ℕ) (key : Proof → ℕ) (fs : List (Fragment Proof))
      → total w (sort key fs) ≡ total w fs
  unfolding sort
  total-sort w key [] = refl
  total-sort w key (f ∷ fs) =
      total-insert w key f (sort key fs) ∙ ap (λ n. w f + n) (total-sort w key fs)

  -- Sorting keeps every sum.
  pub total-arrange :
      (w : Fragment Proof → ℕ) (pairing : Pairing Proof) (pending : List (Fragment Proof))
      → total w (arrange pairing pending) ≡ total w pending
  unfolding arrange
  total-arrange w pairing pending = elim (Bool-cases (ltb (length pending) 2)) [
    | inl e ↦ rw (e, arrange) refl
    | inr e ↦ elim (Option-cases pairing.sort_key) [
      | inl k ↦ rw (e, k, arrange) refl
      | inr (key, k) ↦ rw (e, k, arrange) (total-sort w key pending)
    ]
  ]

  find_position_lem :
      (test : Proof → Bool) (fs : List (Fragment Proof)) (j : ℕ) (g : Fragment Proof)
      → find_position test fs ≡ some j
      → get_elem? fs j ≡ some g
      → test g.proof ≡ true
  unfolding find_position
  find_position_lem test [] j g e e' = cc
  find_position_lem test (f ∷ fs) j g e e' = elim (Bool-cases (test f.proof)) [
    | inl t ↦
        let here : some 0 ≡ some j = sym (rw (t, find_position) refl) ∙ e in
        let at : 0 ≡ j = some-injective 0 j here in
        let same : f ≡ g =
          some-injective f g (subst (λ n. get_elem? (f ∷ fs) n ≡ some g) (sym at) e') in
        subst (λ h. test h.proof ≡ true) same t
    | inr t ↦ elim (Option-cases (find_position test fs)) [
      | inl n ↦ let nowhere : none ≡ some j = sym (rw (t, n, find_position) refl) ∙ e in cc
      | inr (k, n) ↦
          let later : some (suc k) ≡ some j = sym (rw (t, n, find_position) refl) ∙ e in
          let at : suc k ≡ j = some-injective (suc k) j later in
          find_position_lem test fs k g n (subst (λ n. get_elem? (f ∷ fs) n ≡ some g) (sym at) e')
    ]
  ]

  find_pair_lem :
      (pairing : Pairing Proof) (all rest : List (Fragment Proof)) (n i j : ℕ)
      (f g : Fragment Proof)
      → ((k : ℕ) → get_elem? rest k ≡ get_elem? all (n + k))
      → find_pair pairing all rest n ≡ some (i, j)
      → get_elem? all i ≡ some f
      → get_elem? all j ≡ some g
      → pairing.follows f.proof g.proof ≡ true
  unfolding find_pair
  find_pair_lem pairing all [] n i j f g same e fi gj = cc
  find_pair_lem pairing all (h ∷ hs) n i j f g same e fi gj =
      elim (Option-cases (find_position (pairing.follows h.proof) all)) [
        | inr (k, p) ↦
            let here : some (n, k) ≡ some (i, j) = sym (rw (p, find_pair) refl) ∙ e in
            let pair = some-injective (n, k) (i, j) here in
            let at : n + 0 ≡ i = omega (arith, ap (λ q. q.0) pair) in
            let h_is_f : h ≡ f =
              some-injective h f (same 0 ∙ subst (λ m. get_elem? all m ≡ some f) (sym at) fi) in
            subst (λ x. pairing.follows x.proof g.proof ≡ true) h_is_f
              (find_position_lem (pairing.follows h.proof) all k g p
                (subst (λ m. get_elem? all m ≡ some g) (sym (ap (λ q. q.1) pair)) gj))
        | inl p ↦
            find_pair_lem pairing all hs (suc n) i j f g
              (λ k.
                let shift : n + suc k ≡ suc n + k = omega arith in
                same (suc k) ∙ ap (get_elem? all) shift)
              (sym (rw (p, find_pair) refl) ∙ e) fi gj
      ]

  -- The second proof of a pair that is found follows the first.
  pub find_mergeable_proofs_lem :
      (pairing : Pairing Proof) (pending : List (Fragment Proof)) (i j : ℕ) (f g : Fragment Proof)
      → find_mergeable_proofs pairing pending ≡ some (i, j)
      → get_elem? (arrange pairing pending) i ≡ some f
      → get_elem? (arrange pairing pending) j ≡ some g
      → pairing.follows f.proof g.proof ≡ true
  unfolding find_mergeable_proofs
  find_mergeable_proofs_lem pairing pending i j f g e fi gj =
      elim (Bool-cases (ltb (length pending) 2)) [
        | inl t ↦
            let nowhere : none ≡ some (i, j) = sym (rw (t, find_mergeable_proofs) refl) ∙ e in cc
        | inr t ↦
            find_pair_lem pairing (arrange pairing pending) (arrange pairing pending) 0 i j f g
              (λ k. let e : k ≡ 0 + k = omega arith in ap (get_elem? (arrange pairing pending)) e)
              (sym (rw (t, find_mergeable_proofs) refl) ∙ e) fi gj
      ]
