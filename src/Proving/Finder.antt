-- ===== src/Proving/Finder.antt =====
-- `findMergeableProofs` of packages/sdk/src/proving/prover/staking-ledger-to-voting-ledger-prover.ts
-- and vote-reducer-prover.ts: the first pending proof that another one follows.
use decentralised_treasury.Prelude.{
  ℕ, suc, ◌+◌, ◌≤◌, List, [], ◌∷◌, String, Bool, true, false, Option, none, some, leb, ltb, ◌==◌,
  length, if◌then◌else◌,
}

pub record Fragment (Proof : Type 0) : Type 0 where
  pub index : String
  pub proof : Proof

-- How a prover pairs proofs: the key it sorts the pending list by, if it does, and whether the second
-- proof follows the first.
pub record Pairing (Proof : Type 0) : Type 0 where
  pub sort_key : Option (Proof → ℕ)
  pub follows : Proof → Proof → Bool

-- The indices of a proof of the staking ledger: of its first account and of its last one. A digest
-- takes at least one account, so the second is not below the first.
pub record LedgerRange : Type 0 where
  pub input_index : ℕ
  pub output_index : ℕ
  pub ordered : input_index ≤ output_index

-- `StakingLedgerToVotingLedgerProver`: by index, and the next index follows.
abbrev pub ledger_pairing : Pairing LedgerRange
ledger_pairing = record {
  sort_key = some (λ p. p.input_index);
  follows = λ p q. q.input_index == p.output_index + 1;
}

-- The action hashes of a proof of the vote reducer, with a number for each hash.
pub record ActionsRange : Type 0 where
  pub from_actions_hash : ℕ
  pub to_actions_hash : ℕ

-- `VoteReducerProver`: the batch that starts with the hash at which the first one ends.
abbrev pub actions_pairing : Pairing ActionsRange
actions_pairing = record {
  sort_key = none;
  follows = λ p q. q.from_actions_hash == p.to_actions_hash;
}

module _ {Proof : Type 0} where
  -- `sort`, which is stable.
  unfoldable pub insert :
      (Proof → ℕ) → Fragment Proof → List (Fragment Proof) → List (Fragment Proof)
  insert key f [] = f ∷ []
  insert key f (g ∷ gs) =
      let rest = insert key f gs in
      if leb (key f.proof) (key g.proof) then f ∷ (g ∷ gs) else g ∷ rest

  unfoldable pub sort : (Proof → ℕ) → List (Fragment Proof) → List (Fragment Proof)
  sort key [] = []
  sort key (f ∷ fs) = insert key f (sort key fs)

  -- `find`, with the position of what it finds.
  unfoldable pub find_position : (Proof → Bool) → List (Fragment Proof) → Option ℕ
  find_position test [] = none
  find_position test (f ∷ fs) = elim (test f.proof) [
    | true ↦ some 0
    | false ↦ elim (find_position test fs) [ none ↦ none | some j ↦ some (suc j) ]
  ]

  module _ (pairing : Pairing Proof) where
    -- The order in which the pending list is left.
    unfoldable pub arrange : List (Fragment Proof) → List (Fragment Proof)
    arrange pending =
        if ltb (length pending) 2
        then pending
        else elim pairing.sort_key [ none ↦ pending | some key ↦ sort key pending ]

    -- The loop over the first proof of a pair, from a position on.
    unfoldable pub find_pair : List (Fragment Proof) → List (Fragment Proof) → ℕ → Option (ℕ × ℕ)
    find_pair all [] i = none
    find_pair all (f ∷ fs) i = elim (find_position (pairing.follows f.proof) all) [
      | some j ↦ some (i, j)
      | none ↦ find_pair all fs (suc i)
    ]

    -- The positions of a pair in the arranged list.
    unfoldable pub find_mergeable_proofs : List (Fragment Proof) → Option (ℕ × ℕ)
    find_mergeable_proofs pending =
        if ltb (length pending) 2 then none else find_pair (arrange pending) (arrange pending) 0
