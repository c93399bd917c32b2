-- ===== src/VoteReducer/Refinement.antt =====
-- About `reduceBatch`: what its opened leaves say of the trees that the roots stand for.
pub mod Count
pub mod Sample
mod Tests
use decentralised_treasury.Prelude.{
  ℕ, ◌+◌, ◌^◌, ◌≤◌, ◌<◌, ◌≡◌, sym, ap, ◌∙◌, Bool, true, arith, Bool-cases, inl, inr, length, ◌==◌,
  ==→eq, ==→ne,
}
use decentralised_treasury.Circuit.{O1js, FieldLaws, ok, Result-cases}
use decentralised_treasury.Merkle.Witness.{
  Witness, prefixed_merkle_witness, calculate_root, calculate_index,
}
use decentralised_treasury.Merkle.Complete.{update, tree_root, index_of, CollisionFree}
use decentralised_treasury.Merkle.Soundness.{
  calculate_index_lem, index_of-lt, calculate_root_sound, calculate_root-update,
}
use decentralised_treasury.VoteReducer.Types.{
  VotingAccount, VoteReducerPublicInput, voting_leaf, nullifier_leaf,
}
use decentralised_treasury.VoteReducer.Batch.{
  VoteReducerContext, Trees, witnessed_account, witnessed_nullifier,
}
use decentralised_treasury.VoteReducer.Ballots.{mark}

-- The collision resistance of the hashes of leaves and keys.
pub record LeafCollisionFree (o : O1js) : Type 0 where
  pub voting : (a b : VotingAccount) → voting_leaf o a ≡ voting_leaf o b → a.balance ≡ b.balance
  pub nullifier : (a b : Bool) → nullifier_leaf o a ≡ nullifier_leaf o b → a ≡ b
  pub key :
      (j k : o.PublicKey)
      → o.poseidon_hash (o.key_fields j) ≡ o.poseidon_hash (o.key_fields k)
      → j ≡ k

-- The trees have the levels of their witnesses, with no more indices than the field tells apart, and
-- a prefix for each level.
pub record WellSized (trees : Trees) (levels : ℕ) : Type 0 where
  pub height : trees.height ≡ levels + 1
  pub small : 2 ^ levels ≤ 2 ^ 254
  pub voting : levels ≤ length trees.voting_prefixes
  pub nullifier : levels ≤ length trees.nullifier_prefixes

module _ (o : O1js) (laws : FieldLaws o) (pairs : CollisionFree o) (leaves : LeafCollisionFree o)
    (trees : Trees) (levels : ℕ) (sized : WellSized trees levels)
    (context : VoteReducerContext o) where
  open o use {Field, of_nat, PublicKey, poseidon_hash, key_fields}

  -- The key's place in the trees.
  abbrev pub Slot : PublicKey → ℕ → Type 0
  Slot key i = (i < 2 ^ levels) × (of_nat i ≡ poseidon_hash (key_fields key))

  -- The voting ledger's root stands for the weights.
  pub record Weighs (root : Field) (weight : PublicKey → ℕ) : Type 0 where
    pub nodes : ℕ → Field
    pub is_root : tree_root o levels trees.voting_prefixes nodes ≡ root
    pub leaf :
        (key : PublicKey) (i : ℕ)
        → Slot key i
        → nodes i ≡ voting_leaf o (record { balance = weight key })

  -- The nullifier root stands for the voters.
  pub record Nullifies (root : Field) (voted : PublicKey → Bool) : Type 0 where
    pub nodes : ℕ → Field
    pub is_root : tree_root o levels trees.nullifier_prefixes nodes ≡ root
    pub leaf : (key : PublicKey) (i : ℕ) → Slot key i → nodes i ≡ nullifier_leaf o (voted key)

  witness_length :
      (w v : Witness o)
      → prefixed_merkle_witness o trees.height w ≡ ok v
      → (v ≡ w) × (length w ≡ levels)
  unfolding prefixed_merkle_witness
  witness_length w v h = let s = sized.height in ground arith

  account_steps :
      (input : VoteReducerPublicInput o) (store : context.Store) (key : PublicKey)
      {account : VotingAccount}
      → witnessed_account o trees context input store key ≡ ok account
      → (w : Witness o) × (length w ≡ levels)
        × (calculate_index o w ≡ poseidon_hash (key_fields key))
        × (calculate_root o w (voting_leaf o account) trees.voting_prefixes
            ≡ input.voting_ledger_root)
  unfolding witnessed_account
  account_steps input store key {account} h =
      elim (Result-cases
        (prefixed_merkle_witness o trees.height (context.get_voting_witness store key))) [
          | inr (x, e) ↦ absurd (ground arith)
          | inl (w, e) ↦
              let (same, len) = witness_length _ w e in
              let found = context.get_voting_account store key in
              (
                w,
                ground arith,
                ground (
                  arith,
                  (o.equals_iff (calculate_index o w) (poseidon_hash (key_fields key))).0,
                ),
                ground (
                  arith,
                  (o.equals_iff (calculate_root o w (voting_leaf o found) trees.voting_prefixes)
                      input.voting_ledger_root).0,
                ),
              )
        ]

  nullifier_steps :
      (root : Field) (store : context.Store) (key : PublicKey) {b : Bool} {next : Field}
      → witnessed_nullifier o trees context root store key ≡ ok (b, next)
      → (w : Witness o) × (length w ≡ levels)
        × (calculate_index o w ≡ poseidon_hash (key_fields key))
        × (calculate_root o w (nullifier_leaf o b) trees.nullifier_prefixes ≡ root)
        × (next ≡ calculate_root o w (nullifier_leaf o true) trees.nullifier_prefixes)
  unfolding witnessed_nullifier
  nullifier_steps root store key h =
      elim (Result-cases
        (prefixed_merkle_witness o trees.height (context.get_nullifier_witness store key))) [
          | inr (x, e) ↦ absurd (ground arith)
          | inl (w, e) ↦
              let (same, len) = witness_length _ w e in
              let found = context.get_nullifier store key in
              let ix = (o.equals_iff (calculate_index o w) (poseidon_hash (key_fields key))).0 in
              let rt =
                (o.equals_iff (calculate_root o w (nullifier_leaf o found) trees.nullifier_prefixes)
                  root).0 in
              (w, ground arith, ground (arith, ix), ground (arith, rt), ground arith)
        ]

  -- A witness whose index is that of a key lies in the key's slot.
  witness-Slot :
      (key : PublicKey) (w : Witness o)
      → length w ≡ levels
      → calculate_index o w ≡ poseidon_hash (key_fields key)
      → Slot key (index_of o w)
  witness-Slot key w len ix =
      (rw (← len) (index_of-lt o laws w), sym (calculate_index_lem o laws w) ∙ ix)

  Slot-injective : (key : PublicKey) (i j : ℕ) → Slot key i → Slot key j → i ≡ j
  Slot-injective key i j p q =
      let small = sized.small in
      laws.of_nat_injective i j (omega arith) (omega arith) (p.1 ∙ sym q.1)

  pub account_opened :
      (input : VoteReducerPublicInput o) (store : context.Store) (key : PublicKey)
      (weight : PublicKey → ℕ) {account : VotingAccount}
      → Weighs input.voting_ledger_root weight
      → witnessed_account o trees context input store key ≡ ok account
      → account.balance ≡ weight key
  account_opened input store key weight {account} weighs h =
      let (w, len, ix, root) = account_steps input store key h in
      let opened =
        calculate_root_sound o laws pairs w trees.voting_prefixes (voting_leaf o account)
          weighs.nodes (rw len sized.voting) (rw len (root ∙ sym weighs.is_root)) in
      leaves.voting account (record { balance = weight key })
        (opened ∙ weighs.leaf key (index_of o w) (witness-Slot key w len ix))

  -- The nodes in which the key's leaf is set stand for the voters with the key.
  marked_leaf :
      (root : Field) (voted : PublicKey → Bool) (key : PublicKey) (i : ℕ) (n : Nullifies root voted)
      → Slot key i
      → (k : PublicKey) (j : ℕ) → Slot k j
      → update n.nodes i (nullifier_leaf o true) j ≡ nullifier_leaf o (mark o voted key k)
  unfolding mark
  marked_leaf root voted key i n at_i k j at_j = elim (Bool-cases (j == i)) [
    | inl e ↦
        let same : k ≡ key = leaves.key k key (sym at_j.1 ∙ ap of_nat (==→eq j i e) ∙ at_i.1) in
        rw (e, (o.key_eq_iff k key).1 same)
    | inr e ↦ elim (Bool-cases (o.key_eq k key)) [
      | inl same ↦
          let slot_j : Slot key j = (
            at_j.0,
            at_j.1
                ∙ ap (λ (x : PublicKey). poseidon_hash (key_fields x))
                    ((o.key_eq_iff k key).0 same),
          ) in
          absurd (==→ne j i e (Slot-injective key j i slot_j at_i))
      | inr other ↦ rw (e, other) (n.leaf k j at_j)
    ]
  ]

  pub nullifier_opened :
      (root : Field) (voted : PublicKey → Bool) (store : context.Store) (key : PublicKey) {b : Bool}
      {next : Field}
      → Nullifies root voted
      → witnessed_nullifier o trees context root store key ≡ ok (b, next)
      → (b ≡ voted key) × Nullifies next (mark o voted key)
  nullifier_opened root voted store key {b} {next} n h =
      let (w, len, ix, is_root, set) = nullifier_steps root store key h in
      let slot = witness-Slot key w len ix in
      let fits : length w ≤ length trees.nullifier_prefixes = rw len sized.nullifier in
      let root_of_nodes : calculate_root o w (nullifier_leaf o b) trees.nullifier_prefixes
          ≡ tree_root o (length w) trees.nullifier_prefixes n.nodes =
        rw len (is_root ∙ sym n.is_root) in
      let opened =
        calculate_root_sound o laws pairs w trees.nullifier_prefixes (nullifier_leaf o b) n.nodes
          fits root_of_nodes in
      let replaced =
        calculate_root-update o laws pairs w trees.nullifier_prefixes (nullifier_leaf o b)
          (nullifier_leaf o true) n.nodes fits root_of_nodes in
      (
        leaves.nullifier b (voted key) (opened ∙ n.leaf key (index_of o w) slot),
        record {
          nodes = update n.nodes (index_of o w) (nullifier_leaf o true);
          is_root = rw len at (sym replaced ∙ sym set);
          leaf = marked_leaf root voted key (index_of o w) n slot;
        },
      )
