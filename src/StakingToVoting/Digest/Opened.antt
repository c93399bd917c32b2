-- ===== src/StakingToVoting/Digest/Opened.antt =====
-- About `digest`: what its opened leaves say of the trees that the roots stand for.
use decentralised_treasury.Prelude.{
  ℕ, ◌+◌, ◌^◌, ◌≤◌, ◌<◌, ◌≡◌, sym, ap, ◌∙◌, arith, Bool-cases, inl, inr, length, ◌==◌, ==→eq, ==→ne,
  if◌then◌else◌,
}
use decentralised_treasury.Circuit.{O1js, FieldLaws, ok}
use decentralised_treasury.Account.{Account, account_leaf}
use decentralised_treasury.Merkle.Witness.{
  Witness, prefixed_merkle_witness, calculate_root, calculate_index,
}
use decentralised_treasury.Merkle.Complete.{update, tree_root, index_of, CollisionFree}
use decentralised_treasury.Merkle.Soundness.{
  calculate_index_lem, index_of-lt, calculate_root_sound, calculate_root-update,
}
use decentralised_treasury.VoteReducer.Types.{VotingAccount, voting_leaf}
use decentralised_treasury.VoteReducer.Refinement.{LeafCollisionFree}
use decentralised_treasury.StakingToVoting.Types.{LedgersContext, LedgerTrees}
use decentralised_treasury.StakingToVoting.Digest.{check_staking, balance_to_add, raise_delegate}

-- The trees have the levels of their witnesses, with no more indices than the field tells apart, and
-- a prefix for each level.
pub record WellSized (trees : LedgerTrees) (staking_levels voting_levels : ℕ) : Type 0 where
  pub staking_height : trees.staking_height ≡ staking_levels + 1
  pub voting_height : trees.voting_height ≡ voting_levels + 1
  pub small_staking : 2 ^ staking_levels ≤ 2 ^ 254
  pub small_voting : 2 ^ voting_levels ≤ 2 ^ 254
  pub staking_prefixes : staking_levels ≤ length trees.staking_prefixes
  pub voting_prefixes : voting_levels ≤ length trees.voting_prefixes

module _ (o : O1js) (laws : FieldLaws o) (pairs : CollisionFree o) (leaves : LeafCollisionFree o)
    (trees : LedgerTrees) (staking_levels voting_levels : ℕ)
    (sized : WellSized trees staking_levels voting_levels) (context : LedgersContext o) where
  open o use {Field, of_nat, PublicKey, poseidon_hash, key_fields, uint64}

  abbrev Slot : PublicKey → ℕ → Type 0
  Slot key i = (i < 2 ^ voting_levels) × (of_nat i ≡ poseidon_hash (key_fields key))

  -- The voting ledger's root stands for the weights of the delegates.
  pub record Credits (root : Field) (weight : PublicKey → ℕ) : Type 0 where
    pub nodes : ℕ → Field
    pub is_root : tree_root o voting_levels trees.voting_prefixes nodes ≡ root
    pub leaf :
        (key : PublicKey) (i : ℕ)
        → Slot key i
        → nodes i ≡ voting_leaf o (record { balance = weight key })

  -- What one round has checked of the staking ledger.
  pub staking_steps :
      (staking_root : Field) (store : context.Store) (index : ℕ) (account : Account o)
      → check_staking o trees context staking_root store index account ≡ ok tt
      → (w : Witness o) × (length w ≡ staking_levels)
        × (calculate_index o w ≡ of_nat index)
        × (calculate_root o w (account_leaf o account) trees.staking_prefixes ≡ staking_root)
  unfolding check_staking prefixed_merkle_witness
  staking_steps staking_root store index account h =
      let w = context.get_staking_witness store index in
      let s = sized.staking_height in
      let root = calculate_root o w (account_leaf o account) trees.staking_prefixes in
      (
        w,
        ground arith,
        ground (arith, (o.equals_iff (calculate_index o w) (of_nat index)).0),
        ground (arith, (o.equals_iff root staking_root).0),
      )

  raise_steps :
      (voting_root : Field) (store : context.Store) (account : Account o) {updated : VotingAccount}
      {next : Field}
      → raise_delegate o trees context voting_root store account ≡ ok (updated, next)
      → let w = context.get_voting_witness store account.delegate in
        let found = context.get_voting_account store account.delegate in
        (length w ≡ voting_levels)
        × (calculate_index o w ≡ poseidon_hash (key_fields account.delegate))
        × (calculate_root o w (voting_leaf o found) trees.voting_prefixes ≡ voting_root)
        × (updated.balance ≡ found.balance + balance_to_add o trees context account)
        × (next ≡ calculate_root o w (voting_leaf o updated) trees.voting_prefixes)
  unfolding raise_delegate prefixed_merkle_witness
  raise_steps voting_root store account h =
      let w = context.get_voting_witness store account.delegate in
      let found = context.get_voting_account store account.delegate in
      let s = sized.voting_height in
      let root = calculate_root o w (voting_leaf o found) trees.voting_prefixes in
      let add = uint64.add_lem found.balance (balance_to_add o trees context account) in
      (
        ground arith,
        ground (
          arith,
          (o.equals_iff (calculate_index o w) (poseidon_hash (key_fields account.delegate))).0,
        ),
        ground (arith, (o.equals_iff root voting_root).0),
        ground (arith, add),
        ground (arith, add),
      )

  Slot-injective : (key : PublicKey) (i j : ℕ) → Slot key i → Slot key j → i ≡ j
  Slot-injective key i j p q =
      let small = sized.small_voting in
      laws.of_nat_injective i j (omega arith) (omega arith) (p.1 ∙ sym q.1)

  -- The weights after one account.
  abbrev pub credit : (PublicKey → ℕ) → Account o → PublicKey → ℕ
  credit weight a key =
      weight key + (if o.key_eq key a.delegate then balance_to_add o trees context a else 0)

  -- The nodes in which the delegate's leaf is set stand for the new weights.
  credited_leaf :
      (root : Field) (weight : PublicKey → ℕ) (a : Account o) (i : ℕ) (c : Credits root weight)
      → Slot a.delegate i
      → (k : PublicKey) (j : ℕ) → Slot k j
      → update c.nodes i
          (voting_leaf o
            (record { balance = weight a.delegate + balance_to_add o trees context a }))
          j
        ≡ voting_leaf o (record { balance = credit weight a k })
  credited_leaf root weight a i c at_i k j at_j = elim (Bool-cases (j == i)) [
    | inl e ↦
        let same : k ≡ a.delegate =
          leaves.key k a.delegate (sym at_j.1 ∙ ap of_nat (==→eq j i e) ∙ at_i.1) in
        let raised : weight a.delegate + balance_to_add o trees context a ≡ credit weight a k =
          rw ((o.key_eq_iff k a.delegate).1 same)
            (ap (λ x. weight x + balance_to_add o trees context a) (sym same)) in
        rw e (ap (λ b. voting_leaf o (record { balance = b })) raised)
    | inr e ↦ elim (Bool-cases (o.key_eq k a.delegate)) [
      | inl same ↦
          let slot_j : Slot a.delegate j = (
            at_j.0,
            at_j.1
                ∙ ap (λ (x : PublicKey). poseidon_hash (key_fields x))
                    ((o.key_eq_iff k a.delegate).0 same),
          ) in
          absurd (==→ne j i e (Slot-injective a.delegate j i slot_j at_i))
      | inr other ↦
          let unchanged : weight k ≡ credit weight a k = rw other (omega arith) in
          rw e (c.leaf k j at_j ∙ ap (λ b. voting_leaf o (record { balance = b })) unchanged)
    ]
  ]

  pub raise-Credits :
      (voting_root : Field) (weight : PublicKey → ℕ) (store : context.Store) (a : Account o)
      {updated : VotingAccount} {next : Field}
      → Credits voting_root weight
      → raise_delegate o trees context voting_root store a ≡ ok (updated, next)
      → Credits next (credit weight a)
  raise-Credits voting_root weight store a {updated} {next} c h =
      let w = context.get_voting_witness store a.delegate in
      let found = context.get_voting_account store a.delegate in
      let (len, ix, is_root, raised, set) = raise_steps voting_root store a h in
      let slot : Slot a.delegate (index_of o w) =
        (rw (← len) (index_of-lt o laws w), sym (calculate_index_lem o laws w) ∙ ix) in
      let fits : length w ≤ length trees.voting_prefixes = rw len sized.voting_prefixes in
      let of_nodes : calculate_root o w (voting_leaf o found) trees.voting_prefixes
          ≡ tree_root o (length w) trees.voting_prefixes c.nodes =
        rw len (is_root ∙ sym c.is_root) in
      let opened =
        calculate_root_sound o laws pairs w trees.voting_prefixes (voting_leaf o found) c.nodes fits
          of_nodes in
      let balance : found.balance ≡ weight a.delegate =
        leaves.voting found (record { balance = weight a.delegate })
          (opened ∙ c.leaf a.delegate (index_of o w) slot) in
      let total : updated.balance ≡ weight a.delegate + balance_to_add o trees context a =
        omega (arith, raised, balance) in
      let new_leaf : voting_leaf o updated
          ≡ voting_leaf o
              (record { balance = weight a.delegate + balance_to_add o trees context a }) =
        ap (λ b. voting_leaf o (record { balance = b })) total in
      let replaced =
        calculate_root-update o laws pairs w trees.voting_prefixes (voting_leaf o found)
          (voting_leaf o updated) c.nodes fits of_nodes in
      record {
        nodes = update c.nodes (index_of o w) (
            voting_leaf o
              (record { balance = weight a.delegate + balance_to_add o trees context a }));
        is_root = rw⁻¹ new_leaf (rw len at (sym replaced ∙ sym set));
        leaf = credited_leaf voting_root weight a (index_of o w) c slot;
      }
