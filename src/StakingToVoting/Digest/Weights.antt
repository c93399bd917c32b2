-- ===== src/StakingToVoting/Digest/Weights.antt =====
-- About `digest`: the voting ledger's root afterwards, and the accounts against the staking ledger.
use mathlib.Core.Path.{subst}
use decentralised_treasury.Prelude.{
  ℕ, ◌+◌, ◌^◌, ◌≤◌, ◌<◌, ◌≡◌, fun_ext, sym, ap, ◌∙◌, List, [], ◌∷◌, false, arith, inl, inr, length,
  if◌then◌else◌,
}
use decentralised_treasury.Circuit.{O1js, FieldLaws, ok, ◌>>=◌, checked, Result-cases, >>=-eq-ok}
use decentralised_treasury.Account.{Account, account_leaf}
use decentralised_treasury.Merkle.Complete.{tree_root, index_of, CollisionFree}
use decentralised_treasury.Merkle.Soundness.{calculate_index_lem, index_of-lt, calculate_root_sound}
use decentralised_treasury.VoteReducer.Types.{VotingAccount}
use decentralised_treasury.VoteReducer.Refinement.{LeafCollisionFree}
use decentralised_treasury.StakingToVoting.Types.{
  ProgramInput, ProgramOutput, LedgersContext, LedgerTrees,
}
use decentralised_treasury.StakingToVoting.Digest.Opened.{
  WellSized, Credits, staking_steps, credit, raise-Credits,
}
use decentralised_treasury.StakingToVoting.Digest.{
  Rolling, check_staking, balance_to_add, raise_delegate, digest_account, digest_loop, digest,
}

module _ (o : O1js) where
  -- The accounts have the leaves of a tree from an index on.
  abbrev pub LeavesAt : (ℕ → o.Field) → ℕ → List (Account o) → Type 0
  LeavesAt nodes index [] = Unit {0}
  LeavesAt nodes index (a ∷ accounts) =
      (account_leaf o a ≡ nodes index) × LeavesAt nodes (index + 1) accounts

  -- What some accounts delegate to a key: the balances in the default token of those whose delegate it
  -- is.
  abbrev pub delegated : List (Account o) → o.PublicKey → ℕ
  delegated [] key = 0
  delegated (a ∷ accounts) key =
      (if o.key_eq key a.delegate
        then if o.equals a.token_id o.default_token then a.balance else 0
        else 0)
      + delegated accounts key

module _ (o : O1js) (laws : FieldLaws o) (pairs : CollisionFree o) (leaves : LeafCollisionFree o)
    (trees : LedgerTrees) (staking_levels voting_levels : ℕ)
    (sized : WellSized trees staking_levels voting_levels) (context : LedgersContext o) where
  open o use {Field, of_nat, PublicKey, poseidon_hash, key_fields, uint64}

  abbrev Credited : Field → (PublicKey → ℕ) → Type 0
  Credited = Credits o laws pairs leaves trees staking_levels voting_levels sized context

  -- What one round has checked and changed.
  record Round (staking_root : Field) (a : Account o) (r : Rolling o trees context)
      (store : context.Store) (r' : Rolling o trees context) : Type 0 where
    updated : VotingAccount
    listed : check_staking o trees context staking_root store r.index a ≡ ok tt
    raised : raise_delegate o trees context r.voting_root store a ≡ ok (updated, r'.voting_root)
    index : r'.index ≡ r.index + 1
    small : r.index + 1 < 2 ^ 64

  digest_account_inv :
      (staking_root : Field) (a : Account o) (r : Rolling o trees context) (store : context.Store)
      {r' : Rolling o trees context} {store' : context.Store}
      → digest_account o trees context staking_root a (r, store) ≡ ok (r', store')
      → Round staking_root a r store r'
  unfolding digest_account
  digest_account_inv staking_root a r store {r'} h =
      elim (Result-cases (check_staking o trees context staking_root store r.index a)) [
        | inr (x, e) ↦ absurd (ground arith)
        | inl (done, e) ↦
            elim (Result-cases (raise_delegate o trees context r.voting_root store a)) [
              | inr (x, f) ↦ absurd (ground arith)
              | inl ((updated, next), f) ↦
                  let add = uint64.add_lem r.index 1 in
                  let root : r'.voting_root ≡ next = ground (arith, add) in
                  record {
                    updated = updated;
                    listed = e;
                    raised = rw root f;
                    index = ground (arith, add);
                    small = ground (arith, add);
                  }
            ]
      ]

  -- The round's account has the leaf of the staking ledger at the round's index.
  listed-leaf :
      (staking_root : Field) (staking : ℕ → Field) (a : Account o) (r : Rolling o trees context)
      (store : context.Store) (r' : Rolling o trees context)
      → tree_root o staking_levels trees.staking_prefixes staking ≡ staking_root
      → Round staking_root a r store r'
      → account_leaf o a ≡ staking r.index
  listed-leaf staking_root staking a r store r' is_root round =
      let (w, len, ix, root) =
        staking_steps o laws pairs leaves trees staking_levels voting_levels sized context
          staking_root store r.index a round.listed in
      let fits : length w ≤ length trees.staking_prefixes = rw len sized.staking_prefixes in
      let opened =
        calculate_root_sound o laws pairs w trees.staking_prefixes (account_leaf o a) staking fits
          (rw len (root ∙ sym is_root)) in
      let below : index_of o w < 2 ^ staking_levels = rw (← len) (index_of-lt o laws w) in
      let small = sized.small_staking in
      let small_index = round.small in
      let same : index_of o w ≡ r.index =
        laws.of_nat_injective (index_of o w) r.index (omega arith) (omega arith)
          (sym (calculate_index_lem o laws w) ∙ ix) in
      opened ∙ ap staking same

  -- A credited account counts for its delegate as its balance in the default token.
  credit_lem :
      (weight : PublicKey → ℕ) (a : Account o) (accounts : List (Account o)) (key : PublicKey)
      → credit o laws pairs leaves trees staking_levels voting_levels sized context weight a key
          + delegated o accounts key
        ≡ weight key + delegated o (a ∷ accounts) key
  unfolding balance_to_add
  credit_lem weight a accounts key = omega arith

  loop_sound :
      (staking_root : Field) (staking : ℕ → Field) (weight : PublicKey → ℕ)
      (accounts : List (Account o)) (r : Rolling o trees context) (store : context.Store)
      (r' : Rolling o trees context) (store' : context.Store)
      → tree_root o staking_levels trees.staking_prefixes staking ≡ staking_root
      → Credited r.voting_root weight
      → digest_loop o trees context staking_root accounts (r, store) ≡ ok (r', store')
      → Credited r'.voting_root (λ key. weight key + delegated o accounts key)
        × (r'.index ≡ r.index + length accounts)
        × LeavesAt o staking r.index accounts
  unfolding digest_loop
  loop_sound staking_root staking weight [] r store r' store' is_root c h =
      let kept : r ≡ r' = ground (arith, h) in
      let same : weight ≡ (λ key. weight key + 0) = fun_ext (λ key. omega arith) in
      (
        subst (λ x. Credited x.voting_root (λ key. weight key + 0)) kept
            (subst (λ f. Credited r.voting_root f) same c),
        omega (arith, ap (λ x. x.index) kept),
        tt,
      )
  loop_sound staking_root staking weight (a ∷ accounts) r store r' store' is_root c h =
      let ((s, between), first, rest) =
        >>=-eq-ok (digest_account o trees context staking_root a (r, store))
          (digest_loop o trees context staking_root accounts) h in
      let round = digest_account_inv staking_root a r store first in
      let credited =
        raise-Credits o laws pairs leaves trees staking_levels voting_levels sized context
          r.voting_root weight store a c round.raised in
      let (later, counted, listed) =
        loop_sound staking_root staking
          (credit o laws pairs leaves trees staking_levels voting_levels sized context weight a)
          accounts s between r' store' is_root credited rest in
      let same : (λ key.
        credit o laws pairs leaves trees staking_levels voting_levels sized context weight a key
        + delegated o accounts key)
          ≡ (λ key. weight key + delegated o (a ∷ accounts) key) =
        fun_ext (credit_lem weight a accounts) in
      (
        subst (λ f. Credited r'.voting_root f) same later,
        omega (arith, counted, round.index),
        (
          listed-leaf staking_root staking a r store s is_root round,
          subst (λ n. LeavesAt o staking n accounts) round.index listed,
        ),
      )

  -- With the field's laws, hashes free of collisions and trees of fitting sizes: when the input's
  -- roots stand for a staking ledger and for the delegates' weights and the digest goes through, the
  -- accounts of the batch have the leaves of the staking ledger from the input's index on, one after
  -- the other; the output's root stands for the weights with the balances in the default token that
  -- these accounts delegate; and the output's index is that of the last account.
  pub digest_sound :
      (input : ProgramInput o) (accounts : List (Account o)) (store : context.Store)
      (output : ProgramOutput o) (store' : context.Store) (staking : ℕ → Field)
      (weight : PublicKey → ℕ)
      → tree_root o staking_levels trees.staking_prefixes staking ≡ input.staking_ledger_root
      → Credited input.voting_ledger_root weight
      → digest o trees context input accounts store ≡ ok (output, store')
      → Credited output.voting_ledger_root (λ key. weight key + delegated o accounts key)
        × LeavesAt o staking input.index accounts
        × (output.index + 1 ≡ input.index + length accounts)
  unfolding digest
  digest_sound input accounts store output store' staking weight is_root c h =
      let start : Rolling o trees context = record {
        index = input.index;
        voting_root = input.voting_ledger_root;
      } in
      let ((r, after), looped, last) =
        >>=-eq-ok (digest_loop o trees context input.staking_ledger_root accounts (start, store))
          (λ (s, store'). checked (uint64.sub s.index 1) >>= λ last. ok (
            record { index = last; voting_ledger_root = s.voting_root; exhausted = false },
            store',
          ))
          h in
      let (credited, counted, listed) =
        loop_sound input.staking_ledger_root staking weight accounts start store r after is_root c
          looped in
      let sub = uint64.sub_lem r.index 1 in
      let root : output.voting_ledger_root ≡ r.voting_root = ground (arith, sub, last) in
      let index : output.index + 1 ≡ r.index = ground (arith, sub, last) in
      (rw root credited, listed, index ∙ counted)
