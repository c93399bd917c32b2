-- ===== src/VoteReducer/Refinement/Count.antt =====
-- About `reduceBatch`: its tallies against the count of a ballot box.
use decentralised_treasury.Prelude.{
  ℕ, ◌+◌, ◌≡◌, refl, ◌∙◌, List, [], ◌∷◌, Bool, ◌||◌, arith, if◌then◌else◌, Bool-cases, inl, inr,
}
use decentralised_treasury.Circuit.{O1js, FieldLaws, ok, Result-cases}
use decentralised_treasury.Hashing.{append_action_to_hash_list}
use decentralised_treasury.Merkle.Complete.{CollisionFree}
use decentralised_treasury.VoteReducer.Types.{
  VotingAccount, VoteAction, is_dummy, vote_action_fields, yay_vote, nay_vote, abstain_vote,
  VoteReducerPublicInput, VoteReducerPublicOutput,
}
use decentralised_treasury.VoteReducer.Batch.{
  VoteReducerContext, Trees, Rolling, witnessed_account, witnessed_nullifier, reduce_action,
  reduce_loop, start_batch, batch_output, reduce_batch,
}
use decentralised_treasury.VoteReducer.Ballots.{mark, counted, voters, weight_for, chain}
use decentralised_treasury.VoteReducer.Refinement.{
  LeafCollisionFree, WellSized, Weighs, Nullifies, account_opened, nullifier_opened,
}

module _ (o : O1js) where
  open o use {Field, PublicKey, equals, uint64}

  -- The voters after one action, and what it adds to the votes of one kind.
  next_voted : (PublicKey → Bool) → VoteAction o → PublicKey → Bool
  next_voted voted a = if is_dummy o a then voted else mark o voted a.public_key

  gain : (PublicKey → ℕ) → (PublicKey → Bool) → Field → VoteAction o → ℕ
  gain weight voted vote a =
      if is_dummy o a || voted a.public_key
      then 0
      else if equals a.vote vote
      then weight a.public_key
      else 0

  weight_for-counted :
      (weight : PublicKey → ℕ) (voted : PublicKey → Bool) (vote : Field) (a : VoteAction o)
      (xs : List (VoteAction o))
      → weight_for o weight vote (counted o voted (a ∷ xs))
        ≡ gain weight voted vote a + weight_for o weight vote (counted o (next_voted voted a) xs)
  unfolding weight_for counted gain next_voted
  weight_for-counted weight voted vote a xs = elim (Bool-cases (is_dummy o a)) [
    | inl e ↦ rw e (omega arith)
    | inr e ↦ elim (Bool-cases (voted a.public_key)) [
      | inl v ↦ rw (e, v) (omega arith)
      | inr v ↦ rw (e, v) (omega arith)
    ]
  ]

  module _ (trees : Trees) (context : VoteReducerContext o) where
    -- What one round of the loop has done, in terms of what it was shown.
    record Round (input : VoteReducerPublicInput o) (a : VoteAction o) (r : Rolling o)
        (store : context.Store) (r' : Rolling o) : Type 0 where
      account : VotingAccount
      nullifier : Bool
      nullified_root : Field
      shown_account : witnessed_account o trees context input store a.public_key ≡ ok account
      shown_nullifier :
          witnessed_nullifier o trees context r.to_nullifier_root store a.public_key
          ≡ ok (nullifier, nullified_root)
      root : r'.to_nullifier_root ≡ (if is_dummy o a then r.to_nullifier_root else nullified_root)
      hash : r'.to_actions_hash ≡ (
          if is_dummy o a
          then r.to_actions_hash
          else append_action_to_hash_list o r.to_actions_hash (vote_action_fields o a))
      yay : r'.yay ≡ (
          if equals a.vote (yay_vote o)
          then r.yay + (if is_dummy o a || nullifier then 0 else account.balance)
          else r.yay)
      nay : r'.nay ≡ (
          if equals a.vote (nay_vote o)
          then r.nay + (if is_dummy o a || nullifier then 0 else account.balance)
          else r.nay)
      abstain : r'.abstain ≡ (
          if equals a.vote (abstain_vote o)
          then r.abstain + (if is_dummy o a || nullifier then 0 else account.balance)
          else r.abstain)

    reduce_action_inv :
        (input : VoteReducerPublicInput o) (a : VoteAction o) (r : Rolling o)
        (store : context.Store) {r' : Rolling o} {store' : context.Store}
        → reduce_action o trees context input a (r, store) ≡ ok (r', store')
        → Round input a r store r'
    unfolding reduce_action
    reduce_action_inv input a r store {r'} h =
        elim (Result-cases (witnessed_account o trees context input store a.public_key)) [
          | inr (x, e) ↦ absurd (ground arith)
          | inl (account, e) ↦
              elim (Result-cases
                (witnessed_nullifier o trees context r.to_nullifier_root store a.public_key)) [
                  | inr (x, f) ↦ absurd (ground arith)
                  | inl ((nullifier, nullified_root), f) ↦
                      let weight : ℕ = if is_dummy o a || nullifier then 0 else account.balance in
                      record {
                        account = account;
                        nullifier = nullifier;
                        nullified_root = nullified_root;
                        shown_account = e;
                        shown_nullifier = f;
                        root = ground arith;
                        hash = ground arith;
                        yay = ground (arith, uint64.add_lem r.yay weight);
                        nay = ground (arith, uint64.add_lem r.nay weight);
                        abstain = ground (arith, uint64.add_lem r.abstain weight);
                      }
                ]
        ]

module _ (o : O1js) (laws : FieldLaws o) (pairs : CollisionFree o) (leaves : LeafCollisionFree o)
    (trees : Trees) (levels : ℕ) (sized : WellSized trees levels) (context : VoteReducerContext o)
    (input : VoteReducerPublicInput o) (weight : o.PublicKey → ℕ)
    (weighs : Weighs o laws pairs leaves trees levels sized context input.voting_ledger_root
      weight) where
  open o use {Field, PublicKey}

  Nullified : Field → (PublicKey → Bool) → Type 0
  Nullified root voted = Nullifies o laws pairs leaves trees levels sized context root voted

  -- What the rolling variables have become after some actions.
  record Tallied (voted : PublicKey → Bool) (actions : List (VoteAction o)) (r r' : Rolling o)
      : Type 0 where
    yay : r'.yay ≡ r.yay + weight_for o weight (yay_vote o) (counted o voted actions)
    nay : r'.nay ≡ r.nay + weight_for o weight (nay_vote o) (counted o voted actions)
    abstain :
        r'.abstain ≡ r.abstain + weight_for o weight (abstain_vote o) (counted o voted actions)
    hash : r'.to_actions_hash ≡ chain o r.to_actions_hash actions
    nullified : Nullified r'.to_nullifier_root (voters o voted actions)

  -- One round, with the weight and the nullifier that the trees hold.
  record Counted (voted : PublicKey → Bool) (a : VoteAction o) (r r' : Rolling o) : Type 0 where
    yay : r'.yay ≡ r.yay + gain o weight voted (yay_vote o) a
    nay : r'.nay ≡ r.nay + gain o weight voted (nay_vote o) a
    abstain : r'.abstain ≡ r.abstain + gain o weight voted (abstain_vote o) a
    nullified : Nullified r'.to_nullifier_root (next_voted o voted a)

  gain_lem :
      (voted : PublicKey → Bool) (vote : Field) (a : VoteAction o) (n balance : ℕ) (b : Bool)
      → balance ≡ weight a.public_key
      → b ≡ voted a.public_key
      → (if o.equals a.vote vote then n + (if is_dummy o a || b then 0 else balance) else n)
        ≡ n + gain o weight voted vote a
  unfolding gain
  gain_lem voted vote a n balance b same_balance same = rw (same_balance, same) (ground arith)

  Round-sound :
      (voted : PublicKey → Bool) (a : VoteAction o) (r r' : Rolling o) (store : context.Store)
      → Nullified r.to_nullifier_root voted
      → Round o trees context input a r store r'
      → Counted voted a r r'
  unfolding Nullified next_voted
  Round-sound voted a r r' store n round =
      let balance =
        account_opened o laws pairs leaves trees levels sized context input store a.public_key
          weight weighs round.shown_account in
      let (nullifier, marked) =
        nullifier_opened o laws pairs leaves trees levels sized context r.to_nullifier_root voted
          store a.public_key n round.shown_nullifier in
      record {
        yay = round.yay ∙ gain_lem voted (yay_vote o) a r.yay _ _ balance nullifier;
        nay = round.nay ∙ gain_lem voted (nay_vote o) a r.nay _ _ balance nullifier;
        abstain = round.abstain ∙ gain_lem voted (abstain_vote o) a r.abstain _ _ balance nullifier;
        nullified = elim (Bool-cases (is_dummy o a)) [
          | inl e ↦ rw (round.root, e) n
          | inr e ↦ rw (round.root, e) marked
        ];
      }

  nothing-Tallied :
      (voted : PublicKey → Bool) (r : Rolling o)
      → Nullified r.to_nullifier_root voted
      → Tallied voted [] r r
  unfolding weight_for counted chain voters
  nothing-Tallied voted r n = record {
    yay = omega arith;
    nay = omega arith;
    abstain = omega arith;
    hash = refl;
    nullified = n;
  }

  more-Tallied :
      (voted : PublicKey → Bool) (a : VoteAction o) (actions : List (VoteAction o))
      (r s r' : Rolling o)
      → Counted voted a r s
      → (s.to_actions_hash ≡ (
          if is_dummy o a
          then r.to_actions_hash
          else append_action_to_hash_list o r.to_actions_hash (vote_action_fields o a)))
      → Tallied (next_voted o voted a) actions s r'
      → Tallied voted (a ∷ actions) r r'
  unfolding chain voters next_voted
  more-Tallied voted a actions r s r' first hash rest =
      let split = λ (vote : Field). weight_for-counted o weight voted vote a actions in
      record {
        yay = omega (arith, first.yay, rest.yay, split (yay_vote o));
        nay = omega (arith, first.nay, rest.nay, split (nay_vote o));
        abstain = omega (arith, first.abstain, rest.abstain, split (abstain_vote o));
        hash = rw (← hash) rest.hash;
        nullified = rest.nullified;
      }

  loop_sound :
      (actions : List (VoteAction o)) (voted : PublicKey → Bool) (r r' : Rolling o)
      (store : context.Store) {store' : context.Store}
      → Nullified r.to_nullifier_root voted
      → reduce_loop o trees context input actions (r, store) ≡ ok (r', store')
      → Tallied voted actions r r'
  unfolding reduce_loop
  loop_sound [] voted r r' store n h =
      let same : r ≡ r' = ground arith in rw (← same) (nothing-Tallied voted r n)
  loop_sound (a ∷ actions) voted r r' store n h =
      elim (Result-cases (reduce_action o trees context input a (r, store))) [
        | inr (x, e) ↦ absurd (ground arith)
        | inl ((s, store''), e) ↦
            let round = reduce_action_inv o trees context input a r store e in
            let first = Round-sound voted a r s store n round in
            let rest =
              loop_sound actions (next_voted o voted a) s r' store'' first.nullified (rw e at h) in
            more-Tallied voted a actions r s r' first round.hash rest
      ]

  -- A batch that goes through computes the ballot box, whatever the prover's ledgers answer. The
  -- voting root stands for a weight of each key, and the nullifier root that the batch starts from
  -- for the keys that have voted. Then each tally is the weight of the actions with that vote that
  -- count: the first of each key that has not voted before, the padding left out. The action hash
  -- is the hash list of the actions without the padding, and the new nullifier root stands for the
  -- old and the new voters. The hashes are free of collisions, and the trees are sized for the
  -- field.
  pub reduce_batch_sound :
      (actions : List (VoteAction o)) (voted : PublicKey → Bool) (store : context.Store)
      {out : VoteReducerPublicOutput o} {store' : context.Store}
      → Nullifies o laws pairs leaves trees levels sized context input.from_nullifier_root voted
      → reduce_batch o trees context input actions store ≡ ok (out, store')
      → (out.yay ≡ weight_for o weight (yay_vote o) (counted o voted actions))
        × (out.nay ≡ weight_for o weight (nay_vote o) (counted o voted actions))
        × (out.abstain ≡ weight_for o weight (abstain_vote o) (counted o voted actions))
        × (out.to_actions_hash ≡ chain o input.from_actions_hash actions)
        × Nullifies o laws pairs leaves trees levels sized context out.to_nullifier_root
            (voters o voted actions)
  unfolding reduce_batch start_batch batch_output Nullified
  reduce_batch_sound actions voted store {out} n h =
      elim (Result-cases
        (reduce_loop o trees context input actions (start_batch o trees context input, store))) [
          | inr (x, e) ↦ absurd (ground arith)
          | inl ((r, store''), e) ↦
              let all = loop_sound actions voted (start_batch o trees context input) r store n e in
              let same : out ≡ batch_output o trees context r = ground arith in
              rw same (
                omega (arith, all.yay),
                omega (arith, all.nay),
                omega (arith, all.abstain),
                all.hash,
                all.nullified,
              )
        ]
