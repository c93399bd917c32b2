-- ===== src/VoteReducer/Ballots.antt =====
-- The count of the votes as a ballot box makes it, with no tree and no hash.
use decentralised_treasury.Prelude.{
  ℕ, ◌+◌, ◌≤◌, ◌≡◌, refl, List, [], ◌∷◌, Bool, true, arith, if◌then◌else◌,
}
use decentralised_treasury.Circuit.{O1js}
use decentralised_treasury.Hashing.{append_action_to_hash_list}
use decentralised_treasury.VoteReducer.Types.{VoteAction, is_dummy, vote_action_fields}

module _ (o : O1js) where
  open o use {Field, PublicKey, key_eq, equals}

  -- The voters so far, with one more.
  unfoldable pub mark : (PublicKey → Bool) → PublicKey → PublicKey → Bool
  mark voted key k = if key_eq k key then true else voted k

  -- The actions that count: the first of each voter that has not voted before, the padding left out.
  unfoldable pub counted : (PublicKey → Bool) → List (VoteAction o) → List (VoteAction o)
  unfolding mark
  counted voted [] = []
  counted voted (a ∷ xs) =
      let skip = counted voted xs in
      let rest = counted (mark voted a.public_key) xs in
      if is_dummy o a then skip else (if voted a.public_key then rest else a ∷ rest)

  -- The voters after a list of actions.
  unfoldable pub voters : (PublicKey → Bool) → List (VoteAction o) → PublicKey → Bool
  unfolding mark
  voters voted [] = voted
  voters voted (a ∷ xs) = voters (if is_dummy o a then voted else mark voted a.public_key) xs

  -- The weight of the actions with one vote.
  unfoldable pub weight_for : (PublicKey → ℕ) → Field → List (VoteAction o) → ℕ
  weight_for weight vote [] = 0
  weight_for weight vote (a ∷ xs) =
      (if equals a.vote vote then weight a.public_key else 0) + weight_for weight vote xs

  -- How often a voter's actions count.
  unfoldable pub times : PublicKey → List (VoteAction o) → ℕ
  times key [] = 0
  times key (a ∷ xs) = (if key_eq a.public_key key then 1 else 0) + times key xs

  -- The hash chain over the actions, the padding left out.
  unfoldable pub chain : Field → List (VoteAction o) → Field
  chain hash [] = hash
  chain hash (a ∷ xs) =
      chain
        (if is_dummy o a then hash else append_action_to_hash_list o hash (vote_action_fields o a))
        xs

  times_of_voted :
      (key : PublicKey) (voted : PublicKey → Bool) (xs : List (VoteAction o))
      → voted key ≡ true
      → times key (counted voted xs) ≡ 0
  unfolding times counted mark
  times_of_voted key voted [] h = refl
  times_of_voted key voted (a ∷ xs) h = ground (
    arith,
    times_of_voted key voted xs h,
    times_of_voted key (mark voted a.public_key) xs,
    (o.key_eq_iff a.public_key key).0,
  )

  -- However often a voter has acted, at most one of its actions counts, and none if it had voted
  -- before.
  pub counted_once :
      (key : PublicKey) (voted : PublicKey → Bool) (xs : List (VoteAction o))
      → times key (counted voted xs) ≤ (if voted key then 0 else 1)
  unfolding times counted mark
  counted_once key voted [] = ground arith
  counted_once key voted (a ∷ xs) = ground (
    arith,
    counted_once key voted xs,
    counted_once key (mark voted a.public_key) xs,
    times_of_voted key (mark voted a.public_key) xs,
    (o.key_eq_iff a.public_key key).0,
    (o.key_eq_iff key a.public_key).1,
    (o.key_eq_iff key a.public_key).0,
  )
