-- ===== src/VoteReducer/Batch/History.antt =====
-- Which of the targeted action states a batch has passed.
use decentralised_treasury.Prelude.{
  ◌≡◌, refl, sym, ap, ◌∙◌, List, [], ◌∷◌, Bool, false, ◌||◌, arith, if◌then◌else◌, inl, inr,
}
use decentralised_treasury.Circuit.{O1js, ok, Result-cases}
use decentralised_treasury.Hashing.{append_action_to_hash_list}
use decentralised_treasury.VoteReducer.Types.{
  VoteAction, is_dummy, vote_action_fields, ActionState, ActionStateHistory, history_from_target,
  not_found, VoteReducerPublicInput, VoteReducerPublicOutput,
}
use decentralised_treasury.VoteReducer.Batch.{
  VoteReducerContext, Trees, Rolling, look, look_all, reduce_action, reduce_loop, start_batch,
  batch_output, reduce_batch, witnessed_account, witnessed_nullifier,
}

module _ (o : O1js) where
  open o use {Field, equals, uint64}

  -- The hash list after each of the actions.
  pub chain_hashes : Field → List (VoteAction o) → List Field
  chain_hashes hash [] = []
  chain_hashes hash (a ∷ xs) =
      let next =
        if is_dummy o a then hash else append_action_to_hash_list o hash (vote_action_fields o a) in
      next ∷ chain_hashes next xs

  pub among : List Field → Field → Bool
  among [] target = false
  among (h ∷ hs) target = equals h target || among hs target

  -- An action state with the flag of what was passed.
  seen : List Field → ActionState o → ActionState o
  unfolding among
  seen hs s = record s { found = s.found || among hs s.hash }

  seen_all : List Field → ActionStateHistory o → ActionStateHistory o
  unfolding seen
  seen_all hs s = record {
    action_state_one = seen hs s.action_state_one;
    action_state_two = seen hs s.action_state_two;
    action_state_three = seen hs s.action_state_three;
    action_state_four = seen hs s.action_state_four;
    action_state_five = seen hs s.action_state_five;
  }

  seen-nothing : (s : ActionState o) → seen [] s ≡ s
  unfolding seen among
  seen-nothing s = ground arith

  seen-look :
      (h : Field) (hs : List Field) (s : ActionState o) → seen hs (look o h s) ≡ seen (h ∷ hs) s
  unfolding seen among look
  seen-look h hs s = ground arith

  seen_all-look_all :
      (h : Field) (hs : List Field) (s : ActionStateHistory o)
      → seen_all hs (look_all o h s) ≡ seen_all (h ∷ hs) s
  unfolding seen_all look_all
  seen_all-look_all h hs s =
      rw
        (
          seen-look h hs s.action_state_one,
          seen-look h hs s.action_state_two,
          seen-look h hs s.action_state_three,
          seen-look h hs s.action_state_four,
          seen-look h hs s.action_state_five,
        )
        refl

  module _ (trees : Trees) (context : VoteReducerContext o) (input : VoteReducerPublicInput o) where
    -- The hash list and the history after one round.
    round_history :
        (a : VoteAction o) (r : Rolling o) (store : context.Store) {r' : Rolling o}
        {store' : context.Store}
        → reduce_action o trees context input a (r, store) ≡ ok (r', store')
        → (r'.to_actions_hash ≡ (
            if is_dummy o a
            then r.to_actions_hash
            else append_action_to_hash_list o r.to_actions_hash (vote_action_fields o a)))
          × (r'.history ≡ look_all o r'.to_actions_hash r.history)
    unfolding reduce_action
    round_history a r store {r'} h =
        elim (Result-cases (witnessed_account o trees context input store a.public_key)) [
          | inr (x, e) ↦ absurd (ground arith)
          | inl (account, e) ↦
              elim (Result-cases
                (witnessed_nullifier o trees context r.to_nullifier_root store a.public_key)) [
                  | inr (x, f) ↦ absurd (ground arith)
                  | inl ((nullifier, root), f) ↦ (ground arith, ground arith)
                ]
        ]

    seen_all-nothing : (s : ActionStateHistory o) → seen_all [] s ≡ s
    unfolding seen_all
    seen_all-nothing s =
        rw
          (
            seen-nothing s.action_state_one,
            seen-nothing s.action_state_two,
            seen-nothing s.action_state_three,
            seen-nothing s.action_state_four,
            seen-nothing s.action_state_five,
          )
          refl

    loop_history :
        (actions : List (VoteAction o)) (r : Rolling o) (store : context.Store) {r' : Rolling o}
        {store' : context.Store}
        → reduce_loop o trees context input actions (r, store) ≡ ok (r', store')
        → r'.history ≡ seen_all (chain_hashes r.to_actions_hash actions) r.history
    unfolding reduce_loop chain_hashes
    loop_history [] r store {r'} h =
        let same : r ≡ r' = ground arith in rw (← same) (sym (seen_all-nothing r.history))
    loop_history (a ∷ actions) r store {r'} h =
        elim (Result-cases (reduce_action o trees context input a (r, store))) [
          | inr (x, e) ↦ absurd (ground arith)
          | inl ((s, store''), e) ↦
              let (hash, looked) = round_history a r store e in
              let rest = loop_history actions s store'' (rw e at h) in
              rest
              ∙ ap (seen_all (chain_hashes s.to_actions_hash actions)) looked
              ∙ seen_all-look_all s.to_actions_hash (chain_hashes s.to_actions_hash actions)
                  r.history
              ∙ ap (λ x. seen_all (x ∷ chain_hashes x actions) r.history) hash
        ]

    -- What a batch reports of a targeted hash: the hash, and whether the list had it after one of the
    -- actions.
    abbrev pub reported : List (VoteAction o) → Field → ActionState o
    reported actions hash = record {
      hash = hash;
      found = among (chain_hashes input.from_actions_hash actions) hash;
    }

    -- A batch that goes through reports each of the five targeted action states as found exactly
    -- when its hash is that of the action list after one of the batch's actions, and leaves the five
    -- hashes as the public input has them, each in its place.
    pub history_found :
        (actions : List (VoteAction o)) (store : context.Store) {out : VoteReducerPublicOutput o}
        {store' : context.Store}
        → reduce_batch o trees context input actions store ≡ ok (out, store')
        → let target = input.action_state_history_target in
          out.action_state_history ≡ record {
            action_state_one = reported actions target.action_state_one;
            action_state_two = reported actions target.action_state_two;
            action_state_three = reported actions target.action_state_three;
            action_state_four = reported actions target.action_state_four;
            action_state_five = reported actions target.action_state_five;
          }
    unfolding reduce_batch start_batch batch_output seen_all seen history_from_target not_found
    history_found actions store {out} h =
        elim (Result-cases
          (reduce_loop o trees context input actions (start_batch o trees context input, store))) [
            | inr (x, e) ↦ absurd (ground arith)
            | inl ((r, store''), e) ↦
                let all = loop_history actions (start_batch o trees context input) store e in
                let same : out ≡ batch_output o trees context r = ground arith in rw same all
          ]
