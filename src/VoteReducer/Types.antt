-- ===== src/VoteReducer/Types.antt =====
-- Votes, vote actions, the action state history, and the public inputs and outputs of the program;
-- and packages/sdk/src/provable/voting-account.ts.
use decentralised_treasury.Prelude.{ℕ, List, [], ◌∷◌, Bool, false, ◌&&◌, ◌||◌, bool_eq}
use decentralised_treasury.Circuit.{O1js}
use decentralised_treasury.Hashing.{hash_with_prefix}
use decentralised_treasury.Ledgers.{voting_account_hash_prefix, nullifier_hash_prefix}
use decentralised_treasury.Merkle.Witness.{bool_to_field}

-- `VOTE_ACTION_BATCH_SIZE`
abbrev pub vote_action_batch_size : ℕ
vote_action_batch_size = 5

pub record VotingAccount : Type 0 where
  pub balance : ℕ

module _ (o : O1js) where
  open o use {Field, of_nat, equals, PublicKey, key_fields, key_eq, empty_key}

  -- A vote is any field element; four of them are votes.
  abbrev pub Vote : Type 0
  Vote = Field

  abbrev pub dummy_vote : Vote
  dummy_vote = of_nat 0

  abbrev pub yay_vote : Vote
  yay_vote = of_nat 1

  abbrev pub nay_vote : Vote
  nay_vote = of_nat 2

  abbrev pub abstain_vote : Vote
  abstain_vote = of_nat 3

  -- `Vote.assertValid`
  unfoldable pub is_valid_vote : Vote → Bool
  is_valid_vote vote =
      ((equals vote yay_vote || equals vote nay_vote) || equals vote abstain_vote)
      || equals vote dummy_vote

  pub record VoteAction : Type 0 where
    pub vote : Vote
    pub public_key : PublicKey

  -- `VoteAction.toFields`
  unfoldable pub vote_action_fields : VoteAction → List Field
  vote_action_fields action = action.vote ∷ key_fields action.public_key

  unfoldable pub is_dummy : VoteAction → Bool
  is_dummy action = equals action.vote dummy_vote && key_eq action.public_key empty_key

  unfoldable pub dummy_action : VoteAction
  dummy_action = record { vote = dummy_vote; public_key = empty_key }

  pub record ActionStateHistoryTarget : Type 0 where
    pub action_state_one : Field
    pub action_state_two : Field
    pub action_state_three : Field
    pub action_state_four : Field
    pub action_state_five : Field

  pub record ActionState : Type 0 where
    pub hash : Field
    pub found : Bool

  pub record ActionStateHistory : Type 0 where
    pub action_state_one : ActionState
    pub action_state_two : ActionState
    pub action_state_three : ActionState
    pub action_state_four : ActionState
    pub action_state_five : ActionState

  pub action_state_eq : ActionState → ActionState → Bool
  action_state_eq a b = equals a.hash b.hash && bool_eq a.found b.found

  -- `ActionStateHistory.equals`
  unfoldable pub history_eq : ActionStateHistory → ActionStateHistory → Bool
  unfolding action_state_eq
  history_eq a b =
      action_state_eq a.action_state_one b.action_state_one
      && action_state_eq a.action_state_two b.action_state_two
      && action_state_eq a.action_state_three b.action_state_three
      && action_state_eq a.action_state_four b.action_state_four
      && action_state_eq a.action_state_five b.action_state_five

  unfoldable pub not_found : Field → ActionState
  not_found hash = record { hash = hash; found = false }

  -- `ActionStateHistory.fromTarget`
  unfoldable pub history_from_target : ActionStateHistoryTarget → ActionStateHistory
  unfolding not_found
  history_from_target t = record {
    action_state_one = not_found t.action_state_one;
    action_state_two = not_found t.action_state_two;
    action_state_three = not_found t.action_state_three;
    action_state_four = not_found t.action_state_four;
    action_state_five = not_found t.action_state_five;
  }

  pub record VoteReducerPublicInput : Type 0 where
    pub from_actions_hash : Field
    pub voting_ledger_root : Field
    pub from_nullifier_root : Field
    pub action_state_history_target : ActionStateHistoryTarget

  target_fields : ActionStateHistoryTarget → List Field
  target_fields t =
      t.action_state_one ∷ t.action_state_two ∷ t.action_state_three ∷ t.action_state_four
      ∷ t.action_state_five ∷ []

  -- `VoteReducerPublicInput.toFields`
  unfoldable pub public_input_fields : VoteReducerPublicInput → List Field
  unfolding target_fields
  public_input_fields i =
      i.from_actions_hash
      ∷ i.voting_ledger_root
      ∷ i.from_nullifier_root
      ∷ target_fields i.action_state_history_target

  pub record VoteReducerPublicOutput : Type 0 where
    pub to_actions_hash : Field
    pub to_nullifier_root : Field
    pub yay : ℕ
    pub nay : ℕ
    pub abstain : ℕ
    pub action_state_history : ActionStateHistory

  -- The leaves of the voting tree and of the nullifier tree.
  unfoldable pub voting_leaf : VotingAccount → Field
  voting_leaf account = hash_with_prefix o voting_account_hash_prefix (of_nat account.balance ∷ [])

  unfoldable pub nullifier_leaf : Bool → Field
  nullifier_leaf nullifier =
      hash_with_prefix o nullifier_hash_prefix (bool_to_field o nullifier ∷ [])
