-- ===== src/VoteReducer/Batch.antt =====
-- `VoteReducer.reduceBatch`.
pub mod History
use decentralised_treasury.Prelude.{ℕ, List, [], ◌∷◌, String, Bool, true, ◌||◌, if◌then◌else◌}
use decentralised_treasury.Circuit.{
  O1js, Result, ok, ◌>>=◌, ◌>>◌, require, checked, invalid_vote, voting_account_index_mismatch,
  voting_ledger_root_mismatch, nullifier_index_mismatch, nullifier_root_mismatch,
}
use decentralised_treasury.Hashing.{append_action_to_hash_list}
use decentralised_treasury.Ledgers.{
  voting_account_ledger_hash_prefixes, nullifier_ledger_hash_prefixes,
}
use decentralised_treasury.Merkle.Witness.{
  Witness, prefixed_merkle_witness, calculate_root, calculate_index,
}
use decentralised_treasury.VoteReducer.Types.{
  VotingAccount, VoteAction, is_valid_vote, is_dummy, vote_action_fields, yay_vote, nay_vote,
  abstain_vote, ActionState, ActionStateHistory, history_from_target, VoteReducerPublicInput,
  VoteReducerPublicOutput, voting_leaf, nullifier_leaf,
}

-- `VoteReducerContext`: the two ledgers that the prover reads the witnesses from and writes back
-- to. The circuit trusts none of their answers.
pub record VoteReducerContext (o : O1js) : Type 1 where
  pub Store : Type 0
  pub get_voting_account : Store → o.PublicKey → VotingAccount
  pub get_voting_witness : Store → o.PublicKey → Witness o
  pub get_nullifier : Store → o.PublicKey → Bool
  pub get_nullifier_witness : Store → o.PublicKey → Witness o
  pub set_nullifier : Store → o.PublicKey → Bool → Store
  pub set_nullifier_leaf : Store → o.PublicKey → Bool → Store

-- The shape of the two trees.
pub record Trees : Type 0 where
  pub height : ℕ
  pub voting_prefixes : List String
  pub nullifier_prefixes : List String

-- `PrefixedMerkleWitness255` and the prefixes of the two ledgers.
pub treasury_trees : Trees
treasury_trees = record {
  height = 255;
  voting_prefixes = voting_account_ledger_hash_prefixes;
  nullifier_prefixes = nullifier_ledger_hash_prefixes;
}

module _ (o : O1js) where
  open o use {Field, equals, poseidon_hash, key_fields, uint64}

  -- The variables that roll through the loop.
  pub record Rolling : Type 0 where
    pub to_actions_hash : Field
    pub to_nullifier_root : Field
    pub yay : ℕ
    pub nay : ℕ
    pub abstain : ℕ
    pub history : ActionStateHistory o

  -- `Provable.if(foundPreviously, foundPreviously, found)`. The target's hash is the history's.
  look : Field → ActionState o → ActionState o
  look to_actions_hash s = record s {
    found = if s.found then s.found else equals to_actions_hash s.hash;
  }

  unfoldable pub look_all : Field → ActionStateHistory o → ActionStateHistory o
  unfolding look
  look_all h s = record {
    action_state_one = look h s.action_state_one;
    action_state_two = look h s.action_state_two;
    action_state_three = look h s.action_state_three;
    action_state_four = look h s.action_state_four;
    action_state_five = look h s.action_state_five;
  }

  module _ (trees : Trees) (context : VoteReducerContext o) where
    open context use {Store}

    -- The voting account of the action, checked against the voting ledger's root.
    unfoldable pub witnessed_account :
        VoteReducerPublicInput o → Store → o.PublicKey → Result VotingAccount
    witnessed_account input store key = do
      let account = context.get_voting_account store key
      witness ← prefixed_merkle_witness o trees.height (context.get_voting_witness store key)
      let root = calculate_root o witness (voting_leaf o account) trees.voting_prefixes
      require (equals (calculate_index o witness) (poseidon_hash (key_fields key)))
          voting_account_index_mismatch
      require (equals root input.voting_ledger_root) voting_ledger_root_mismatch
      ok account

    -- The nullifier of the action, checked against the rolling root, and the root in which it is
    -- set.
    unfoldable pub witnessed_nullifier : Field → Store → o.PublicKey → Result (Bool × Field)
    witnessed_nullifier to_nullifier_root store key = do
      let nullifier = context.get_nullifier store key
      witness ← prefixed_merkle_witness o trees.height (context.get_nullifier_witness store key)
      let root = calculate_root o witness (nullifier_leaf o nullifier) trees.nullifier_prefixes
      require (equals (calculate_index o witness) (poseidon_hash (key_fields key)))
          nullifier_index_mismatch
      require (equals root to_nullifier_root) nullifier_root_mismatch
      ok (nullifier, calculate_root o witness (nullifier_leaf o true) trees.nullifier_prefixes)

    -- What the prover writes back for an action that is no padding.
    write_back : Bool → Store → o.PublicKey → Store
    write_back dummy store key =
        if dummy
        then store
        else context.set_nullifier_leaf (context.set_nullifier store key true) key true

    -- One round of the loop. Both values of a `Provable.if` are computed, so the sums have to fit
    -- also where they are not taken.
    unfoldable pub reduce_action :
        VoteReducerPublicInput o → VoteAction o → Rolling × Store → Result (Rolling × Store)
    unfolding witnessed_account witnessed_nullifier write_back look_all
    reduce_action input action (r, store) = do
      require (is_valid_vote o action.vote) invalid_vote
      let dummy = is_dummy o action
      account ← witnessed_account input store action.public_key
      (nullifier, nullified_root) ← witnessed_nullifier r.to_nullifier_root store action.public_key
      let weight : ℕ = if dummy || nullifier then 0 else account.balance
      yay ← checked (uint64.add r.yay weight)
      nay ← checked (uint64.add r.nay weight)
      abstain ← checked (uint64.add r.abstain weight)
      let to_actions_hash =
          if dummy
          then r.to_actions_hash
          else append_action_to_hash_list o r.to_actions_hash (vote_action_fields o action)
      ok (
        record {
          to_actions_hash = to_actions_hash;
          to_nullifier_root = if dummy then r.to_nullifier_root else nullified_root;
          yay = if equals action.vote (yay_vote o) then yay else r.yay;
          nay = if equals action.vote (nay_vote o) then nay else r.nay;
          abstain = if equals action.vote (abstain_vote o) then abstain else r.abstain;
          history = look_all to_actions_hash r.history;
        },
        write_back dummy store action.public_key,
      )

    unfoldable pub reduce_loop :
        VoteReducerPublicInput o → List (VoteAction o) → Rolling × Store → Result (Rolling × Store)
    unfolding reduce_action
    reduce_loop input [] state = ok state
    reduce_loop input (action ∷ actions) state =
        reduce_action input action state >>= reduce_loop input actions

    unfoldable pub start_batch : VoteReducerPublicInput o → Rolling
    start_batch input = record {
      to_actions_hash = input.from_actions_hash;
      to_nullifier_root = input.from_nullifier_root;
      yay = 0;
      nay = 0;
      abstain = 0;
      history = history_from_target o input.action_state_history_target;
    }

    unfoldable pub batch_output : Rolling → VoteReducerPublicOutput o
    batch_output r = record {
      to_actions_hash = r.to_actions_hash;
      to_nullifier_root = r.to_nullifier_root;
      yay = r.yay;
      nay = r.nay;
      abstain = r.abstain;
      action_state_history = r.history;
    }

    -- The method, on a batch of the fixed size.
    unfoldable pub reduce_batch :
        VoteReducerPublicInput o
        → List (VoteAction o)
        → Store
        → Result (VoteReducerPublicOutput o × Store)
    unfolding reduce_loop start_batch batch_output
    reduce_batch input actions store = do
      (r, store') ← reduce_loop input actions (start_batch input, store)
      ok (batch_output r, store')
