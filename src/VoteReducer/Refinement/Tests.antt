-- ===== src/VoteReducer/Refinement/Tests.antt =====
-- A batch on trees of two leaves: key 1 votes for with weight 50 and again against, then padding.
use decentralised_treasury.Prelude.{
  ℕ, ◌≡◌, refl, Bool, true, false, List, [], ◌∷◌, if◌then◌else◌, ◌==◌, arith,
}
use decentralised_treasury.Circuit.{ok}
use decentralised_treasury.Circuit.Integers.{ℤ, pos}
use decentralised_treasury.Circuit.Lawful.{lawful_o1js, lawful}
use decentralised_treasury.Hashing.{
  hash_with_prefix, append_action_to_hash_list, get_action_hash, actions_empty_hash,
  empty_hash_with_prefix, salt, initial_state,
}
use decentralised_treasury.Merkle.Witness.{
  hash_pair, calculate_root, calculate_index, prefixed_merkle_witness, bool_to_field,
}
use decentralised_treasury.Merkle.Complete.{tree_root, parents}
use decentralised_treasury.VoteReducer.Types.{
  VoteAction, VoteReducerPublicInput, VoteReducerPublicOutput, voting_leaf, nullifier_leaf,
  yay_vote, nay_vote, abstain_vote, is_dummy, is_valid_vote, vote_action_fields,
  history_from_target,
}
use decentralised_treasury.VoteReducer.Batch.{VoteReducerContext, Trees, reduce_batch}
use decentralised_treasury.VoteReducer.Ballots.{counted, voters, weight_for, chain}
use decentralised_treasury.VoteReducer.Refinement.{WellSized, Weighs, Nullifies}
use decentralised_treasury.VoteReducer.Refinement.Sample.{
  pairs_collision_free, leaves_collision_free,
}
use decentralised_treasury.VoteReducer.Refinement.Count.{reduce_batch_sound}
use decentralised_treasury.VoteReducer.Batch.History.{reported, history_found}

abbrev two_leaves : Trees
two_leaves = record {
  height = 2;
  voting_prefixes = "voting" ∷ [];
  nullifier_prefixes = "nullifier" ∷ [];
}

two_leaves_WellSized : WellSized two_leaves 1
two_leaves_WellSized = record {
  height = refl;
  small = omega arith;
  voting = omega arith;
  nullifier = omega arith;
}

abbrev weight : ℕ → ℕ
weight key = if key == 1 then 50 else 0

abbrev nobody : ℕ → Bool
nobody key = false

abbrev voting_nodes : ℕ → ℤ
voting_nodes i = voting_leaf lawful_o1js (record { balance = weight i })

abbrev nullifier_nodes : (ℕ → Bool) → ℕ → ℤ
nullifier_nodes voted i = nullifier_leaf lawful_o1js (voted i)

-- The path of key 0 or 1.
abbrev path : (ℕ → ℤ) → ℕ → List (Bool × ℤ)
path nodes key = (key == 0, nodes (if key == 0 then 1 else 0)) ∷ []

abbrev ledgers : VoteReducerContext lawful_o1js
ledgers = record {
  Store = ℕ → Bool;
  get_voting_account = λ store key. record { balance = weight key };
  get_voting_witness = λ store key. path voting_nodes key;
  get_nullifier = λ store key. store key;
  get_nullifier_witness = λ store key. path (nullifier_nodes store) key;
  set_nullifier = λ store key b k. if k == key then b else store k;
  set_nullifier_leaf = λ store key b. store;
}

abbrev input : VoteReducerPublicInput lawful_o1js
input = record {
  from_actions_hash = pos 11;
  voting_ledger_root = tree_root lawful_o1js 1 ("voting" ∷ []) voting_nodes;
  from_nullifier_root = tree_root lawful_o1js 1 ("nullifier" ∷ []) (nullifier_nodes nobody);
  action_state_history_target = record {
    action_state_one = pos 1;
    action_state_two = pos 2;
    action_state_three = pos 3;
    action_state_four = pos 4;
    action_state_five = pos 5;
  };
}

abbrev ballots : List (VoteAction lawful_o1js)
ballots =
    record { vote = pos 1; public_key = 1 }
    ∷ record { vote = pos 2; public_key = 1 }
    ∷ record { vote = pos 0; public_key = 0 }
    ∷ []

voting_Weighs :
    Weighs lawful_o1js lawful pairs_collision_free leaves_collision_free two_leaves 1
      two_leaves_WellSized ledgers input.voting_ledger_root weight
voting_Weighs = record {
  nodes = voting_nodes;
  is_root = refl;
  leaf = λ key i slot. let same : i ≡ key = ground (arith, slot.1) in rw same refl;
}

empty_Nullifies :
    Nullifies lawful_o1js lawful pairs_collision_free leaves_collision_free two_leaves 1
      two_leaves_WellSized ledgers input.from_nullifier_root nobody
empty_Nullifies = record {
  nodes = nullifier_nodes nobody;
  is_root = refl;
  leaf = λ key i slot. refl;
}

abbrev result : VoteReducerPublicOutput lawful_o1js
result = record {
  to_actions_hash =
      append_action_to_hash_list lawful_o1js
        (append_action_to_hash_list lawful_o1js (pos 11) (pos 1 ∷ pos 1 ∷ [])) (pos 2 ∷ pos 1 ∷ []);
  to_nullifier_root =
      hash_pair lawful_o1js "nullifier"
        (nullifier_leaf lawful_o1js false, nullifier_leaf lawful_o1js true);
  yay = 50;
  nay = 0;
  abstain = 0;
  action_state_history = history_from_target lawful_o1js input.action_state_history_target;
}

abbrev after : ℕ → Bool
after k = if k == 1 then true else (if k == 1 then true else false)

reduced : reduce_batch lawful_o1js two_leaves ledgers input ballots nobody ≡ ok (result, after)
unfolding reduce_batch is_valid_vote prefixed_merkle_witness calculate_index calculate_root
    tree_root parents voting_leaf hash_with_prefix nullifier_leaf is_dummy vote_action_fields
    history_from_target append_action_to_hash_list get_action_hash actions_empty_hash
    empty_hash_with_prefix salt initial_state bool_to_field
reduced = refl

reduce_batch_sound_example :
    (50 ≡ weight_for lawful_o1js weight (yay_vote lawful_o1js) (counted lawful_o1js nobody ballots))
    × (0
        ≡ weight_for lawful_o1js weight (nay_vote lawful_o1js) (counted lawful_o1js nobody ballots))
    × (0
        ≡ weight_for lawful_o1js weight
            (abstain_vote lawful_o1js)
            (counted lawful_o1js nobody ballots))
    × (result.to_actions_hash ≡ chain lawful_o1js (pos 11) ballots)
    × Nullifies lawful_o1js lawful pairs_collision_free leaves_collision_free two_leaves 1
        two_leaves_WellSized ledgers result.to_nullifier_root
        (voters lawful_o1js nobody ballots)
reduce_batch_sound_example =
    reduce_batch_sound lawful_o1js lawful pairs_collision_free leaves_collision_free two_leaves 1
      two_leaves_WellSized ledgers input weight voting_Weighs ballots nobody nobody empty_Nullifies
      reduced

history_found_example :
    let report = reported lawful_o1js two_leaves ledgers input ballots in
    let target = input.action_state_history_target in
    result.action_state_history ≡ record {
      action_state_one = report target.action_state_one;
      action_state_two = report target.action_state_two;
      action_state_three = report target.action_state_three;
      action_state_four = report target.action_state_four;
      action_state_five = report target.action_state_five;
    }
history_found_example = history_found lawful_o1js two_leaves ledgers input ballots nobody reduced
