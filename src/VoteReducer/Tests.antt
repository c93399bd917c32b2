-- ===== src/VoteReducer/Tests.antt =====
-- The program on the sample field, with trees of one level.
use decentralised_treasury.Prelude.{ℕ, ◌+◌, ◌^◌, ◌<◌, ◌≡◌, ◌≤◌, refl, Bool, true, false, [], ◌∷◌}
use decentralised_treasury.Circuit.{ok}
use decentralised_treasury.VoteReducer.Merge.{VoteReducerProof, merge, merge_history}
use decentralised_treasury.VoteReducer.Merge.Joined.{Joined, FoundEither, merge_sound}
use decentralised_treasury.Circuit.Sample.{sample_o1js}
use decentralised_treasury.VoteReducer.Types.{
  is_dummy, dummy_action, ActionStateHistoryTarget, ActionStateHistory, public_input_fields,
}
use decentralised_treasury.VoteReducer.Ballots.{counted, times, counted_once}

dummy_is_dummy : is_dummy sample_o1js (dummy_action sample_o1js) ≡ true
unfolding is_dummy dummy_action
dummy_is_dummy = refl

-- Key 4 votes twice.
at_most_once :
    times sample_o1js 4 (
      counted sample_o1js
        (λ key. false)
        (record { vote = 1; public_key = 4 } ∷ record { vote = 2; public_key = 4 } ∷ []))
    ≤ 1
at_most_once =
    counted_once sample_o1js 4 (λ key. false)
      (record { vote = 1; public_key = 4 } ∷ record { vote = 2; public_key = 4 } ∷ [])

-- Two batches of one proposal, the second after the first.
abbrev target : ActionStateHistoryTarget sample_o1js
target = record {
  action_state_one = 51;
  action_state_two = 52;
  action_state_three = 53;
  action_state_four = 54;
  action_state_five = 55;
}

abbrev states : Bool → Bool → ActionStateHistory sample_o1js
states first second = record {
  action_state_one = record { hash = 51; found = first };
  action_state_two = record { hash = 52; found = second };
  action_state_three = record { hash = 53; found = false };
  action_state_four = record { hash = 54; found = false };
  action_state_five = record { hash = 55; found = false };
}

abbrev batch : (from to yay nay : ℕ) → Bool → Bool → VoteReducerProof sample_o1js
batch from to yay nay first second = record {
  public_input = record {
    from_actions_hash = from;
    voting_ledger_root = 33;
    from_nullifier_root = from + 100;
    action_state_history_target = target;
  };
  public_output = record {
    to_actions_hash = to;
    to_nullifier_root = to + 100;
    yay = yay;
    nay = nay;
    abstain = 0;
    action_state_history = states first second;
  };
}

merging :
    merge sample_o1js
      (λ proof. true)
      (batch 11 52 30 5 false true).public_input
      (batch 11 52 30 5 false true)
      (batch 52 51 7 1 true false)
    ≡ ok (record {
      to_actions_hash = 51;
      to_nullifier_root = 151;
      yay = 37;
      nay = 6;
      abstain = 0;
      action_state_history = states true true;
    })
unfolding merge merge_history public_input_fields
merging = refl

merge_sound_example :
    (true ≡ true)
    × (true ≡ true)
    × Joined sample_o1js
        (batch 11 52 30 5 false true).public_input
        (batch 11 52 30 5 false true)
        (batch 52 51 7 1 true false)
    × (◌≡◌ {A = ℕ} 51 51)
    × (◌≡◌ {A = ℕ} 151 151)
    × (37 ≡ 30 + 7)
    × (6 ≡ 5 + 1)
    × (0 ≡ 0 + 0)
    × (37 < 2 ^ 64)
    × (6 < 2 ^ 64)
    × (0 < 2 ^ 64)
    × FoundEither sample_o1js
        (record { hash = 51; found = false })
        (record { hash = 51; found = true })
        (record { hash = 51; found = true })
    × FoundEither sample_o1js
        (record { hash = 52; found = true })
        (record { hash = 52; found = false })
        (record { hash = 52; found = true })
    × FoundEither sample_o1js
        (record { hash = 53; found = false })
        (record { hash = 53; found = false })
        (record { hash = 53; found = false })
    × FoundEither sample_o1js
        (record { hash = 54; found = false })
        (record { hash = 54; found = false })
        (record { hash = 54; found = false })
    × FoundEither sample_o1js
        (record { hash = 55; found = false })
        (record { hash = 55; found = false })
        (record { hash = 55; found = false })
merge_sound_example =
    merge_sound sample_o1js (λ proof. true) (batch 11 52 30 5 false true).public_input
      (batch 11 52 30 5 false true) (batch 52 51 7 1 true false) merging
