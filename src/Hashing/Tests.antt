-- ===== src/Hashing/Tests.antt =====
-- The hash list of actions on the sample field.
use decentralised_treasury.Prelude.{◌≡◌, refl, [], ◌∷◌}
use decentralised_treasury.Circuit.Sample.{sample_o1js}
use decentralised_treasury.Hashing.{
  initial_state, salt, hash_with_prefix, empty_hash_with_prefix, actions_empty_hash,
  get_action_hash, append_action_to_hash_list,
}

one_action : append_action_to_hash_list sample_o1js 11 (1 ∷ 4 ∷ []) ≡ 625690
unfolding initial_state salt hash_with_prefix empty_hash_with_prefix actions_empty_hash
    get_action_hash append_action_to_hash_list
one_action = refl
