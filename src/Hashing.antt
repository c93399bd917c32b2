-- ===== src/Hashing.antt =====
-- packages/sdk/src/provable/hashing-helpers.ts over the Poseidon sponge.
mod Tests
use decentralised_treasury.Prelude.{List, [], ◌∷◌, String}
use decentralised_treasury.Circuit.{O1js}

abbrev pub event_prefix : String
event_prefix = "MinaZkappEvent******"

abbrev pub sequence_events_prefix : String
sequence_events_prefix = "MinaZkappSeqEvents**"

abbrev pub actions_empty_prefix : String
actions_empty_prefix = "MinaZkappActionsEmpty"

module _ (o : O1js) where
  open o use {Field, of_nat, poseidon_update, prefix_to_field}

  unfoldable pub initial_state : Field × Field × Field
  initial_state = (of_nat 0, of_nat 0, of_nat 0)

  unfoldable pub salt : String → Field × Field × Field
  salt prefix = poseidon_update initial_state (prefix_to_field prefix ∷ [])

  unfoldable pub hash_with_prefix : String → List Field → Field
  hash_with_prefix prefix input = (poseidon_update (salt prefix) input).0

  unfoldable pub empty_hash_with_prefix : String → Field
  empty_hash_with_prefix prefix = (salt prefix).0

  unfoldable pub actions_empty_hash : Field
  actions_empty_hash = empty_hash_with_prefix actions_empty_prefix

  unfoldable pub get_action_hash : List Field → Field
  get_action_hash action_fields = hash_with_prefix event_prefix action_fields

  -- One action, in a list of its own, appended to the chain of the earlier ones.
  unfoldable pub append_action_to_hash_list : Field → List Field → Field
  append_action_to_hash_list initial_actions_hash action_fields =
      let action_hash = get_action_hash action_fields in
      hash_with_prefix sequence_events_prefix (
        initial_actions_hash
        ∷ hash_with_prefix sequence_events_prefix (actions_empty_hash ∷ action_hash ∷ [])
        ∷ [])
