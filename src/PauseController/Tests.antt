-- ===== src/PauseController/Tests.antt =====
-- A controller of five participants, three of which sign.
use decentralised_treasury.Prelude.{◌≤◌, ◌≡◌, ◌≢◌, ◌↔◌, refl, List, [], ◌∷◌, ℕ, length, true, false}
use decentralised_treasury.Circuit.{ok}
use decentralised_treasury.Circuit.Sample.{sample_o1js}
use decentralised_treasury.PauseController.{
  ControllerState, create_commitment, init_controller, multisig_participants_count,
  min_valid_multisig_signatures_count, verify_signatures, pause_treasury, unpause_treasury,
  data_rotate_multisig_keys, data_pause_treasury, data_unpause_treasury, data_toggle_pause_proposal,
}
use decentralised_treasury.Hashing.{hash_with_prefix}
use decentralised_treasury.Merkle.Witness.{bool_to_field}
use decentralised_treasury.PauseController.Quorum.{
  valid_places, verify_signatures_iff, SignedCall, SignedRun, run_signed, signed_data,
  signed_result, signed_call_authorised, signed_call_replay,
}

abbrev participants : List ℕ
participants = 1 ∷ 2 ∷ 3 ∷ 4 ∷ 5 ∷ []

-- The first, the third and the fourth participant sign; the other places hold bad signatures.
abbrev signatures : List ℕ
signatures = 1 ∷ 0 ∷ 3 ∷ 4 ∷ 0 ∷ []

abbrev running : ControllerState sample_o1js
running = record {
  multisig_commitment = create_commitment sample_o1js participants;
  paused = false;
  nonce = 0;
}

abbrev stopped : ControllerState sample_o1js
stopped = record {
  multisig_commitment = create_commitment sample_o1js participants;
  paused = true;
  nonce = 1;
}

abbrev resumed : ControllerState sample_o1js
resumed = record {
  multisig_commitment = create_commitment sample_o1js participants;
  paused = false;
  nonce = 2;
}

deployed : init_controller sample_o1js participants ≡ ok running
unfolding init_controller
deployed = refl

pausing : run_signed sample_o1js running participants signatures 0 SignedCall.pauses ≡ ok stopped
unfolding run_signed pause_treasury create_commitment
pausing = refl

unpausing :
    run_signed sample_o1js stopped participants signatures 1 SignedCall.unpauses ≡ ok resumed
unfolding run_signed unpause_treasury create_commitment
unpausing = refl

verify_signatures_iff_example :
    (verify_signatures sample_o1js running participants signatures 77 ≡ ok tt) ↔ (
      (length participants ≡ multisig_participants_count)
      × (create_commitment sample_o1js participants ≡ running.multisig_commitment)
      × (min_valid_multisig_signatures_count ≤ valid_places sample_o1js signatures participants 77))
verify_signatures_iff_example =
    verify_signatures_iff sample_o1js running participants signatures 77 refl

signed_call_authorised_example :
    (create_commitment sample_o1js participants ≡ running.multisig_commitment)
    × (min_valid_multisig_signatures_count
        ≤ valid_places sample_o1js signatures participants
            (signed_data sample_o1js running 0 SignedCall.pauses))
    × (running.nonce ≡ 0)
    × (stopped ≡ signed_result sample_o1js running SignedCall.pauses)
signed_call_authorised_example =
    signed_call_authorised sample_o1js running participants signatures 0 SignedCall.pauses refl
      pausing

-- The pause is not repeated after the treasury has been resumed.
signed_call_replay_example :
    run_signed sample_o1js resumed participants signatures 0 SignedCall.pauses ≢ ok stopped
signed_call_replay_example =
    signed_call_replay sample_o1js running participants participants signatures signatures 0
      SignedCall.pauses SignedCall.pauses pausing
      (SignedRun.next participants signatures 1 SignedCall.unpauses SignedRun.here unpausing)

-- The messages carry the prefix of their method and what they authorise.
pause_message : data_pause_treasury sample_o1js 3 ≡ hash_with_prefix sample_o1js "MFDTpt" (3 ∷ [])
unfolding data_pause_treasury
pause_message = refl

unpause_message :
    data_unpause_treasury sample_o1js 3 ≡ hash_with_prefix sample_o1js "MFDTupt" (3 ∷ [])
unfolding data_unpause_treasury
unpause_message = refl

rotate_message :
    data_rotate_multisig_keys sample_o1js 7 8 3
    ≡ hash_with_prefix sample_o1js "MFDTrmk" (7 ∷ 8 ∷ 3 ∷ [])
unfolding data_rotate_multisig_keys
rotate_message = refl

toggle_message :
    data_toggle_pause_proposal sample_o1js 9 5 3 true
    ≡ hash_with_prefix sample_o1js "MFDTtpp" (9 ∷ 5 ∷ 3 ∷ 1 ∷ [])
unfolding data_toggle_pause_proposal bool_to_field
toggle_message = refl
