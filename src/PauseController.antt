-- ===== src/PauseController.antt =====
-- packages/sdk/src/provable/contracts/treasury-pause-controller: multisig-signatures.ts and
-- treasury-pause-controller.ts. Signatures and participants are lists in the participants' order.
pub mod Quorum
mod Tests
use decentralised_treasury.Prelude.{
  ℕ, ◌+◌, List, [], ◌∷◌, ◌++◌, String, Bool, true, false, not, ltb, leb, ◌==◌, if◌then◌else◌,
  length,
}
use decentralised_treasury.Circuit.{
  O1js, Result, ok, err, ◌>>=◌, ◌>>◌, require, checked, precondition, invalid_multisig_commitment,
  not_enough_valid_signatures, not_enough_participants, treasury_paused,
}
use decentralised_treasury.Hashing.{hash_with_prefix}
use decentralised_treasury.Merkle.Witness.{bool_to_field}

abbrev pub multisig_participants_count : ℕ
multisig_participants_count = 5

abbrev pub min_valid_multisig_signatures_count : ℕ
min_valid_multisig_signatures_count = 3

abbrev pub prefix_toggle_pause_proposal : String
prefix_toggle_pause_proposal = "MFDTtpp"

abbrev pub prefix_pause_treasury : String
prefix_pause_treasury = "MFDTpt"

abbrev pub prefix_unpause_treasury : String
prefix_unpause_treasury = "MFDTupt"

abbrev pub prefix_rotate_multisig_keys : String
prefix_rotate_multisig_keys = "MFDTrmk"

module _ (o : O1js) where
  open o use {
    Field, of_nat, PublicKey, key_fields, Signature, verify_signature, poseidon_hash, equals,
    uint32,
  }

  pub data_toggle_pause_proposal : PublicKey → Field → ℕ → Bool → Field
  data_toggle_pause_proposal proposal_key token_id nonce paused =
      hash_with_prefix o prefix_toggle_pause_proposal
        (key_fields proposal_key ++ token_id ∷ of_nat nonce ∷ bool_to_field o paused ∷ [])

  pub data_pause_treasury : ℕ → Field
  data_pause_treasury nonce = hash_with_prefix o prefix_pause_treasury (of_nat nonce ∷ [])

  pub data_unpause_treasury : ℕ → Field
  data_unpause_treasury nonce = hash_with_prefix o prefix_unpause_treasury (of_nat nonce ∷ [])

  pub data_rotate_multisig_keys : Field → Field → ℕ → Field
  data_rotate_multisig_keys old new nonce =
      hash_with_prefix o prefix_rotate_multisig_keys (old ∷ new ∷ of_nat nonce ∷ [])

  all_key_fields : List PublicKey → List Field
  all_key_fields [] = []
  all_key_fields (key ∷ keys) = key_fields key ++ all_key_fields keys

  pub create_commitment : List PublicKey → Field
  unfolding all_key_fields
  create_commitment participants = poseidon_hash (all_key_fields participants)

  -- `reduce` over the signatures, from the count so far.
  pub count_valid : List Signature → List PublicKey → Field → ℕ → Result ℕ
  count_valid [] keys message count = ok count
  count_valid (s ∷ ss) [] message count = err not_enough_participants
  count_valid (s ∷ ss) (key ∷ keys) message count = do
    next ← checked (uint32.add count (if verify_signature s key (message ∷ []) then 1 else 0))
    count_valid ss keys message next

  -- `MultisigSignatures.verify`
  pub verify_multisig : List Signature → Field → Field → List PublicKey → Result (Unit {0})
  unfolding create_commitment count_valid
  verify_multisig signatures message commitment participants = do
    require (equals (create_commitment participants) commitment) invalid_multisig_commitment
    count ← count_valid signatures participants message 0
    require (leb min_valid_multisig_signatures_count count) not_enough_valid_signatures

  -- The contract's state and its account nonce.
  pub record ControllerState : Type 0 where
    pub multisig_commitment : Field
    pub paused : Bool
    pub nonce : ℕ

  pub init_controller : List PublicKey → Result ControllerState
  unfolding create_commitment
  init_controller participants = do
    require (not (ltb (length participants) multisig_participants_count)) not_enough_participants
    ok (record { multisig_commitment = create_commitment participants; paused = false; nonce = 0 })

  -- The network checks the nonce and increments it.
  pub require_and_increment_nonce : ControllerState → ℕ → Result ControllerState
  require_and_increment_nonce c nonce = do
    require (c.nonce == nonce) precondition
    ok (record c { nonce = c.nonce + 1 })

  -- The participants are witnessed by the prover; the commitment binds them.
  pub verify_signatures :
      ControllerState → List PublicKey → List Signature → Field → Result (Unit {0})
  unfolding verify_multisig
  verify_signatures c participants signatures message = do
    require (length participants == multisig_participants_count) not_enough_participants
    verify_multisig signatures message c.multisig_commitment participants

  pub rotate_multisig_keys :
      ControllerState → List PublicKey → Field → ℕ → List Signature → Result ControllerState
  unfolding verify_signatures require_and_increment_nonce
  rotate_multisig_keys c participants commitment nonce signatures = do
    verify_signatures c participants signatures
        (data_rotate_multisig_keys c.multisig_commitment commitment nonce)
    c' ← require_and_increment_nonce c nonce
    ok (record c' { multisig_commitment = commitment })

  unfoldable pub require_not_paused : ControllerState → Result (Unit {0})
  require_not_paused c = require (not c.paused) treasury_paused

  pub pause_treasury :
      ControllerState → List PublicKey → List Signature → ℕ → Result ControllerState
  unfolding verify_signatures require_and_increment_nonce
  pause_treasury c participants signatures nonce = do
    verify_signatures c participants signatures (data_pause_treasury nonce)
    c' ← require_and_increment_nonce c nonce
    ok (record c' { paused = true })

  pub unpause_treasury :
      ControllerState → List PublicKey → List Signature → ℕ → Result ControllerState
  unfolding verify_signatures require_and_increment_nonce
  unpause_treasury c participants signatures nonce = do
    verify_signatures c participants signatures (data_unpause_treasury nonce)
    c' ← require_and_increment_nonce c nonce
    ok (record c' { paused = false })

  -- The authorisation of a proposal's pause; the controller's state stays.
  unfoldable pub toggle_pause_proposal :
      ControllerState
      → List PublicKey
      → PublicKey
      → Field
      → List Signature
      → ℕ
      → Bool
      → Result (Unit {0})
  unfolding verify_signatures
  toggle_pause_proposal c participants proposal_key token_id signatures nonce paused =
      verify_signatures c participants signatures
        (data_toggle_pause_proposal proposal_key token_id nonce paused)
