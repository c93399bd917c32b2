-- ===== src/PauseController/Quorum.antt =====
-- About the multisignature and the nonce of the pause controller.
use decentralised_treasury.Prelude.{
  ℕ, ◌+◌, ◌^◌, ◌≤◌, ◌<◌, ◌≡◌, ◌≢◌, refl, ◌↔◌, inl, inr, List, [], ◌∷◌, true, false, ◌==◌,
  if◌then◌else◌, length, arith, Bool-cases, ==→eq, ap,
}
use decentralised_treasury.Circuit.{O1js, Result, ok, add_ok}
use decentralised_treasury.PauseController.{
  multisig_participants_count, min_valid_multisig_signatures_count, ControllerState,
  create_commitment, count_valid, verify_multisig, verify_signatures, require_and_increment_nonce,
  rotate_multisig_keys, pause_treasury, unpause_treasury, data_rotate_multisig_keys,
  data_pause_treasury, data_unpause_treasury,
}

module _ (o : O1js) where
  open o use {Field, PublicKey, Signature, verify_signature, equals, uint32}

  -- How many of the participants, each at its own place, have signed the message.
  pub valid_places : List Signature → List PublicKey → Field → ℕ
  valid_places [] keys message = 0
  valid_places (s ∷ ss) [] message = 0
  valid_places (s ∷ ss) (key ∷ keys) message =
      (if verify_signature s key (message ∷ []) then 1 else 0) + valid_places ss keys message

  count_valid_lem :
      (ss : List Signature) (keys : List PublicKey) (message : Field) (count : ℕ)
      → length ss ≤ length keys
      → count + length ss < 2 ^ 32
      → count_valid o ss keys message count ≡ ok (count + valid_places ss keys message)
  unfolding count_valid valid_places
  count_valid_lem [] keys message count h fits = ground arith
  count_valid_lem (s ∷ ss) [] message count h fits = absurd (omega arith)
  count_valid_lem (s ∷ ss) (key ∷ keys) message count h fits =
      elim (Bool-cases (verify_signature s key (message ∷ []))) [
        | inl e ↦
            rw
              (
                e,
                add_ok uint32 count 1 (omega arith),
                count_valid_lem ss keys message (count + 1) (omega arith) (omega arith),
              )
              (ground arith)
        | inr e ↦
            rw
              (
                e,
                add_ok uint32 count 0 (omega arith),
                count_valid_lem ss keys message (count + 0) (omega arith) (omega arith),
              )
              (ground arith)
      ]

  -- With five signatures the check passes exactly when the five participants are those of the
  -- commitment and at least three of them have signed the message, each at its own place.
  pub verify_signatures_iff :
      (c : ControllerState o) (participants : List PublicKey) (signatures : List Signature)
      (message : Field)
      → length signatures ≡ multisig_participants_count
      → (verify_signatures o c participants signatures message ≡ ok tt) ↔ (
          (length participants ≡ multisig_participants_count)
          × (create_commitment o participants ≡ c.multisig_commitment)
          × (min_valid_multisig_signatures_count ≤ valid_places signatures participants message))
  unfolding verify_signatures verify_multisig
  verify_signatures_iff c participants signatures message h =
      elim (Bool-cases (length participants == multisig_participants_count)) [
        | inl e ↦
            let same = ==→eq (length participants) multisig_participants_count e in
            let counted =
              count_valid_lem signatures participants message 0 (omega arith) (omega arith) in
            let iff = o.equals_iff (create_commitment o participants) c.multisig_commitment in
            ((λ k. ground (arith, counted, iff.0)), (λ k. ground (arith, counted, iff.1)))
        | inr e ↦ ((λ k. ground arith), (λ k. ground arith))
      ]

  -- The methods that spend a nonce.
  pub data SignedCall : Type 0 where
    rotates : Field → SignedCall
    pauses : SignedCall
    unpauses : SignedCall

  unfoldable pub run_signed :
      ControllerState o
      → List PublicKey
      → List Signature
      → ℕ
      → SignedCall
      → Result (ControllerState o)
  run_signed c participants signatures nonce (rotates commitment) =
      rotate_multisig_keys o c participants commitment nonce signatures
  run_signed c participants signatures nonce pauses =
      pause_treasury o c participants signatures nonce
  run_signed c participants signatures nonce unpauses =
      unpause_treasury o c participants signatures nonce

  -- What the signatures of a call are over.
  pub signed_data : ControllerState o → ℕ → SignedCall → Field
  signed_data c nonce (rotates commitment) =
      data_rotate_multisig_keys o c.multisig_commitment commitment nonce
  signed_data c nonce pauses = data_pause_treasury o nonce
  signed_data c nonce unpauses = data_unpause_treasury o nonce

  -- What a call makes of the state.
  pub signed_result : ControllerState o → SignedCall → ControllerState o
  signed_result c (rotates commitment) = record c {
    multisig_commitment = commitment;
    nonce = c.nonce + 1;
  }
  signed_result c pauses = record c { paused = true; nonce = c.nonce + 1 }
  signed_result c unpauses = record c { paused = false; nonce = c.nonce + 1 }

  run_signed_inv :
      (c : ControllerState o) (participants : List PublicKey) (signatures : List Signature)
      (nonce : ℕ) (call : SignedCall) {c' : ControllerState o}
      → run_signed c participants signatures nonce call ≡ ok c'
      → (verify_signatures o c participants signatures (signed_data c nonce call) ≡ ok tt)
        × (c.nonce ≡ nonce)
        × (c' ≡ signed_result c call)
  unfolding run_signed signed_data signed_result rotate_multisig_keys pause_treasury
      unpause_treasury require_and_increment_nonce
  run_signed_inv c participants signatures nonce (rotates commitment) h = ground arith
  run_signed_inv c participants signatures nonce pauses h = ground arith
  run_signed_inv c participants signatures nonce unpauses h = ground arith

  -- A rotation, a pause or an unpause with five signatures goes through only if at least three of
  -- the five committed participants have signed this call at this nonce, and it changes the state
  -- as the call says: the nonce rises by one and nothing else of the state changes.
  pub signed_call_authorised :
      (c : ControllerState o) (participants : List PublicKey) (signatures : List Signature)
      (nonce : ℕ) (call : SignedCall) {c' : ControllerState o}
      → length signatures ≡ multisig_participants_count
      → run_signed c participants signatures nonce call ≡ ok c'
      → (create_commitment o participants ≡ c.multisig_commitment)
        × (min_valid_multisig_signatures_count
            ≤ valid_places signatures participants (signed_data c nonce call))
        × (c.nonce ≡ nonce)
        × (c' ≡ signed_result c call)
  signed_call_authorised c participants signatures nonce call h e =
      let (verified, spent, result) = run_signed_inv c participants signatures nonce call e in
      let (_, committed, enough) =
        (verify_signatures_iff c participants signatures (signed_data c nonce call) h).0 verified in
      (committed, enough, spent, result)

  -- A history of calls that went through.
  pub data SignedRun (c : ControllerState o) : ControllerState o → Type 0 where
    here : SignedRun c c
    next :
        {d e : ControllerState o} (participants : List PublicKey) (signatures : List Signature)
        (nonce : ℕ) (call : SignedCall)
        → SignedRun c d
        → run_signed d participants signatures nonce call ≡ ok e
        → SignedRun c e

  signed_result-nonce :
      (c : ControllerState o) (call : SignedCall) → (signed_result c call).nonce ≡ c.nonce + 1
  unfolding signed_result
  signed_result-nonce c (rotates commitment) = refl
  signed_result-nonce c pauses = refl
  signed_result-nonce c unpauses = refl

  SignedRun-nonce : {c d : ControllerState o} → SignedRun c d → c.nonce ≤ d.nonce
  SignedRun-nonce here = omega arith
  SignedRun-nonce (next {d} participants signatures nonce call r e) =
      let (_, _, result) = run_signed_inv d participants signatures nonce call e in
      rw result (omega (arith, SignedRun-nonce r, signed_result-nonce d call))

  -- Once a nonce is spent, no later call with that nonce goes through, whatever it is and whoever
  -- has signed it.
  pub signed_call_replay :
      (c : ControllerState o) (participants others : List PublicKey)
      (signatures again : List Signature) (nonce : ℕ) (call other : SignedCall)
      {d e f : ControllerState o}
      → run_signed c participants signatures nonce call ≡ ok d
      → SignedRun d e
      → run_signed e others again nonce other ≢ ok f
  signed_call_replay c participants others signatures again nonce call other {d} {e} spent r
        repeated =
      let (_, first, result) = run_signed_inv c participants signatures nonce call spent in
      let (_, second, _) = run_signed_inv e others again nonce other repeated in
      let later = ap (λ (s : ControllerState o). s.nonce) result in
      omega (arith, SignedRun-nonce r, signed_result-nonce c call, later)
