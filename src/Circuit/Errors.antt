-- ===== src/Circuit/Errors.antt =====
-- The reasons for which a method or a program rejects, one for each message of the source, and the
-- monad of code that may reject.
use decentralised_treasury.Prelude.{Bool, true, false, ◌≡◌, refl, ◌⊎◌, inl, inr}

pub data Error : Type 0 where
  -- unsigned arithmetic out of range, or a division by zero
  uint_range : Error
  -- an account or network precondition that does not hold
  precondition witness_height_mismatch : Error
  leaf_index_out_of_range too_many_leaves : Error
  unknown_proposal insufficient_balance missing_signature : Error
  -- treasury-owner.ts
  amount_too_small owner_key_mismatch owner_token_mismatch owner_balance_not_positive : Error
  owner_witness_mismatch outside_period dummy_vote action_state_not_found : Error
  initial_action_state_used action_states_not_unique token_update_not_allowed : Error
  -- the emergency withdrawal
  withdrawal_of_nothing withdrawal_to_owner withdrawal_not_permitted : Error
  -- treasury-proposal.ts
  proposal_paused vote_result_already_set from_actions_hash_mismatch : Error
  from_nullifier_root_mismatch voting_ledger_root_mismatch index_not_zero : Error
  initial_voting_root_not_empty staking_root_mismatch not_exhausted : Error
  to_actions_hash_mismatch participation_not_met no_approval_votes : Error
  proposal_not_approved amount_exceeds_remaining recipient_mismatch : Error
  invalid_pause_nonce pause_state_matches_target proof_not_verified : Error
  -- the pause controller
  invalid_multisig_commitment not_enough_valid_signatures not_enough_participants : Error
  treasury_paused : Error
  -- vote-reducer.ts and staking-ledger-to-voting-ledger.ts
  invalid_vote voting_account_index_mismatch nullifier_index_mismatch : Error
  nullifier_root_mismatch merge_input_mismatch merge_actions_mismatch : Error
  merge_nullifier_mismatch merge_voting_root_mismatch merge_history_mismatch : Error
  staking_index_mismatch merge_staking_root_mismatch merge_index_mismatch : Error

-- A transaction is accepted with what it makes, or rejected with the reason.
pub data Result {ℓ} (Value : Type ℓ) : Type ℓ where
  err : (reason : Error) → Result Value
  ok : (value : Value) → Result Value

-- `assertTrue` with its message.
abbrev pub require : Bool → Error → Result (Unit {0})
require false reason = err reason
require true _ = ok tt

-- What comes after a rejection is not run.
infixl 5 ◌>>=◌
abbrev pub ◌>>=◌ {κ ℓ} : {S : Type κ} {T : Type ℓ} → Result S → (S → Result T) → Result T
err reason >>= next = err reason
ok value >>= next = next value

infixl 5 ◌>>◌
abbrev pub ◌>>◌ {ℓ} : {T : Type ℓ} → Result (Unit {0}) → Result T → Result T
check >> next = check >>= λ done. next

-- To split on a computed result and keep the equation.
pub Result-cases {ℓ} :
    {S : Type ℓ} (r : Result S) → ((value : S) × (r ≡ ok value)) ⊎ ((e : Error) × (r ≡ err e))
Result-cases (err reason) = inr (reason, refl)
Result-cases (ok value) = inl (value, refl)

-- Both halves of a bind that is accepted are accepted.
pub >>=-eq-ok {κ ℓ} :
    {S : Type κ} {T : Type ℓ} (first : Result S) (next : S → Result T) {t : T}
    → (first >>= next) ≡ ok t
    → (s : S) × (first ≡ ok s) × (next s ≡ ok t)
>>=-eq-ok (err reason) next e = cc
>>=-eq-ok (ok value) next e = (value, refl, e)

pub require_inv {ℓ} :
    {T : Type ℓ} (test : Bool) (reason : Error) (next : Result T) {t : T}
    → (require test reason >> next) ≡ ok t
    → (test ≡ true) × (next ≡ ok t)
require_inv false reason next e = cc
require_inv true reason next e = (refl, e)
