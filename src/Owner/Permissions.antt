-- ===== src/Owner/Permissions.antt =====
-- packages/sdk/src/provable/contracts/treasury-owner.ts: the permissions that a deployment of the
-- treasury owner sets.
use decentralised_treasury.Prelude.{Bool, true, false}

-- `TreasuryOwnerWithdrawalPermission`
pub data WithdrawalPermission : Type 0 where
  proof : WithdrawalPermission
  proof_or_signature : WithdrawalPermission

-- What a change of the account has to be authorized by.
pub data Authorization : Type 0 where
  impossible : Authorization
  by_proof : Authorization
  by_proof_or_signature : Authorization
  impossible_during_current_version : Authorization

-- The permissions that are set by name, and the one that all others have.
pub record OwnerPermissions : Type 0 where
  pub edit_state : Authorization
  pub access : Authorization
  pub increment_nonce : Authorization
  pub set_verification_key : Authorization
  pub send : Authorization
  pub receive : Authorization
  pub others : Authorization

unfoldable pub withdrawal_authorization : WithdrawalPermission → Authorization
withdrawal_authorization WithdrawalPermission.proof = by_proof
withdrawal_authorization WithdrawalPermission.proof_or_signature = by_proof_or_signature

-- `createTreasuryOwnerPermissions`; `allImpossible` is what the others have.
unfoldable pub create_treasury_owner_permissions : WithdrawalPermission → OwnerPermissions
unfolding withdrawal_authorization
create_treasury_owner_permissions permission = record {
  edit_state = by_proof;
  access = withdrawal_authorization permission;
  increment_nonce = by_proof_or_signature;
  set_verification_key = impossible_during_current_version;
  send = withdrawal_authorization permission;
  receive = by_proof;
  others = impossible;
}

-- `permissionsEqual` with `Permissions.proofOrSignature()`
unfoldable pub permits_signature : Authorization → Bool
permits_signature by_proof_or_signature = true
permits_signature _ = false
