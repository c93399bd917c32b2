-- ===== src/Owner/Methods/Withdrawal.antt =====
-- `emergencyWithdraw` of packages/sdk/src/services/sqlite/sqlite-treasury-owner-service.ts: a debit of
-- the treasury that its key signs, which is no method of the contract.
use decentralised_treasury.Prelude.{ℕ, ◌-◌, not, leb, ◌&&◌, ◌==◌}
use decentralised_treasury.Circuit.{
  O1js, Result, ok, ◌>>◌, require, missing_signature, insufficient_balance, withdrawal_of_nothing,
  withdrawal_to_owner, withdrawal_not_permitted,
}
use decentralised_treasury.Owner.Permissions.{create_treasury_owner_permissions, permits_signature}
use decentralised_treasury.Owner.Methods.{OwnerSettings, Transaction, World}

-- The service's checks, then those of the transaction: the sender's and the owner's signatures, and a
-- balance that covers the amount. No proposal and no event is touched.
unfoldable pub emergency_withdraw :
    (o : O1js) → OwnerSettings o → Transaction o → World o → o.PublicKey → ℕ → Result (World o)
emergency_withdraw o settings tx w recipient amount = do
  let permissions = create_treasury_owner_permissions settings.withdrawal_permission
  require (not (amount == 0)) withdrawal_of_nothing
  require (not (o.key_eq settings.owner_key recipient)) withdrawal_to_owner
  require (permits_signature permissions.access && permits_signature permissions.send)
      withdrawal_not_permitted
  require (tx.has_signed tx.sender) missing_signature
  require (tx.has_signed settings.owner_key) missing_signature
  require (leb amount w.balance) insufficient_balance
  ok (record w { balance = w.balance - amount })
