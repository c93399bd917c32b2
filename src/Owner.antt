-- ===== src/Owner.antt =====
-- packages/sdk/src/provable/contracts/treasury-owner.ts: the treasury owner, which holds the funds,
-- approves every update of a proposal, and keeps the lifecycle.
pub mod Lifecycle
pub mod Permissions
pub mod Methods
mod Tests
