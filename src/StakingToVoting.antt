-- ===== src/StakingToVoting.antt =====
-- packages/sdk/src/provable/staking-ledger-to-voting-ledger.ts: the program that turns the staking
-- ledger into the voting ledger, account by account.
pub mod Types
pub mod Digest
pub mod Merge
mod Tests
