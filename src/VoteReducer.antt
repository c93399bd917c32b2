-- ===== src/VoteReducer.antt =====
-- packages/sdk/src/provable/contracts/treasury-proposal/vote-reducer.ts: the program that counts the
-- vote actions of a proposal, in batches of five whose proofs are merged.
pub mod Types
pub mod Batch
pub mod Merge
pub mod Ballots
pub mod Refinement
mod Tests
