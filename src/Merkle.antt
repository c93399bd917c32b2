-- ===== src/Merkle.antt =====
-- packages/sdk/src/provable/merkle-tree/prefixed-merkle-tree.ts: the witnesses that the circuits
-- check.
pub mod Witness
pub mod Complete
pub mod Soundness
pub mod Tree
mod Tests
