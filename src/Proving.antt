-- ===== src/Proving.antt =====
-- packages/sdk/src/proving/prover: the order in which the proofs of a program are merged into one.
pub mod Finder
pub mod Orchestrator
mod Tests
