-- ===== src/Indexer.antt =====
-- packages/indexer/src: the events of the contract as the archive reports them, with their status.
pub mod Rows
pub mod Ingest
pub mod Sync
mod Tests
