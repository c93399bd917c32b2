-- ===== src/Processor.antt =====
-- The events processor of packages/processor/src: it takes events from the indexer's API, hands each
-- to the handlers, and keeps an offset and the failures in its database.
pub mod Types
pub mod Router
pub mod Attempt
pub mod Passing
pub mod Page
pub mod Blocked
pub mod History
pub mod Cycle
mod Tests
