-- ===== src/Storage.antt =====
-- The storage layer of src/storage: the replicated log, in memory and in a file, and the durable
-- term and vote.
pub mod Log
pub mod DurableLog
pub mod DurableState
