-- ===== src/Concurrency.antt =====
-- The concurrency layer: transactions and their row locks.
pub mod Lock
