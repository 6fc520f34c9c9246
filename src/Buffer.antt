-- ===== src/Buffer.antt =====
-- The memory layer: page replacement and the buffer pool.
pub mod Replacer
pub mod Pool
pub mod Guard
pub mod Client
