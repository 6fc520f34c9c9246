-- ===== src/Storage.antt =====
-- The storage layer: the pages of the B+ tree and of the tables.
pub mod Slots
pub mod Pages
pub mod Held
pub mod Tree
pub mod TableHeap
pub mod Bytes
pub mod Leaf
pub mod Internal
pub mod TablePage
