-- ===== src/Storage/Tree.antt =====
-- `BPlusTree` and its iterator (src/storage/index/b_plus_tree.cpp, b_plus_tree_iterator.cpp), over
-- any pool of pages.
pub mod State
pub mod Shape
pub mod Search
pub mod Walk
pub mod Lookup
pub mod Iterate
mod Examples
pub mod Growth
pub mod Shrink
pub mod Removal
