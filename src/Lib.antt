-- ===== src/Lib.antt =====
-- OneBase: a disk-based relational database
--
-- This library models the storage and concurrency core of OneBase and proves it correct.
-- A query reaches a page through the buffer pool, which keeps pages of the database file
-- in a fixed number of frames. The pool asks the LRU-K replacer for a frame to evict and
-- the disk manager to read and write pages. Transactions guard rows with locks of the
-- lock manager.
--
-- Files and the code they model (paths from the repository's root):
--   Base/: shared helpers: Boolean tests, lists, machine words, association lists
--   Buffer/Replacer: src/buffer/lru_k_replacer.cpp (Evict, RecordAccess, SetEvictable, Remove,
--     Size); the methods of LRUKReplacer are functions on the record Replacer
--   Buffer/Pool: src/buffer/buffer_pool_manager.cpp (NewPage, FetchPage, UnpinPage,
--     DeletePage, FlushPage, FlushAllPages), with ReadPage, WritePage and AllocatePage of
--     src/storage/disk/disk_manager.cpp; the record Pool holds the frames, the page table, the
--     free list, the replacer and the disk, with the failbit of its stream, which a read behind the
--     end of the file sets and nothing clears. A pool is synced if the stream has not failed and
--     every unpinned page not marked dirty is in the file as in its frame: a client keeps it so
--   Storage/Slots: the loops over the array of slots that both kinds of tree page share
--   Storage/Leaf: src/storage/page/b_plus_tree_leaf_page.cpp (all methods), with the header
--     fields of src/include/onebase/storage/page/b_plus_tree_page.h
--   Storage/Internal: src/storage/page/b_plus_tree_internal_page.cpp (all methods)
--   Storage/Tree: src/storage/index/b_plus_tree.cpp and b_plus_tree_iterator.cpp (all
--     methods), programs over the interface of Storage/Pages; a program that gives `none` is at
--     a fault: an exception, a page of the other kind, or fuel that has run out
--   Storage/TableHeap: src/storage/table/table_heap.cpp, programs over the same interface,
--     with the loop of a sequential scan (src/execution/executors/seq_scan_executor.cpp)
--   Storage/Held: the pool between the steps of a client with one page pinned
--   Storage/Pages: what the tree and the heap ask of the buffer pool, a record of operations
--     and one of laws
--   Buffer/Guard: src/buffer/page_guard.cpp (the three guards, by kind); moves leave the
--     source empty
--   Buffer/Client: src/buffer/buffer_pool_manager.cpp as such a record, with proofs of its
--     laws
--   Buffer/Pool/Runs, Buffer/Replacer/Runs: sequences of calls
--   Storage/Bytes: little-endian words and runs of bytes in memory
--   Storage/TablePage: src/storage/page/table_page.cpp (all methods), on the bytes of the page
--   Values: src/type/value.cpp and src/type/type.cpp, without the conversions to strings; a
--     Result is a value, an exception, or undefined behaviour
--   Catalog/Schema: src/include/onebase/catalog/column.h and schema.h
--   Tuples: src/storage/table/tuple.cpp: rows as values and as bytes
--   Rid: src/include/onebase/common/rid.h
--   Concurrency/Lock: src/concurrency/lock_manager.cpp (LockShared, LockExclusive,
--     LockUpgrade, Unlock): the latch makes each call atomic up to a wait on the condition
--     variable, so a call that waits is left in the queue, and `resume` is the rest of the call
--     after the wait. Step is one atomic step, Reach a run
--
-- Bounds: size_t and uint32_t counters wrap at 2 ^ 64 and 2 ^ 32, as in the source; int32_t is its
-- bit pattern, and a signed overflow is undefined; a pin count is the pattern of an int, which goes
-- on to the next pattern. Reads of a page's bytes are at any offset, but GetTuple of the heap is at
-- a fault unless the slot and the tuple's bytes are on the page of 4096 bytes, as its buffer is.
-- The operations on float are a parameter, on bit patterns. Every loop is over a list of the state
-- or a range of slots, but these, on fuel: the binary search of a leaf, with the size of the page,
-- as each turn narrows its range; the loops of the tree, one unit for a level, so that a fuel above
-- the height is enough; the loops of the heap, one unit for a page; a scan, one turn for a tuple
-- and one for the end. std::list is a list, std::unordered_map an association list: where the
-- source goes through a map in its hash order, the order is the list's.
--
-- Not modelled: the bytes of a page in the buffer pool (a type parameter); opening and closing the
-- file of the disk manager, and its last page where the file ends inside it; the transaction
-- manager, the executors but the sequential scan, the tables and indexes of the catalog, and the
-- optimizer; the binder, which goes through the parse tree of libpg_query, a vendored parser; the
-- server, the client and the conversions of values to strings, which are input and output.

pub mod Base
pub mod Buffer
pub mod Catalog
pub mod Concurrency
pub mod Rid
pub mod Storage
pub mod Tuples
pub mod Values
