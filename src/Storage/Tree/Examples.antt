-- ===== src/Storage/Tree/Examples.antt =====
-- A tree of two leaves in a buffer pool of three frames, runs of it, and its theorems at it.
use one_base.Base.{
  ℕ, zero, suc, ◌<◌, ◌≡◌, refl, Option, none, some, false, arith, ltb, ◌==◌, if◌then◌else◌, lookup,
  insert, erase,
}
use one_base.Buffer.Replacer.{
  new as new_replacer, evict, victim, scan, scan_entry, pushed, record_access, set_evictable,
  remove,
}
use one_base.Buffer.Pool.{
  Pool, Disk, frames_from, new, take_frame, write_back, install, read_page as read_disk,
  write_page as write_disk, allocate_page, new_page, load_page, pin_page, fetch_page, unpin_page,
  delete_page, invalid_page_id,
}
use one_base.Buffer.Pool.View.{view}
use one_base.Buffer.Pool.Start.{new-IsValid}
use one_base.Buffer.Client.{buffer_pool, IsIdle, HoldsPage, idle_fetches}
use one_base.Storage.Slots.{shift_up, shift_down, copy}
use one_base.Storage.Leaf as Leaves
use one_base.Storage.Leaf.{Leaf}
use one_base.Storage.Leaf.Search.{IsSorted}
use one_base.Storage.Internal as Internals
use one_base.Storage.Internal.{Internal, value_at}
use one_base.Storage.Internal.Child.{IsSorted as SeparatorsSorted}
use one_base.Storage.Tree.State.{
  TreePage, leaf_page, internal_page, Tree, ◌>>=◌, ◌>>◌, fetch, allocate, unpin, discard, read_page,
  write_page, read_leaf, read_internal, set_parent,
}
use one_base.Storage.Tree.Iterate.{Advances, advance-Advances}
use one_base.Storage.Tree.Search.{Iterator, advance, walk, descend_by, get_value, find_leaf_page}
use one_base.Storage.Tree.Growth.{
  grow_root, adopt, split_internal, insert_into_parent, split, plant, insert_entry,
}
use one_base.Storage.Tree.Shrink.{
  choose_sibling, settle_parent, reparent, reparent_from, lend_child, merge_internal,
  coalesce_internal,
}
use one_base.Storage.Tree.Removal.{
  without_sibling, lend_entry, merge_leaf, coalesce_leaf, remove_entry,
}
use one_base.Storage.Tree.Shape.{IsTree}

program : Unit {0}
unfolding lookup insert erase new_replacer evict victim scan scan_entry pushed record_access
    set_evictable remove frames_from new take_frame write_back install read_disk write_disk
    allocate_page new_page load_page pin_page fetch_page unpin_page delete_page shift_up shift_down
    copy Leaves.init Leaves.search Leaves.key_index Leaves.is_at Leaves.find Leaves.insert
    Leaves.remove Leaves.move_half_to Leaves.move_all_to Leaves.move_first_to_end_of
    Leaves.move_last_to_front_of Internals.init Internals.set_key_at Internals.index_from
    Internals.value_index Internals.populate_new_root Internals.insert_node_after Internals.remove
    Internals.remove_and_return_only_child Internals.descend Internals.child_of
    Internals.move_half_to Internals.move_all_to Internals.move_first_to_end_of
    Internals.move_last_to_front_of fetch allocate unpin discard read_page write_page read_leaf
    read_internal set_parent walk descend_by get_value find_leaf_page grow_root adopt split_internal
    insert_into_parent split plant insert_entry choose_sibling settle_parent reparent reparent_from
    lend_child merge_internal coalesce_internal without_sibling lend_entry merge_leaf coalesce_leaf
    remove_entry
program = tt

abbrev low : Leaf ℕ ℕ
low = record {
  size = 2;
  max_size = 2;
  parent_page_id = 2;
  next_page_id = 1;
  array = λ i. if i == 0 then (2, 20) else (5, 50);
}

abbrev high : Leaf ℕ ℕ
high = record {
  size = 1;
  max_size = 2;
  parent_page_id = 2;
  next_page_id = invalid_page_id;
  array = λ i. (9, 90);
}

abbrev top : Internal ℕ
top = record {
  size = 2;
  max_size = 3;
  parent_page_id = invalid_page_id;
  array = λ i. if i == 0 then (0, 0) else (9, 1);
}

abbrev stored : ℕ → TreePage ℕ ℕ
stored i = if i == 0 then leaf_page low else if i == 1 then leaf_page high else internal_page top

abbrev disk_of : (ℕ → TreePage ℕ ℕ) → Disk (TreePage ℕ ℕ)
disk_of pages = record {
  stored = pages;
  file_pages = 3;
  failed = false;
  zeros = leaf_page low;
  num_pages = 3;
  next_page_id = 3;
}

abbrev pool : Pool (TreePage ℕ ℕ)
pool = new (leaf_page low) 3 2 (disk_of stored)

abbrev tree : Tree (Pool (TreePage ℕ ℕ))
tree = record { pool = pool; root_page_id = 2; leaf_max_size = 2; internal_max_size = 3 }

low-IsSorted : IsSorted ltb low
low-IsSorted i j h k =
    let first : i ≡ 0 = omega (arith, h, k) in
    let second : j ≡ 1 = omega (arith, h, k) in rw (first, second) refl

high-IsSorted : IsSorted ltb high
high-IsSorted i j h k = absurd (omega (arith, h, k))

children : (i : ℕ) → i < 2 → IsTree stored ltb 3 0 (value_at top i)
children zero h = (omega arith, low, refl, low-IsSorted)
children (suc zero) h = (omega arith, high, refl, high-IsSorted)
children (suc (suc i)) h = absurd (omega (arith, h))

pool-IsIdle : (n : ℕ) → n < 1000 → IsIdle n pool
unfolding program
pool-IsIdle n h =
    let start =
      new-IsValid (leaf_page low) 3 2 (disk_of stored) (omega arith) (omega arith) (omega arith) in
    record {
      valid = start.0;
      synced = start.1 refl;
      covered = λ i less absent. less;
      some_frame = omega arith;
      time = omega (arith, h);
      unpinned = λ f less. refl;
    }

idle_fetches_example :
    (q : Pool (TreePage ℕ ℕ)) × (f : ℕ) × (fetch_page pool 1 ≡ (q, some f))
    × HoldsPage 4 q 1 f
    × (view q ≡ view pool)
    × (q.disk.next_page_id ≡ pool.disk.next_page_id)
unfolding program
idle_fetches_example = idle_fetches 4 pool 1 (pool-IsIdle 5 (omega arith)) (omega arith)

-- The value found, and the values found after an insertion that splits a leaf, and after a removal.
abbrev answer : {S : Type 0} → Option (Option ℕ × Tree S) → Option ℕ
answer none = none
answer (some (value, t)) = value

get_value_five : answer (get_value ltb (buffer_pool (leaf_page low)) 3 5 tree) ≡ some 50
unfolding program
get_value_five = refl

get_value_six : answer (get_value ltb (buffer_pool (leaf_page low)) 3 6 tree) ≡ none
unfolding program
get_value_six = refl

insert_splits :
    answer (
      (insert_entry ltb (buffer_pool (leaf_page low)) low top 3 6 60 >>= λ done.
      get_value ltb (buffer_pool (leaf_page low)) 3 6)
        tree)
    ≡ some 60
unfolding program
insert_splits = refl

remove_merges :
    answer (
      (remove_entry ltb (buffer_pool (leaf_page low)) 3 9
          >> get_value ltb (buffer_pool (leaf_page low)) 3 5)
        tree)
    ≡ some 50
unfolding program
remove_merges = refl

abbrev last_of_low : Iterator
last_of_low = record { page_id = 0; index = 1 }

low_seen : view tree.pool 0 ≡ leaf_page low
unfolding program view
low_seen = refl

zero_allocated : 0 < tree.pool.disk.next_page_id
unfolding program
zero_allocated = let h : 0 < 3 = omega arith in h

advance-Advances_example :
    Advances
      (leaf_page low)
      4
      tree
      last_of_low
      refl
      (pool-IsIdle 5 (omega arith))
      zero_allocated
      low
      low_seen
      (advance (buffer_pool (leaf_page low)) last_of_low tree)
unfolding program
advance-Advances_example =
    advance-Advances (leaf_page low) 4 tree last_of_low refl (pool-IsIdle 5 (omega arith))
      zero_allocated low low_seen
