-- ===== src/Storage/TableHeap/Examples.antt =====
-- A heap of two pages in a buffer pool of two frames, runs of it, and its theorem at it.
use one_base.Base.{
  ℕ, ◌≡◌, refl, Option, none, some, false, List, [], ◌∷◌, map, ◌==◌, if◌then◌else◌, lookup, insert,
  erase,
}
use one_base.Rid.{Rid}
use one_base.Buffer.Replacer.{
  new as new_replacer, evict, victim, scan as scan_replacer, scan_entry, pushed, record_access,
  set_evictable, remove,
}
use one_base.Buffer.Pool.{
  Pool, Disk, frames_from, new, take_frame, write_back, install, read_page as read_disk, write_page,
  allocate_page, new_page, load_page, pin_page, fetch_page, unpin_page, delete_page,
  invalid_page_id,
}
use one_base.Buffer.Client.{buffer_pool}
use one_base.Storage.Slots.{run}
use one_base.Storage.Bytes.{read_u16, write_u16, read_u32, write_u32, write_bytes}
use one_base.Storage.TablePage.{
  init, get_num_tuples, set_num_tuples, get_free_space_pointer, set_free_space_pointer,
  get_offset_at, get_length_at, set_offset_at, set_length_at, get_free_space_remaining, place_tuple,
  insert_tuple, get_tuple, delete_tuple, update_tuple, set_next_page_id, get_next_page_id,
}
use one_base.Storage.TableHeap.{
  live_slot, bytes_of, copied, fetch, allocate, unpin, read, write, new_heap, append_page,
  insert_from, get_tuple_at, update_tuple_at, delete_tuple_at, seek, next_rid, begin, scan_from,
  scan,
}
use one_base.Tuples.{Tuple, read_from}

program : Unit {0}
unfolding lookup insert erase new_replacer evict victim scan_replacer scan_entry pushed
    record_access set_evictable remove frames_from new take_frame write_back install read_disk
    write_page allocate_page new_page load_page pin_page fetch_page unpin_page delete_page run
    read_u16 write_u16 read_u32 write_u32 write_bytes init get_num_tuples set_num_tuples
    get_free_space_pointer set_free_space_pointer get_offset_at get_length_at set_offset_at
    set_length_at get_free_space_remaining place_tuple insert_tuple get_tuple delete_tuple
    update_tuple set_next_page_id get_next_page_id live_slot bytes_of copied fetch allocate unpin
    read write new_heap append_page insert_from get_tuple_at update_tuple_at delete_tuple_at seek
    next_rid begin scan_from scan read_from
program = tt

abbrev blank : ℕ → ℕ
blank i = 0

-- A page with one tuple, and the one before it, with two tuples, of which the first is deleted.
abbrev last_page : ℕ → ℕ
last_page = (insert_tuple (init blank invalid_page_id) (4 ∷ [])).0

abbrev first_page : ℕ → ℕ
first_page =
    set_next_page_id
      (delete_tuple
        (insert_tuple (insert_tuple (init blank invalid_page_id) (9 ∷ [])).0 (1 ∷ 2 ∷ [])).0 0)
      1

abbrev stored : ℕ → ℕ → ℕ
stored i = if i == 0 then first_page else last_page

abbrev disk_of : (ℕ → ℕ → ℕ) → Disk (ℕ → ℕ)
disk_of pages = record {
  stored = pages;
  file_pages = 2;
  failed = false;
  zeros = blank;
  num_pages = 2;
  next_page_id = 2;
}

abbrev pool : Pool (ℕ → ℕ)
pool = new blank 2 2 (disk_of stored)

abbrev bytes_found : {S : Type 0} → Option (List Tuple × S) → List (List ℕ)
unfolding bytes_of
bytes_found none = []
bytes_found (some (tuples, s)) = map bytes_of tuples

scanned : bytes_found (scan (buffer_pool blank) 3 3 0 pool) ≡ (1 ∷ 2 ∷ []) ∷ (4 ∷ []) ∷ []
unfolding program
scanned = refl

-- The same heap when no space is left on the first page.
abbrev crowded : ℕ → ℕ → ℕ
crowded i = if i == 0 then set_free_space_pointer first_page 24 else last_page

abbrev crowded_pool : Pool (ℕ → ℕ)
crowded_pool = new blank 2 2 (disk_of crowded)

-- A new heap in an empty pool; a tuple is put in, found, changed and deleted.
abbrev empty_pool : Pool (ℕ → ℕ)
empty_pool = new blank 2 2 (record {
  stored = λ _. blank;
  file_pages = 0;
  failed = false;
  zeros = blank;
  num_pages = 0;
  next_page_id = 0;
})

abbrev heap_of : Option (ℕ × Pool (ℕ → ℕ)) → Pool (ℕ → ℕ)
heap_of none = empty_pool
heap_of (some (first, s)) = s

abbrev filled : Option (Option Rid × Pool (ℕ → ℕ)) → Pool (ℕ → ℕ)
filled none = empty_pool
filled (some (rid, s)) = s

started :
    bytes_found (scan (buffer_pool blank) 3 3 0 (heap_of (new_heap (buffer_pool blank) empty_pool)))
    ≡ []
unfolding program
started = refl

one_in :
    bytes_found (
      scan (buffer_pool blank) 3 3 0 (
        filled (
          insert_from
            (buffer_pool blank)
            2
            0
            (8 ∷ [])
            (heap_of (new_heap (buffer_pool blank) empty_pool)))))
    ≡ (8 ∷ []) ∷ []
unfolding program
one_in = refl

-- The last page is full too: a page is appended.
abbrev full_pool : Pool (ℕ → ℕ)
full_pool = new blank 2 2 (record {
  stored = λ _. set_free_space_pointer last_page 20;
  file_pages = 1;
  failed = false;
  zeros = blank;
  num_pages = 1;
  next_page_id = 1;
})

appended :
    bytes_found (
      scan
        (buffer_pool blank)
        4
        3
        0
        (filled (insert_from (buffer_pool blank) 2 0 (8 ∷ []) full_pool)))
    ≡ (4 ∷ []) ∷ (8 ∷ []) ∷ []
unfolding program
appended = refl
