-- ===== src/Buffer/Pool.antt =====
-- `BufferPoolManager` (src/buffer/buffer_pool_manager.cpp), with `Page` (storage/page/page.h) and
-- the part of `DiskManager` (storage/disk/disk_manager.cpp) that it calls. Every method holds the
-- pool's latch, so a method is one step. A `Page *` is the number of its frame; a null pointer is
-- `none`. The bytes of a page are a type `A` with the all-zero page `zeroed`.
pub mod Valid
pub mod Vacate
pub mod Install
pub mod Methods
pub mod Release
pub mod View
pub mod Contents
pub mod Start
mod Examples
pub mod Writes
pub mod Pins
pub mod Runs
use one_base.Base.{
  ℕ, zero, suc, ◌+◌, ◌-◌, ◌%◌, Bool, true, false, not, ◌&&◌, Option, none, some, List, [], ◌∷◌,
  ◌++◌, ltb, ◌==◌, if◌then◌else◌, u32_mod, size_mod, update, lookup, insert, erase,
}
use one_base.Buffer.Replacer.{
  Replacer, new as new_replacer, evict, record_access, set_evictable, remove,
}

-- `page_id_t` -1, as the 32-bit pattern of an `int32_t`.
abbrev pub invalid_page_id : ℕ
invalid_page_id = 4294967295

-- `pin_count` is the 32-bit pattern of an `int`; what is undefined behaviour in C++, a count past
-- the largest `int`, goes on to the next pattern here.
pub record Page {ℓ} (A : Type ℓ) : Type ℓ where
  pub content : A
  pub page_id : ℕ
  pub pin_count : ℕ
  pub is_dirty : Bool

-- The disk manager and its `std::fstream`. The file has `file_pages` whole pages, with the contents
-- `stored`, which is `zeros` behind its end, as a write further on leaves what is between; `failed`
-- is the stream's failbit, which nothing clears. `zeros` is what `memset` makes of a page; no
-- operation changes it.
pub record Disk {ℓ} (A : Type ℓ) : Type ℓ where
  pub stored : ℕ → A
  pub file_pages : ℕ
  pub failed : Bool
  pub zeros : A
  pub num_pages : ℕ
  pub next_page_id : ℕ

pub record Pool {ℓ} (A : Type ℓ) : Type ℓ where
  pub pool_size : ℕ
  pub disk : Disk A
  pub replacer : Replacer
  pub pages : ℕ → Page A
  pub page_table : List (ℕ × ℕ)
  pub free_list : List ℕ

-- The frames from `i` on, each cast to `frame_id_t`, as a 32-bit pattern.
unfoldable pub frames_from : ℕ → ℕ → List ℕ
frames_from i zero = []
frames_from i (suc n) = i % u32_mod ∷ frames_from (i + 1) n

module _ {ℓ} {A : Type ℓ} (zeroed : A) where
  abbrev pub blank : Page A
  blank = record { content = zeroed; page_id = invalid_page_id; pin_count = 0; is_dirty = false }

  unfoldable pub new : ℕ → ℕ → Disk A → Pool A
  unfolding new_replacer frames_from
  new pool_size replacer_k disk = record {
    pool_size = pool_size;
    disk = disk;
    replacer = new_replacer pool_size replacer_k;
    pages = λ f. blank;
    page_table = [];
    free_list = frames_from 0 pool_size;
  }

-- A pattern of a positive `int`.
abbrev pub is_positive : ℕ → Bool
is_positive n = ltb 0 n && ltb n 2147483648

-- `static_cast<size_t>` of a page id extends its sign.
abbrev pub page_offset : ℕ → ℕ
page_offset page_id = if ltb page_id 2147483648 then page_id else page_id + 18446744069414584320

module _ {ℓ} {A : Type ℓ} where
  -- The stream is good, and the offset is not negative: else `seekp` and `write` do nothing but set
  -- the failbit.
  abbrev pub can_write : Disk A → ℕ → Bool
  can_write d page_id = not d.failed && ltb page_id 2147483648

  -- All of the page is read: else the failbit is set, and a page of zeros is left.
  abbrev pub can_read : Disk A → ℕ → Bool
  can_read d page_id = can_write d page_id && ltb page_id d.file_pages

  -- `ReadPage`.
  unfoldable pub read_page : Disk A → ℕ → A × Disk A
  read_page d page_id = (
    if can_read d page_id then d.stored page_id else d.zeros,
    record d { failed = not (can_read d page_id) },
  )

  -- `WritePage`; the count of pages grows even where the stream failed.
  unfoldable pub write_page : Disk A → ℕ → A → Disk A
  write_page d page_id content = record d {
    stored = if can_write d page_id then update d.stored page_id content else d.stored;
    file_pages =
        if can_write d page_id && not (ltb page_id d.file_pages) then page_id + 1 else d.file_pages;
    failed = not (can_write d page_id);
    num_pages =
        if ltb (page_offset page_id) d.num_pages
        then d.num_pages
        else (page_offset page_id + 1) % size_mod;
  }

  -- `AllocatePage`: the id, and the disk that hands out the next one.
  unfoldable pub allocate_page : Disk A → Disk A × ℕ
  allocate_page d = (record d { next_page_id = (d.next_page_id + 1) % u32_mod }, d.next_page_id)

  -- A frame from the front of the free list, else the one that the replacer gives up.
  take_from : Pool A → List ℕ → Pool A × Option ℕ
  take_from p (f ∷ fs) = (record p { free_list = fs }, some f)
  take_from p [] = let (r, got) = evict p.replacer in (record p { replacer = r }, got)

  unfoldable pub take_frame : Pool A → Pool A × Option ℕ
  unfolding take_from
  take_frame p = take_from p p.free_list

  -- The old page of the frame `f`: written to disk if dirty, and out of the page table.
  unfoldable pub write_back : Pool A → ℕ → Pool A
  unfolding write_page
  write_back p f =
      let old = p.pages f in
      record p {
        disk = if old.is_dirty then write_page p.disk old.page_id old.content else p.disk;
        pages = update p.pages f (record old { is_dirty = false });
        page_table =
            if old.page_id == invalid_page_id then p.page_table else erase old.page_id p.page_table;
      }

  -- The frame `f` becomes the page `page_id`, pinned once.
  unfoldable pub install : Pool A → ℕ → ℕ → A → Pool A
  install p f page_id content = record p {
    pages =
        update p.pages f
          (record { content = content; page_id = page_id; pin_count = 1; is_dirty = false });
    page_table = insert page_id f p.page_table;
    replacer = set_evictable (record_access p.replacer f) f false;
  }

  -- `NewPage`: the new page's id and frame, or `none` for a null pointer.
  unfoldable pub new_page : A → Pool A → Pool A × Option (ℕ × ℕ)
  unfolding take_frame write_back install allocate_page
  new_page zeroed p =
      let (taken, got) = take_frame p in
      elim got [
        | none ↦ (taken, none)
        | some f ↦
            let clean = write_back taken f in
            let (disk, page_id) = allocate_page clean.disk in
            (install (record clean { disk = disk }) f page_id zeroed, some (page_id, f))
      ]

  -- The branch of `FetchPage` on a page that is not in the pool.
  unfoldable pub load_page : Pool A → ℕ → Pool A × Option ℕ
  unfolding take_frame write_back install read_page
  load_page p page_id =
      let (taken, got) = take_frame p in
      elim got [
        | none ↦ (taken, none)
        | some f ↦
            let clean = write_back taken f in
            let (content, disk) = read_page clean.disk page_id in
            (install (record clean { disk = disk }) f page_id content, some f)
      ]

  -- The branch of `FetchPage` on a page that is in the frame `f`.
  unfoldable pub pin_page : Pool A → ℕ → Pool A
  pin_page p f = record p {
    pages =
        update p.pages f (record (p.pages f) { pin_count = ((p.pages f).pin_count + 1) % u32_mod });
    replacer = set_evictable (record_access p.replacer f) f false;
  }

  unfoldable pub fetch_page : Pool A → ℕ → Pool A × Option ℕ
  unfolding load_page pin_page
  fetch_page p page_id = elim (lookup page_id p.page_table) [
    | some f ↦ (pin_page p f, some f)
    | none ↦ load_page p page_id
  ]

  -- The page of `UnpinPage` after the flag is set and a pin is given back.
  abbrev pub unpinned : Page A → Bool → Page A
  unpinned page is_dirty = record page {
    is_dirty = if is_dirty then true else page.is_dirty;
    pin_count = (page.pin_count + 4294967295) % u32_mod;
  }

  unfoldable pub unpin_page : Pool A → ℕ → Bool → Pool A × Bool
  unpin_page p page_id is_dirty = elim (lookup page_id p.page_table) [
    | none ↦ (p, false)
    | some f ↦ if not (is_positive (p.pages f).pin_count) then (p, false) else (
      record p {
        pages = update p.pages f (unpinned (p.pages f) is_dirty);
        replacer =
            if (unpinned (p.pages f) is_dirty).pin_count == 0
            then set_evictable p.replacer f true
            else p.replacer;
      },
      true,
    )
  ]

  -- `DeletePage`: `none` is the exception of `LRUKReplacer::Remove`, which comes after the entry
  -- of the page table is gone. `DeallocatePage` does nothing.
  unfoldable pub delete_page : A → Pool A → ℕ → Pool A × Option Bool
  delete_page zeroed p page_id = elim (lookup page_id p.page_table) [
    | none ↦ (p, some true)
    | some f ↦
        if is_positive (p.pages f).pin_count then (p, some false) else elim (remove p.replacer f) [
          | none ↦ (record p { page_table = erase page_id p.page_table }, none)
          | some r ↦ (
            record p {
              page_table = erase page_id p.page_table;
              replacer = r;
              pages = update p.pages f (blank zeroed);
              free_list = p.free_list ++ (f ∷ []);
            },
            some true,
          )
        ]
  ]

  -- The body of both flushes: the frame `f` holds the page `page_id`.
  unfoldable pub flush_frame : Pool A → ℕ → ℕ → Pool A
  unfolding write_page
  flush_frame p page_id f = record p {
    disk = write_page p.disk page_id (p.pages f).content;
    pages = update p.pages f (record (p.pages f) { is_dirty = false });
  }

  unfoldable pub flush_page : Pool A → ℕ → Pool A × Bool
  unfolding flush_frame
  flush_page p page_id = elim (lookup page_id p.page_table) [
    | none ↦ (p, false)
    | some f ↦ (flush_frame p page_id f, true)
  ]

  unfoldable pub flush_entries : Pool A → List (ℕ × ℕ) → Pool A
  unfolding flush_frame
  flush_entries p [] = p
  flush_entries p ((page_id, f) ∷ m) = flush_entries (flush_frame p page_id f) m

  unfoldable pub flush_all_pages : Pool A → Pool A
  unfolding flush_entries
  flush_all_pages p = flush_entries p p.page_table
