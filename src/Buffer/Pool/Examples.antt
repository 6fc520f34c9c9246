-- ===== src/Buffer/Pool/Examples.antt =====
-- Runs of a pool of two frames, and its theorems at them. A page's content is a number here.
use one_base.Base.{ℕ, ◌≡◌, ◌≢◌, refl, true, false, none, some, arith, lookup, insert, erase}
use one_base.Buffer.Replacer.{
  new as new_replacer, evict, victim, scan, scan_entry, pushed, record_access, set_evictable,
  remove,
}
use one_base.Buffer.Pool.{
  Pool, Disk, frames_from, new, take_frame, write_back, install, read_page, write_page,
  allocate_page, new_page, load_page, pin_page, fetch_page, unpin_page, delete_page, flush_page,
  flush_frame, flush_entries, flush_all_pages,
}
use one_base.Buffer.Pool.Valid.{IsValid}
use one_base.Buffer.Pool.View.{view, IsSynced}
use one_base.Buffer.Pool.Methods.{fetch_page-IsValid, new_page-IsValid}
use one_base.Buffer.Pool.Release.{
  unpin_page-IsValid, delete_page-IsValid, flush_page-IsValid, flush_all_pages-IsValid,
}
use one_base.Buffer.Pool.Install.{CountsPins}
use one_base.Buffer.Pool.Contents.{Fetches, fetch_page-Fetches}
use one_base.Buffer.Pool.Writes.{Creates, new_page-Creates, unpin_page-view, flush_page-view}
use one_base.Buffer.Pool.Start.{new-IsValid}
use one_base.Buffer.Pool.Runs.{Reach-IsValid, next, here, created, unpinned}

program : Unit {0}
unfolding lookup insert erase new_replacer evict victim scan scan_entry pushed record_access
    set_evictable remove frames_from new take_frame write_back install read_page write_page
    allocate_page new_page load_page pin_page fetch_page unpin_page delete_page flush_frame
    flush_page flush_entries flush_all_pages view
program = tt

abbrev blank_disk : Disk ℕ
blank_disk = record {
  stored = λ i. 0;
  file_pages = 0;
  failed = false;
  zeros = 0;
  num_pages = 0;
  next_page_id = 0;
}

abbrev fresh : Pool ℕ
fresh = new 0 2 2 blank_disk

new-IsValid_run : IsValid fresh × IsSynced fresh
unfolding program
new-IsValid_run =
    let (valid, synced) = new-IsValid 0 2 2 blank_disk (omega arith) (omega arith) (omega arith) in
    (valid, synced refl)

-- One page, written to and unpinned as dirty.
abbrev first_created : Pool ℕ
first_created = (new_page 0 fresh).0

new_page-IsValid_run : IsValid first_created
unfolding program
new_page-IsValid_run = new_page-IsValid fresh new-IsValid_run.0 0 (omega arith) (omega arith)

new_page-Creates_example :
    Creates 0 fresh new-IsValid_run.0 new-IsValid_run.1 first_created (new_page 0 fresh).1
unfolding program
new_page-Creates_example =
    new_page-Creates 0 fresh new-IsValid_run.0 new-IsValid_run.1 (omega arith)

created-IsSynced : IsSynced first_created
unfolding program
created-IsSynced = new_page-Creates_example.6

abbrev released : Pool ℕ
released = (unpin_page first_created 0 true).0

unpin_page-IsValid_run : IsValid released
unpin_page-IsValid_run = unpin_page-IsValid first_created new_page-IsValid_run 0 true

unpin_page-view_run : ((i : ℕ) → view released i ≡ view first_created i) × IsSynced released
unpin_page-view_run =
    unpin_page-view first_created new_page-IsValid_run created-IsSynced 0 true
      (λ f found clean. absurd (cc))

released-CountsPins : CountsPins released 0
unfolding program
released-CountsPins f found =
    let here : some 0 ≡ some f = found in let same : 0 ≡ f = cc in rw (← same) (omega arith)

fetch_page-IsValid_run : IsValid (fetch_page released 0).0
unfolding program
fetch_page-IsValid_run =
    fetch_page-IsValid released unpin_page-IsValid_run 0 (omega arith) released-CountsPins
      (omega arith)

fetch_page-Fetches_example :
    Fetches released unpin_page-IsValid_run unpin_page-view_run.1 0
      (fetch_page released 0).0
      (fetch_page released 0).1
    × ((i : ℕ) → view (fetch_page released 0).0 i ≡ view released i)
    × IsSynced (fetch_page released 0).0
unfolding program
fetch_page-Fetches_example =
    fetch_page-Fetches released unpin_page-IsValid_run unpin_page-view_run.1 0 (omega arith)
      (λ absent. absurd (let found : some 0 ≡ none = absent in cc)) released-CountsPins

delete_page-IsValid_run :
    IsValid (delete_page 0 released 0).0 × ((delete_page 0 released 0).1 ≢ none)
delete_page-IsValid_run = delete_page-IsValid released unpin_page-IsValid_run 0 0

flush_page-IsValid_run : IsValid (flush_page released 0).0
flush_page-IsValid_run = flush_page-IsValid released unpin_page-IsValid_run 0

flush_page-view_example :
    ((flush_page released 0).0.disk.stored 0 ≡ view released 0)
    × ((i : ℕ) → view (flush_page released 0).0 i ≡ view released i)
    × IsSynced (flush_page released 0).0
unfolding program
flush_page-view_example =
    flush_page-view released unpin_page-IsValid_run unpin_page-view_run.1 0 0 refl

flush_all_pages-IsValid_run : IsValid (flush_all_pages released)
flush_all_pages-IsValid_run = flush_all_pages-IsValid released unpin_page-IsValid_run

-- A pinned page cannot be deleted, and a third page finds no frame while two are pinned.
delete_pinned : (delete_page 0 first_created 0).1 ≡ some false
unfolding program
delete_pinned = refl

third_refused : (new_page 0 (new_page 0 first_created).0).1 ≡ none
unfolding program
third_refused = refl

Reach-IsValid_example :
    IsValid released × ((page_id : ℕ) → (delete_page 0 released page_id).1 ≢ none)
unfolding program
Reach-IsValid_example =
    Reach-IsValid 0 2 2 blank_disk released (omega arith) (omega arith) (omega arith) (
      next (next here (created (fresh) (omega arith) (omega arith)))
        (unpinned (new_page 0 fresh).0 0 true))
