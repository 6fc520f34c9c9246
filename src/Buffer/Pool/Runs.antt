-- ===== src/Buffer/Pool/Runs.antt =====
-- Any sequence of calls of the buffer pool, from a new one.
use one_base.Base.{ℕ, ◌+◌, ◌≤◌, ◌<◌, ◌≢◌, Bool, none}
use one_base.Buffer.Pool.{
  Pool, Disk, new, new_page, fetch_page, unpin_page, delete_page, flush_page, flush_all_pages,
}
use one_base.Buffer.Pool.Valid.{IsValid}
use one_base.Buffer.Pool.Install.{HasTime, CountsPins}
use one_base.Buffer.Pool.Methods.{fetch_page-IsValid, new_page-IsValid}
use one_base.Buffer.Pool.Release.{
  unpin_page-IsValid, delete_page-IsValid, flush_page-IsValid, flush_all_pages-IsValid,
}
use one_base.Buffer.Pool.Start.{new-IsValid}

module _ {A : Type 0} (zeroed : A) where
  -- One call. A page that is fetched was allocated and has fewer pins than an `int` counts, a new
  -- page's id is in the range of `page_id_t`, and the clock of the replacer does not wrap.
  pub data Step : Pool A → Pool A → Type 0 where
    fetched :
        (p : Pool A) (page_id : ℕ)
        → page_id < p.disk.next_page_id
        → CountsPins p page_id
        → HasTime p
        → Step p ((fetch_page p page_id).0)
    created :
        (p : Pool A)
        → p.disk.next_page_id + 1 < 2147483648
        → HasTime p
        → Step p ((new_page zeroed p).0)
    unpinned :
        (p : Pool A) (page_id : ℕ) (is_dirty : Bool) → Step p ((unpin_page p page_id is_dirty).0)
    deleted : (p : Pool A) (page_id : ℕ) → Step p ((delete_page zeroed p page_id).0)
    flushed : (p : Pool A) (page_id : ℕ) → Step p ((flush_page p page_id).0)
    flushed_all : (p : Pool A) → Step p (flush_all_pages p)

  pub data Reach (start : Pool A) : Pool A → Type 0 where
    here : Reach start start
    next : {p q : Pool A} → Reach start p → Step p q → Reach start q

  Step-IsValid : {p q : Pool A} → Step p q → IsValid p → IsValid q
  Step-IsValid (fetched p page_id allocated room time) v =
      fetch_page-IsValid p v page_id allocated room time
  Step-IsValid (created p room time) v = new_page-IsValid p v zeroed room time
  Step-IsValid (unpinned p page_id is_dirty) v = unpin_page-IsValid p v page_id is_dirty
  Step-IsValid (deleted p page_id) v = (delete_page-IsValid p v zeroed page_id).0
  Step-IsValid (flushed p page_id) v = flush_page-IsValid p v page_id
  Step-IsValid (flushed_all p) v = flush_all_pages-IsValid p v

  Reach-keeps : {s p : Pool A} → IsValid s → Reach s p → IsValid p
  Reach-keeps v here = v
  Reach-keeps v (next run step) = Step-IsValid step (Reach-keeps v run)

  -- Every pool that calls reach from a new one, with a positive `k`, at most 2 ^ 31 frames and
  -- fewer than 2 ^ 31 ids handed out, while ids, pins and the clock do not overflow, is valid: free
  -- list, page table, frames and replacer fit together. So `DeletePage` on it never meets the
  -- exception of the replacer.
  pub Reach-IsValid :
      (pool_size replacer_k : ℕ) (disk : Disk A) (p : Pool A)
      → 0 < replacer_k
      → pool_size ≤ 2147483648
      → disk.next_page_id < 2147483648
      → Reach (new zeroed pool_size replacer_k disk) p
      → IsValid p × ((page_id : ℕ) → (delete_page zeroed p page_id).1 ≢ none)
  Reach-IsValid pool_size replacer_k disk p positive small ids run =
      let start = new-IsValid zeroed pool_size replacer_k disk positive small ids in
      let valid = Reach-keeps start.0 run in
      (valid, λ page_id. (delete_page-IsValid p valid zeroed page_id).1)
