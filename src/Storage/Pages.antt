-- ===== src/Storage/Pages.antt =====
-- What a client of the buffer pool calls: pages are fetched into frames, read and written there,
-- and unpinned. `S` is the state of the pool and `A` the content of a page.
use one_base.Base.{ℕ, suc, ◌<◌, ◌≡◌, Bool, Option, true, some, update}

pub record PagePool (S A : Type 0) : Type 0 where
  -- `FetchPage` and `NewPage`: the frame, with the id of a new page; `none` for a null pointer.
  pub fetch_page : S → ℕ → S × Option ℕ
  pub new_page : S → S × Option (ℕ × ℕ)
  pub unpin_page : S → ℕ → Bool → S × Bool
  pub delete_page : S → ℕ → S
  -- The content of a frame, read and written through its pointer.
  pub read : S → ℕ → A
  pub write : S → ℕ → A → S

-- What the pool promises a client that has one page pinned at a time. The first argument of
-- `IsIdle` and `HoldsPage` bounds the fetches that are left.
pub record PagePoolLaws {S A : Type 0} (ops : PagePool S A) : Type 1 where
  -- The content of every page, wherever it is kept, and the bound of the ids handed out.
  pub content : S → ℕ → A
  pub next_id : S → ℕ
  -- No page is pinned; the page `id`, in the frame `f`, has the only pin.
  pub IsIdle : ℕ → S → Type 0
  pub HoldsPage : ℕ → S → ℕ → ℕ → Type 0
  pub idle_fewer : (n : ℕ) (s : S) → IsIdle (suc n) s → IsIdle n s
  pub held_read : (n : ℕ) (s : S) (id f : ℕ) → HoldsPage n s id f → ops.read s f ≡ content s id
  pub idle_fetch :
      (n : ℕ) (s : S) (id : ℕ)
      → IsIdle (suc n) s
      → id < next_id s
      → (s' : S) × (f : ℕ) × (ops.fetch_page s id ≡ (s', some f))
        × HoldsPage n s' id f
        × (content s' ≡ content s)
        × (next_id s' ≡ next_id s)
  pub holds_unpin :
      (n : ℕ) (s : S) (id f : ℕ) (is_dirty : Bool)
      → HoldsPage n s id f
      → IsIdle n (ops.unpin_page s id is_dirty).0
        × (content (ops.unpin_page s id is_dirty).0 ≡ content s)
        × (next_id (ops.unpin_page s id is_dirty).0 ≡ next_id s)
  pub holds_store :
      (n : ℕ) (s : S) (id f : ℕ) (a : A)
      → HoldsPage n s id f
      → IsIdle n (ops.unpin_page (ops.write s f a) id true).0
        × (content (ops.unpin_page (ops.write s f a) id true).0 ≡ update (content s) id a)
        × (next_id (ops.unpin_page (ops.write s f a) id true).0 ≡ next_id s)
