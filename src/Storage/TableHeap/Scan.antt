-- ===== src/Storage/TableHeap/Scan.antt =====
-- The iterator of a table heap goes through the places of the tuples in order.
use one_base.Base.{
  ℕ, zero, suc, ◌+◌, ◌<◌, ◌≡◌, inl, inr, sym, subst, ◌∙◌, true, false, Option, some, List, map,
  arith, ltb, if◌then◌else◌, length,
}
use one_base.Rid.{Rid}
use one_base.Storage.Pages.{PagePool, PagePoolLaws}
use one_base.Storage.Held.{spent, Idle, read-held, fetch-Holding, unpin-Idle}
use one_base.Storage.TablePage.{get_num_tuples, get_tuple}
use one_base.Storage.Slots.{run-ext}
use one_base.Storage.Bytes.{write_bytes, read-write_bytes}
use one_base.Tuples.{Tuple, read_from}
use one_base.Storage.TablePage.Insert.{IsValid}
use one_base.Storage.TableHeap.{◌>>=◌, in_page, copied, bytes_of, get_tuple_at}

-- The tuple that `GetTuple` makes has the bytes of the page's tuple.
pub bytes_of-copied : (d : ℕ → ℕ) (rid : Rid) → bytes_of (copied d rid) ≡ get_tuple d rid.slot_num
unfolding copied bytes_of read_from
bytes_of-copied d rid =
    let bytes = get_tuple d rid.slot_num in
    let memory = write_bytes (λ _. 0) 0 bytes in
    run-ext 0 0 (length bytes) (λ i. if ltb i (length bytes) then memory (0 + i) else 0) memory
      (λ i h. ground (arith, h))
    ∙ read-write_bytes (λ _. 0) 0 bytes

module _ {S : Type 0} {ops : PagePool S (ℕ → ℕ)} (laws : PagePoolLaws ops) (content : ℕ → ℕ → ℕ)
    (next : ℕ) where
  -- The result is a place, no page is pinned, and every content is as it was.
  pub record Seeks (n : ℕ) (rid : Rid) (result : Option (Rid × S)) : Type 0 where
    pub pool : S
    pub returned : result ≡ some (rid, pool)
    pub idle : Idle laws content next n pool

  -- The tuples were taken from these places, with their bytes, and no page is pinned.
  pub record Collects (n : ℕ) (rids : List Rid) (result : Option (List Tuple × S)) : Type 0 where
    pub tuples : List Tuple
    pub pool : S
    pub returned : result ≡ some (tuples, pool)
    pub places : map (λ t. t.rid) tuples ≡ rids
    pub bytes : map bytes_of tuples ≡ map (λ r. get_tuple (content r.page_id) r.slot_num) rids
    pub idle : Idle laws content next n pool

  -- A tuple of a well-formed page is on the page.
  placed-in_page :
      (d : ℕ → ℕ) (slot : ℕ) → IsValid d → slot < get_num_tuples d → in_page d slot ≡ true
  placed-in_page d slot v less = elim (v.placed slot less) [
    | inl zero_length ↦ ground (arith, v.room, v.top, less, zero_length)
    | inr (_, within) ↦ ground (arith, v.room, v.top, less, within)
  ]

  pub get_tuple_at-copied :
      (n : ℕ) (rid : Rid) (s : S)
      → rid.page_id < next
      → IsValid (content rid.page_id)
      → rid.slot_num < get_num_tuples (content rid.page_id)
      → Idle laws content next (suc n) s
      → (t : S) × (get_tuple_at ops rid s ≡ some (copied (content rid.page_id) rid, t))
        × Idle laws content next n t
  unfolding get_tuple_at
  get_tuple_at-copied n rid s allocated valid less w =
      let (s', f, got, held) = fetch-Holding laws content next n s rid.page_id w allocated in
      let reads : ops.read s' f ≡ content rid.page_id =
        read-held laws content next n rid.page_id f s' held in
      let t : S = (ops.unpin_page s' rid.page_id false).0 in
      let whole : in_page (ops.read s' f) rid.slot_num ≡ true =
        subst (λ d. in_page d rid.slot_num ≡ true) (sym reads)
          (placed-in_page (content rid.page_id) rid.slot_num valid less) in
      (
        t,
        rw (get_tuple_at, got, ◌>>=◌, whole) (λ i. some (copied (reads i) rid, t)),
        unpin-Idle laws content next n rid.page_id f s' false held,
      )

  -- The fetches of a scan of so many places, where a step may go through `pages` pages.
  abbrev pub scan_cost : ℕ → ℕ → ℕ → ℕ
  scan_cost n pages zero = n
  scan_cost n pages (suc places) = suc (spent (suc pages) (scan_cost n pages places))
