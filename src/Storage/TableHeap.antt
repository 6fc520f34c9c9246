-- ===== src/Storage/TableHeap.antt =====
-- `TableHeap` and its iterator (src/storage/table/table_heap.cpp): a list of table pages, reached
-- through the pool of pages.
use one_base.Base.{
  ℕ, zero, suc, ◌+◌, ◌-◌, ◌%◌, Bool, true, false, not, Option, none, some, List, [], ◌∷◌, ltb, leb,
  ◌==◌, ◌&&◌, ◌||◌, if◌then◌else◌, length, u16_mod,
}
use one_base.Rid.{Rid, rid_eq}
use one_base.Buffer.Pool.{invalid_page_id}
use one_base.Storage.Slots.{run}
use one_base.Storage.Bytes.{write_bytes}
use one_base.Storage.Pages.{PagePool}
use one_base.Storage.TablePage.{
  init, insert_tuple, get_tuple, delete_tuple, update_tuple, get_next_page_id, set_next_page_id,
  get_num_tuples, get_offset_at, get_length_at, page_size, slot_offset,
}
use one_base.Tuples.{Tuple, empty_tuple, read_from}
mod Chain
mod Scan
mod Insert
mod Examples

-- A program on the pool; `none` is an exception, or a loop that ran out of fuel.
abbrev pub Program : Type 0 → Type 0 → Type 0
Program S A = S → Option (A × S)

infixl 5 ◌>>=◌ ◌>>◌
abbrev pub ◌>>=◌ : {S A B : Type 0} → Program S A → (A → Program S B) → Program S B
◌>>=◌ m f s = elim (m s) [ none ↦ none | some (a, t) ↦ f a t ]

abbrev pub ◌>>◌ : {S B : Type 0} → Program S (Unit {0}) → Program S B → Program S B
m >> k = m >>= λ _. k

abbrev pub give : {S A : Type 0} → A → Program S A
give a s = some (a, s)

abbrev pub fault : {S A : Type 0} → Program S A
fault s = none

-- `RID(INVALID_PAGE_ID, 0)`, the place of `End`.
abbrev pub end_rid : Rid
end_rid = record { page_id = invalid_page_id; slot_num = 0 }

-- The loop for the first slot from `slot` on that holds a tuple, in the `n` slots up to the number
-- of tuples.
unfoldable pub live_slot : (ℕ → ℕ) → ℕ → ℕ → Option ℕ
live_slot d slot zero = none
live_slot d slot (suc n) =
    let rest = live_slot d ((slot + 1) % u16_mod) n in
    if ltb 0 (get_length_at d slot) then some slot else rest

-- `GetData()` with `GetLength()`.
unfoldable pub bytes_of : Tuple → List ℕ
bytes_of t = run 0 t.contents.size t.contents.byte

-- The slot is on the page, and so are the bytes of its tuple, which then fit the buffer of
-- `GetTuple`; what is undefined behaviour in C++ is a fault in `get_tuple_at`.
abbrev pub in_page : (ℕ → ℕ) → ℕ → Bool
in_page d slot =
    leb (slot_offset slot + 4) page_size
    && (get_length_at d slot == 0 || leb (get_offset_at d slot + get_length_at d slot) page_size)

-- What `GetTuple` makes of a page that it read: the bytes go through a buffer on the stack, here 0
-- where nothing is copied to it.
unfoldable pub copied : (ℕ → ℕ) → Rid → Tuple
unfolding write_bytes read_from
copied d rid =
    let bytes = get_tuple d rid.slot_num in
    record (read_from empty_tuple (write_bytes (λ _. 0) 0 bytes) 0 (length bytes)) { rid = rid }

module _ {S : Type 0} (ops : PagePool S (ℕ → ℕ)) where
  unfoldable pub fetch : ℕ → Program S (Option ℕ)
  fetch page_id s = let (t, frame) = ops.fetch_page s page_id in some (frame, t)

  unfoldable pub allocate : Program S (Option (ℕ × ℕ))
  allocate s = let (t, got) = ops.new_page s in some (got, t)

  unfoldable pub unpin : ℕ → Bool → Program S (Unit {0})
  unpin page_id is_dirty s = some (tt, (ops.unpin_page s page_id is_dirty).0)

  unfoldable pub read : ℕ → Program S (ℕ → ℕ)
  read frame s = some (ops.read s frame, s)

  unfoldable pub write : ℕ → (ℕ → ℕ) → Program S (Unit {0})
  write frame d s = some (tt, ops.write s frame d)

  -- The constructor; the result is `first_page_id_`.
  unfoldable pub new_heap : Program S ℕ
  unfolding allocate read write unpin
  new_heap = do
    got ← allocate
    elim got [
      | none ↦ fault
      | some (page_id, frame) ↦ do
        d ← read frame
        write frame (init d invalid_page_id)
        unpin page_id true
        give page_id
    ]

  -- The branch of `InsertTuple` behind the last page.
  unfoldable pub append_page : ℕ → ℕ → List ℕ → Program S (Option Rid)
  unfolding allocate read write unpin
  append_page page_id frame tuple = do
    got ← allocate
    elim got [
      | none ↦ do unpin page_id false; give none
      | some (new_page_id, new_frame) ↦ do
        d ← read new_frame
        write new_frame (init d invalid_page_id)
        last ← read frame
        write frame (set_next_page_id last new_page_id)
        unpin page_id true
        e ← read new_frame
        write new_frame (insert_tuple e tuple).0
        unpin new_page_id true
        elim (insert_tuple e tuple).1 [
          | none ↦ give none
          | some slot ↦ give (some (record { page_id = new_page_id; slot_num = slot }))
        ]
    ]

  -- The loop of `InsertTuple`, from a page on; a page without room is not written.
  unfoldable pub insert_from : ℕ → ℕ → List ℕ → Program S (Option Rid)
  unfolding fetch read write unpin append_page
  insert_from zero page_id tuple = fault
  insert_from (suc fuel) page_id tuple = if page_id == invalid_page_id then give none else do
    got ← fetch page_id
    elim got [
      | none ↦ give none
      | some frame ↦ do
        d ← read frame
        elim (insert_tuple d tuple).1 [
          | some slot ↦ do
            write frame (insert_tuple d tuple).0
            unpin page_id true
            give (some (record { page_id = page_id; slot_num = slot }))
          | none ↦ elim (get_next_page_id d == invalid_page_id) [
            | true ↦ append_page page_id frame tuple
            | false ↦ do unpin page_id false; insert_from fuel (get_next_page_id d) tuple
          ]
        ]
    ]

  -- `GetTuple`.
  unfoldable pub get_tuple_at : Rid → Program S Tuple
  unfolding fetch read unpin copied
  get_tuple_at rid = do
    got ← fetch rid.page_id
    elim got [
      | none ↦ fault
      | some frame ↦ do
        d ← read frame
        if not (in_page d rid.slot_num)
            then fault
            else do unpin rid.page_id false; give (copied d rid)
    ]

  -- `UpdateTuple`.
  unfoldable pub update_tuple_at : Rid → Tuple → Program S Bool
  unfolding fetch read write unpin bytes_of
  update_tuple_at rid new_tuple = do
    got ← fetch rid.page_id
    elim got [
      | none ↦ give false
      | some frame ↦ do
        d ← read frame
        let (e, success) = update_tuple d rid.slot_num (bytes_of new_tuple)
        write frame e
        unpin rid.page_id success
        give success
    ]

  -- `DeleteTuple`.
  unfoldable pub delete_tuple_at : Rid → Program S (Unit {0})
  unfolding fetch read write unpin
  delete_tuple_at rid = do
    got ← fetch rid.page_id
    elim got [
      | none ↦ give tt
      | some frame ↦ do
        d ← read frame
        write frame (delete_tuple d rid.slot_num)
        unpin rid.page_id true
        give tt
    ]

  -- The loop of `operator++` and of `Begin`, from a page and a slot on: the next place that holds a
  -- tuple.
  unfoldable pub seek : ℕ → ℕ → ℕ → Program S Rid
  unfolding fetch read unpin live_slot
  seek zero page_id slot = fault
  seek (suc fuel) page_id slot = if page_id == invalid_page_id then give end_rid else do
    got ← fetch page_id
    elim got [
      | none ↦ give end_rid
      | some frame ↦ do
        d ← read frame
        unpin page_id false
        elim (live_slot d slot (get_num_tuples d - slot)) [
          | some found ↦ give (record { page_id = page_id; slot_num = found })
          | none ↦ seek fuel (get_next_page_id d) 0
        ]
    ]

  -- `operator++`.
  unfoldable pub next_rid : ℕ → Rid → Program S Rid
  unfolding seek
  next_rid fuel rid = seek fuel rid.page_id ((rid.slot_num + 1) % u16_mod)

  -- `Begin`.
  unfoldable pub begin : ℕ → ℕ → Program S Rid
  unfolding seek
  begin fuel first_page_id = seek fuel first_page_id 0

  -- The loop of a client, such as `SeqScanExecutor::Next` without a predicate, from a place of the
  -- iterator on: `*iter_` and `++iter_`, until `End`.
  unfoldable pub scan_from : ℕ → ℕ → Rid → Program S (List Tuple)
  unfolding get_tuple_at next_rid
  scan_from zero fuel rid = fault
  scan_from (suc turns) fuel rid = if rid_eq rid end_rid then give [] else do
    t ← get_tuple_at rid
    next ← next_rid fuel rid
    rest ← scan_from turns fuel next
    give (t ∷ rest)

  -- The loop from `Begin` on.
  unfoldable pub scan : ℕ → ℕ → ℕ → Program S (List Tuple)
  scan turns fuel first_page_id = do rid ← begin fuel first_page_id; scan_from turns fuel rid
