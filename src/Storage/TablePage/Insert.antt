-- ===== src/Storage/TablePage/Insert.antt =====
-- `InsertTuple` on a well-formed table page.
use one_base.Base.{
  ℕ, ◌+◌, ◌-◌, ◌%◌, ◌≤◌, ◌<◌, ◌≡◌, ◌⊎◌, inl, inr, refl, sym, subst, ap, ◌∙◌, true, false, Option,
  none, some, List, arith, ltb, length, Bool-cases, ltb→lt, ltb-false, u16_mod, u32_mod, sub_u32,
}
use one_base.Storage.Slots.{run, run-ext}
use one_base.Storage.Bytes.{
  write_u16, write_u32, write_bytes, read-write_u16, write_u16_other, read_u16-ext, read_u32-ext,
  write_u32_other, read-write_u32, write_bytes_other, read-write_bytes,
}
use one_base.Storage.TablePage.{
  page_size, slot_offset, get_num_tuples, set_num_tuples, get_free_space_pointer,
  set_free_space_pointer, get_offset_at, get_length_at, set_offset_at, set_length_at,
  get_free_space_remaining, place_tuple, insert_tuple, get_tuple,
}

-- The slots end before the free space pointer, and every tuple that is not empty lies between it
-- and the end of the page.
pub record IsValid (d : ℕ → ℕ) : Type 0 where
  pub room : slot_offset (get_num_tuples d) ≤ get_free_space_pointer d
  pub top : get_free_space_pointer d ≤ page_size
  pub placed :
      (s : ℕ)
      → s < get_num_tuples d
      → (get_length_at d s ≡ 0)
        ⊎ ((get_free_space_pointer d ≤ get_offset_at d s)
            × (get_offset_at d s + get_length_at d s ≤ page_size))

-- Fewer tuples than `slot_offset_t` counts.
pub few_tuples : (d : ℕ → ℕ) → IsValid d → get_num_tuples d < u16_mod
few_tuples d v = omega (arith, v.room, v.top)

module _ (d : ℕ → ℕ) (v : IsValid d) where
  pub remaining :
      get_free_space_remaining d ≡ get_free_space_pointer d - slot_offset (get_num_tuples d)
  unfolding get_free_space_remaining
  remaining = omega (arith, v.room, v.top)

  module _ (bytes : List ℕ)
      (fits : slot_offset (get_num_tuples d) + 4 + length bytes ≤ get_free_space_pointer d) where
    abbrev n : ℕ
    n = get_num_tuples d

    abbrev new_fsp : ℕ
    new_fsp = get_free_space_pointer d - length bytes

    -- The page after each write but the last.
    abbrev copied : ℕ → ℕ
    copied = write_bytes (write_u32 d 8 new_fsp) new_fsp bytes

    abbrev located : ℕ → ℕ
    located = write_u16 copied (slot_offset n) new_fsp

    abbrev measured : ℕ → ℕ
    measured = write_u16 located (slot_offset n + 2) (length bytes)

    abbrev e : ℕ → ℕ
    e = write_u32 measured 4 (n + 1)

    place_tuple_lem : place_tuple d n new_fsp bytes ≡ e
    unfolding place_tuple set_num_tuples set_free_space_pointer set_offset_at set_length_at
    place_tuple_lem =
        let slot : n % u16_mod ≡ n = omega (arith, v.room, v.top) in
        let low : new_fsp % u16_mod ≡ new_fsp = omega (arith, v.room, v.top) in
        let small : length bytes % u16_mod ≡ length bytes = omega (arith, v.top, fits) in
        let more : (n + 1) % u32_mod ≡ n + 1 = omega (arith, v.room, v.top) in
        rw (slot, low, small, more) refl

    behind_copied : (j : ℕ) → slot_offset n + 4 ≤ j → e j ≡ copied j
    behind_copied j h =
        write_u32_other measured 4 (n + 1) j (inr (omega (arith, h)))
        ∙ write_u16_other located (slot_offset n + 2) (length bytes) j (inr (omega (arith, h)))
        ∙ write_u16_other copied (slot_offset n) new_fsp j (inr (omega (arith, h)))

    header_or_slot : (j : ℕ) → 8 ≤ j → j < slot_offset n → e j ≡ write_u32 d 8 new_fsp j
    header_or_slot j g h =
        write_u32_other measured 4 (n + 1) j (inr (omega (arith, g)))
        ∙ write_u16_other located (slot_offset n + 2) (length bytes) j (inl (omega (arith, h)))
        ∙ write_u16_other copied (slot_offset n) new_fsp j (inl h)
        ∙ write_bytes_other (write_u32 d 8 new_fsp) new_fsp bytes j (inl (omega (arith, h, fits)))

    old_slot : (j : ℕ) → 12 ≤ j → j < slot_offset n → e j ≡ d j
    old_slot j g h =
        header_or_slot j (omega (arith, g)) h
        ∙ write_u32_other d 8 new_fsp j (inr (omega (arith, g)))

    old_tuple : (j : ℕ) → get_free_space_pointer d ≤ j → e j ≡ d j
    old_tuple j h =
        behind_copied j (omega (arith, h, fits))
        ∙ write_bytes_other (write_u32 d 8 new_fsp) new_fsp bytes j (inr (omega (arith, h, fits)))
        ∙ write_u32_other d 8 new_fsp j (inr (omega (arith, h, fits)))

    num_after : get_num_tuples e ≡ n + 1
    unfolding get_num_tuples
    num_after = read-write_u32 measured 4 (n + 1) (omega (arith, v.room, v.top))

    fsp_after : get_free_space_pointer e ≡ new_fsp
    unfolding get_free_space_pointer
    fsp_after =
        read_u32-ext e (write_u32 d 8 new_fsp) 8 (λ i g h. header_or_slot i g (omega (arith, h)))
        ∙ read-write_u32 d 8 new_fsp (omega (arith, v.top))

    offset_new : get_offset_at e n ≡ new_fsp
    unfolding get_offset_at
    offset_new =
        let at : (j : ℕ) → slot_offset n ≤ j → j < slot_offset n + 2 → e j ≡ located j = λ j g h.
          write_u32_other measured 4 (n + 1) j (inr (omega (arith, g)))
          ∙ write_u16_other located (slot_offset n + 2) (length bytes) j (inl h) in
        read_u16-ext e located (slot_offset n) (at (slot_offset n) (omega arith) (omega arith))
          (at (slot_offset n + 1) (omega arith) (omega arith))
        ∙ read-write_u16 copied (slot_offset n) new_fsp (omega (arith, v.top))

    length_new : get_length_at e n ≡ length bytes
    unfolding get_length_at
    length_new =
        let at : (j : ℕ) → slot_offset n + 2 ≤ j → e j ≡ measured j =
          λ j g. write_u32_other measured 4 (n + 1) j (inr (omega (arith, g))) in
        read_u16-ext e measured (slot_offset n + 2) (at (slot_offset n + 2) (omega arith))
          (at (slot_offset n + 2 + 1) (omega arith))
        ∙ read-write_u16 located (slot_offset n + 2) (length bytes) (omega (arith, v.top, fits))

    offset_old : (s : ℕ) → s < n → get_offset_at e s ≡ get_offset_at d s
    unfolding get_offset_at
    offset_old s h =
        read_u16-ext e d (slot_offset s) (old_slot (slot_offset s) (omega arith) (omega (arith, h)))
          (old_slot (slot_offset s + 1) (omega arith) (omega (arith, h)))

    length_old : (s : ℕ) → s < n → get_length_at e s ≡ get_length_at d s
    unfolding get_length_at
    length_old s h =
        read_u16-ext e d (slot_offset s + 2)
          (old_slot (slot_offset s + 2) (omega arith) (omega (arith, h)))
          (old_slot (slot_offset s + 2 + 1) (omega arith) (omega (arith, h)))

    tuple_new : get_tuple e n ≡ bytes
    unfolding get_tuple
    tuple_new =
        (λ t. run (offset_new t) (length_new t) e)
        ∙ run-ext new_fsp new_fsp (length bytes) e copied
            (λ i h. behind_copied (new_fsp + i) (omega (arith, fits)))
        ∙ read-write_bytes (write_u32 d 8 new_fsp) new_fsp bytes

    tuple_old : (s : ℕ) → s < n → get_tuple e s ≡ get_tuple d s
    unfolding get_tuple
    tuple_old s h =
        (λ t. run (offset_old s h t) (length_old s h t) e)
        ∙ run-ext (get_offset_at d s) (get_offset_at d s) (get_length_at d s) e d (λ i k.
          elim (v.placed s h) [
            | inl empty ↦ absurd (omega (arith, empty, k))
            | inr (low, high) ↦ old_tuple (get_offset_at d s + i) (omega (arith, low))
          ])

    placed-IsValid : IsValid e
    placed-IsValid = record {
      room = omega (arith, num_after, fsp_after, fits);
      top = omega (arith, fsp_after, v.top);
      placed = λ s h. elim (Bool-cases (ltb s n)) [
        | inl old ↦
            let less : s < n = ltb→lt s n old in
            elim (v.placed s less) [
              | inl empty ↦ inl (length_old s less ∙ empty)
              | inr (low, high) ↦ inr (
                omega (arith, fsp_after, offset_old s less, low),
                omega (arith, offset_old s less, length_old s less, high),
              )
            ]
        | inr new ↦
            let same : s ≡ n = omega (arith, h, num_after, ltb-false s n new) in
            inr (
              omega (arith, fsp_after, ap (get_offset_at e) same, offset_new),
              omega (
                arith,
                ap (get_offset_at e) same,
                offset_new,
                ap (get_length_at e) same,
                length_new,
                v.top,
                fits,
              ),
            )
      ];
    }

-- A page after `InsertTuple` found room: well formed, with one slot more, which is the one returned
-- and gives the tuple back, and with every other tuple as before.
pub record Inserts (d : ℕ → ℕ) (bytes : List ℕ) (e : ℕ → ℕ) (result : Option ℕ) : Type 0 where
  pub valid : IsValid e
  pub counted : get_num_tuples e ≡ get_num_tuples d + 1
  pub returned : result ≡ some (get_num_tuples d)
  pub read_back : get_tuple e (get_num_tuples d) ≡ bytes
  pub others : (s : ℕ) → s < get_num_tuples d → get_tuple e s ≡ get_tuple d s

insert_tuple_full :
    (d : ℕ → ℕ) (bytes : List ℕ)
    → ltb (get_free_space_remaining d) (length bytes + 4) ≡ true
    → insert_tuple d bytes ≡ (d, none)
unfolding insert_tuple
insert_tuple_full d bytes h = rw h refl

insert_tuple_space :
    (d : ℕ → ℕ) (bytes : List ℕ)
    → ltb (get_free_space_remaining d) (length bytes + 4) ≡ false
    → insert_tuple d bytes ≡ (
      place_tuple d (get_num_tuples d) (sub_u32 (get_free_space_pointer d) (length bytes)) bytes,
      some (get_num_tuples d % u16_mod),
    )
unfolding insert_tuple
insert_tuple_space d bytes h = rw h refl

-- On a well-formed page, `InsertTuple` returns no slot and changes nothing when the tuple and its
-- slot do not fit between the slots and the tuples, and otherwise leaves a well-formed page with
-- the tuple in the slot returned, from which `GetTuple` reads it back, and all others as they were.
pub insert_tuple-Inserts :
    (d : ℕ → ℕ)
    → IsValid d
    → (bytes : List ℕ)
    → ((get_free_space_pointer d < slot_offset (get_num_tuples d) + 4 + length bytes)
        × (insert_tuple d bytes ≡ (d, none)))
      ⊎ ((slot_offset (get_num_tuples d) + 4 + length bytes ≤ get_free_space_pointer d)
          × Inserts d bytes (insert_tuple d bytes).0 (insert_tuple d bytes).1)
insert_tuple-Inserts d v bytes =
    elim (Bool-cases (ltb (get_free_space_remaining d) (length bytes + 4))) [
      | inl full ↦ inl (
        omega (
          arith,
          ltb→lt (get_free_space_remaining d) (length bytes + 4) full,
          remaining d v,
          v.room,
        ),
        insert_tuple_full d bytes full,
      )
      | inr space ↦
          let fits : slot_offset (get_num_tuples d) + 4 + length bytes ≤ get_free_space_pointer d =
            omega (
              arith,
              ltb-false (get_free_space_remaining d) (length bytes + 4) space,
              remaining d v,
              v.room,
            ) in
          let start : sub_u32 (get_free_space_pointer d) (length bytes)
              ≡ get_free_space_pointer d - length bytes =
            omega (arith, fits, v.top) in
          let slot : get_num_tuples d % u16_mod ≡ get_num_tuples d = omega (arith, v.room, v.top) in
          let done : insert_tuple d bytes ≡ (e d v bytes fits, some (get_num_tuples d)) =
            insert_tuple_space d bytes space
            ∙ (λ t. (place_tuple d (get_num_tuples d) (start t) bytes, some (slot t)))
            ∙ (λ t. (place_tuple_lem d v bytes fits t, some (get_num_tuples d))) in
          inr (
            fits,
            subst (λ r. Inserts d bytes r.0 r.1) (sym done)
                (record {
                  valid = placed-IsValid d v bytes fits;
                  counted = num_after d v bytes fits;
                  returned = refl;
                  read_back = tuple_new d v bytes fits;
                  others = tuple_old d v bytes fits;
                }),
          )
    ]
