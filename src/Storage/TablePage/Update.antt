-- ===== src/Storage/TablePage/Update.antt =====
-- `UpdateTuple` of a table page with room for the whole new tuple.
use one_base.Base.{
  ℕ, ◌+◌, ◌-◌, ◌%◌, ◌≤◌, ◌<◌, ◌≡◌, ◌≢◌, ◌⊎◌, inl, inr, refl, sym, subst, ap, ◌∙◌, Bool, true, false,
  ◌&&◌, List, arith, ltb, length, Bool-cases, ltb→lt, ltb-false, ◌==◌, ==→eq, u16_mod, sub_u32,
}
use one_base.Storage.Slots.{run, run-ext}
use one_base.Storage.Bytes.{
  write_u16, write_u32, write_bytes, read-write_u16, write_u16_other, read_u16-ext, read_u32-ext,
  write_u32_other, read-write_u32, write_bytes_other, read-write_bytes,
}
use one_base.Storage.TablePage.{
  slot_offset, get_num_tuples, get_free_space_pointer, set_free_space_pointer, get_offset_at,
  get_length_at, set_offset_at, set_length_at, get_free_space_remaining, get_tuple, delete_tuple,
  update_tuple,
}
use one_base.Storage.TablePage.Insert.{IsValid, remaining}
use one_base.Storage.TablePage.Delete.{Deletes, delete_tuple-Deletes, fsp_deleted}

-- The writes behind the deletion, on a well-formed page `c` with room above its slots.
module _ (c : ℕ → ℕ) (v : IsValid c) (slot_num : ℕ) (within : slot_num < get_num_tuples c)
    (bytes : List ℕ)
    (fits : slot_offset (get_num_tuples c) + length bytes ≤ get_free_space_pointer c) where
  abbrev new_fsp : ℕ
  new_fsp = get_free_space_pointer c - length bytes

  abbrev copied : ℕ → ℕ
  copied = write_bytes (write_u32 c 8 new_fsp) new_fsp bytes

  abbrev located : ℕ → ℕ
  located = write_u16 copied (slot_offset slot_num) new_fsp

  abbrev e : ℕ → ℕ
  e = write_u16 located (slot_offset slot_num + 2) (length bytes)

  outside : (j : ℕ) → (j < slot_offset slot_num) ⊎ (slot_offset slot_num + 4 ≤ j) → e j ≡ copied j
  outside j (inl h) =
      write_u16_other located (slot_offset slot_num + 2) (length bytes) j (inl (omega (arith, h)))
      ∙ write_u16_other copied (slot_offset slot_num) new_fsp j (inl h)
  outside j (inr h) =
      write_u16_other located (slot_offset slot_num + 2) (length bytes) j (inr (omega (arith, h)))
      ∙ write_u16_other copied (slot_offset slot_num) new_fsp j (inr (omega (arith, h)))

  num_after : get_num_tuples e ≡ get_num_tuples c
  unfolding get_num_tuples
  num_after = read_u32-ext e c 4 (λ i g h.
      outside i (inl (omega (arith, h)))
      ∙ write_bytes_other (write_u32 c 8 new_fsp) new_fsp bytes i (inl (omega (arith, h, fits)))
      ∙ write_u32_other c 8 new_fsp i (inl (omega (arith, h))))

  fsp_after : get_free_space_pointer e ≡ new_fsp
  unfolding get_free_space_pointer
  fsp_after =
      read_u32-ext e (write_u32 c 8 new_fsp) 8 (λ i g h.
        outside i (inl (omega (arith, h)))
        ∙ write_bytes_other (write_u32 c 8 new_fsp) new_fsp bytes i (inl (omega (arith, h, fits))))
      ∙ read-write_u32 c 8 new_fsp (omega (arith, v.top))

  apart :
      (s : ℕ)
      → s < get_num_tuples c
      → s ≢ slot_num
      → (j : ℕ) → slot_offset s ≤ j
      → j < slot_offset s + 4
      → e j ≡ c j
  apart s less ne j g h =
      elim (Bool-cases (ltb s slot_num)) [
        | inl low ↦ outside j (inl (omega (arith, h, ltb→lt s slot_num low)))
        | inr high ↦ outside j (inr (omega (arith, g, ne, ltb-false s slot_num high)))
      ]
      ∙ write_bytes_other (write_u32 c 8 new_fsp) new_fsp bytes j
          (inl (omega (arith, h, less, fits)))
      ∙ write_u32_other c 8 new_fsp j (inr (omega (arith, g)))

  old_tuple : (j : ℕ) → get_free_space_pointer c ≤ j → e j ≡ c j
  old_tuple j h =
      outside j (inr (omega (arith, h, fits, within)))
      ∙ write_bytes_other (write_u32 c 8 new_fsp) new_fsp bytes j (inr (omega (arith, h, fits)))
      ∙ write_u32_other c 8 new_fsp j (inr (omega (arith, h, fits)))

  offset_new : get_offset_at e slot_num ≡ new_fsp
  unfolding get_offset_at
  offset_new =
      read_u16-ext e located (slot_offset slot_num)
        (write_u16_other located (slot_offset slot_num + 2) (length bytes) (slot_offset slot_num)
          (inl (omega arith)))
        (write_u16_other located (slot_offset slot_num + 2) (length bytes)
          (slot_offset slot_num + 1) (inl (omega arith)))
      ∙ read-write_u16 copied (slot_offset slot_num) new_fsp (omega (arith, v.top))

  length_new : get_length_at e slot_num ≡ length bytes
  unfolding get_length_at
  length_new =
      read-write_u16 located (slot_offset slot_num + 2) (length bytes) (omega (arith, v.top, fits))

  offset_old : (s : ℕ) → s < get_num_tuples c → s ≢ slot_num → get_offset_at e s ≡ get_offset_at c s
  unfolding get_offset_at
  offset_old s h ne =
      read_u16-ext e c (slot_offset s) (apart s h ne (slot_offset s) (omega arith) (omega arith))
        (apart s h ne (slot_offset s + 1) (omega arith) (omega arith))

  length_old : (s : ℕ) → s < get_num_tuples c → s ≢ slot_num → get_length_at e s ≡ get_length_at c s
  unfolding get_length_at
  length_old s h ne =
      read_u16-ext e c (slot_offset s + 2)
        (apart s h ne (slot_offset s + 2) (omega arith) (omega arith))
        (apart s h ne (slot_offset s + 2 + 1) (omega arith) (omega arith))

  tuple_new : get_tuple e slot_num ≡ bytes
  unfolding get_tuple
  tuple_new =
      (λ t. run (offset_new t) (length_new t) e)
      ∙ run-ext new_fsp new_fsp (length bytes) e copied
          (λ i h. outside (new_fsp + i) (inr (omega (arith, fits, within))))
      ∙ read-write_bytes (write_u32 c 8 new_fsp) new_fsp bytes

  tuple_old : (s : ℕ) → s < get_num_tuples c → s ≢ slot_num → get_tuple e s ≡ get_tuple c s
  unfolding get_tuple
  tuple_old s h ne =
      (λ t. run (offset_old s h ne t) (length_old s h ne t) e)
      ∙ run-ext (get_offset_at c s) (get_offset_at c s) (get_length_at c s) e c (λ i k.
        elim (v.placed s h) [
          | inl empty ↦ absurd (omega (arith, empty, k))
          | inr (low, high) ↦ old_tuple (get_offset_at c s + i) (omega (arith, low))
        ])

  written-IsValid : IsValid e
  written-IsValid = record {
    room = omega (arith, num_after, fsp_after, fits);
    top = omega (arith, fsp_after, v.top);
    placed = λ s h. elim (Bool-cases (s == slot_num)) [
      | inl here ↦
          let same : s ≡ slot_num = ==→eq s slot_num here in
          inr (
            omega (arith, fsp_after, ap (get_offset_at e) same, offset_new),
            omega (
              arith,
              ap (get_offset_at e) same,
              offset_new,
              ap (get_length_at e) same,
              length_new,
              v.top,
              fits,
            ),
          )
      | inr other ↦
          let ne : s ≢ slot_num = λ f. ground (arith, f, other) in
          let less : s < get_num_tuples c = omega (arith, h, num_after) in
          elim (v.placed s less) [
            | inl empty ↦ inl (length_old s less ne ∙ empty)
            | inr (low, high) ↦ inr (
              omega (arith, fsp_after, offset_old s less ne, low),
              omega (arith, offset_old s less ne, length_old s less ne, high),
            )
          ]
    ];
  }

  writes_lem :
      set_length_at
        (set_offset_at
          (write_bytes (set_free_space_pointer c new_fsp) new_fsp bytes)
          slot_num
          (new_fsp % u16_mod))
        slot_num
        (length bytes % u16_mod)
      ≡ e
  unfolding set_free_space_pointer set_offset_at set_length_at
  writes_lem =
      let low : new_fsp % u16_mod ≡ new_fsp = omega (arith, v.top) in
      let small : length bytes % u16_mod ≡ length bytes = omega (arith, v.top, fits) in
      rw (low, small) refl

update_tuple_space :
    (d : ℕ → ℕ) (slot_num : ℕ) (bytes : List ℕ)
    → (ltb (get_length_at d slot_num) (length bytes)
        && ltb (get_free_space_remaining d) (length bytes - get_length_at d slot_num))
      ≡ false
    → update_tuple d slot_num bytes ≡ (
      set_length_at
          (set_offset_at
            (write_bytes
              (set_free_space_pointer
                (delete_tuple d slot_num)
                (sub_u32 (get_free_space_pointer (delete_tuple d slot_num)) (length bytes)))
              (sub_u32 (get_free_space_pointer (delete_tuple d slot_num)) (length bytes))
              bytes)
            slot_num
            (sub_u32 (get_free_space_pointer (delete_tuple d slot_num)) (length bytes) % u16_mod))
          slot_num
          (length bytes % u16_mod),
      true,
    )
unfolding update_tuple
update_tuple_space d slot_num bytes h = rw h refl

-- A page after `UpdateTuple` took the new tuple: well formed, the slot gives the new tuple, and all
-- other slots give what they gave.
pub record Updates (d : ℕ → ℕ) (slot_num : ℕ) (bytes : List ℕ) (e : ℕ → ℕ) (result : Bool)
    : Type 0 where
  pub valid : IsValid e
  pub counted : get_num_tuples e ≡ get_num_tuples d
  pub read_back : get_tuple e slot_num ≡ bytes
  pub others : (s : ℕ) → s < get_num_tuples d → s ≢ slot_num → get_tuple e s ≡ get_tuple d s
  pub returned : result ≡ true

-- On a well-formed page whose free space holds the whole new tuple, `UpdateTuple` of one of its
-- slots returns true and leaves a well-formed page on which `GetTuple` of the slot gives the new
-- tuple and of every other slot gives what it gave.
pub update_tuple-Updates :
    (d : ℕ → ℕ)
    → IsValid d
    → (slot_num : ℕ) → slot_num < get_num_tuples d
    → (bytes : List ℕ) → slot_offset (get_num_tuples d) + length bytes ≤ get_free_space_pointer d
    → Updates d slot_num bytes (update_tuple d slot_num bytes).0 (update_tuple d slot_num bytes).1
update_tuple-Updates d v slot_num within bytes fits =
    let c : ℕ → ℕ = delete_tuple d slot_num in
    let deleted : Deletes d slot_num c = delete_tuple-Deletes d v slot_num within in
    let fsp : get_free_space_pointer c ≡ get_free_space_pointer d = fsp_deleted d slot_num in
    let less : slot_num < get_num_tuples c = omega (arith, within, deleted.counted) in
    let room : slot_offset (get_num_tuples c) + length bytes ≤ get_free_space_pointer c =
      omega (arith, fits, deleted.counted, fsp) in
    let start : sub_u32 (get_free_space_pointer c) (length bytes)
        ≡ get_free_space_pointer c - length bytes =
      omega (arith, room, fsp, v.top) in
    let accepted : (ltb (get_length_at d slot_num) (length bytes)
          && ltb (get_free_space_remaining d) (length bytes - get_length_at d slot_num))
        ≡ false =
      ground (arith, remaining d v, fits) in
    let done : update_tuple d slot_num bytes ≡ (e c deleted.valid slot_num less bytes room, true) =
      update_tuple_space d slot_num bytes accepted
      ∙ (λ t. (
        set_length_at
            (set_offset_at (write_bytes (set_free_space_pointer c (start t)) (start t) bytes)
              slot_num (start t % u16_mod))
            slot_num (length bytes % u16_mod),
        true,
      ))
      ∙ (λ t. (writes_lem c deleted.valid slot_num less bytes room t, true)) in
    subst (λ r. Updates d slot_num bytes r.0 r.1) (sym done)
      (record {
        valid = written-IsValid c deleted.valid slot_num less bytes room;
        counted = num_after c deleted.valid slot_num less bytes room ∙ deleted.counted;
        read_back = tuple_new c deleted.valid slot_num less bytes room;
        others = λ s h ne.
            tuple_old c deleted.valid slot_num less bytes room s (omega (arith, h, deleted.counted))
              ne
            ∙ deleted.others s h ne;
        returned = refl;
      })
