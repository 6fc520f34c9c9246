-- ===== src/Storage/TablePage/Delete.antt =====
-- `Init` and `DeleteTuple` of a table page.
use one_base.Base.{
  ℕ, ◌+◌, ◌≤◌, ◌<◌, ◌≡◌, ◌≢◌, ◌⊎◌, inl, inr, ap, ◌∙◌, [], arith, ltb, if◌then◌else◌, Bool-cases,
  ltb→lt, ltb-false, ◌==◌, ==→eq,
}
use one_base.Storage.Slots.{run, run-ext}
use one_base.Storage.Bytes.{
  write_u16, write_u32, read-write_u16, write_u16_other, read_u16-ext, read_u32-ext,
  write_u32_other, read-write_u32,
}
use one_base.Storage.TablePage.{
  page_size, slot_offset, init, get_num_tuples, get_free_space_pointer, set_free_space_pointer,
  get_offset_at, get_length_at, set_offset_at, set_length_at, get_tuple, delete_tuple,
}
use one_base.Storage.TablePage.Insert.{IsValid}

-- `Init` makes a well-formed page without tuples, whatever the memory held, with all of the page
-- behind the header free.
pub init-IsValid :
    (d : ℕ → ℕ) (page_id : ℕ)
    → IsValid (init d page_id)
      × (get_num_tuples (init d page_id) ≡ 0)
      × (get_free_space_pointer (init d page_id) ≡ page_size)
unfolding init set_free_space_pointer get_num_tuples get_free_space_pointer
init-IsValid d page_id =
    let cleared : ℕ → ℕ = λ i. if ltb i page_size then 0 else d i in
    let zeroed : ℕ → ℕ = write_u32 (write_u32 cleared 0 page_id) 4 0 in
    let num : get_num_tuples (init d page_id) ≡ 0 =
      read_u32-ext (write_u32 zeroed 8 page_size) zeroed 4
        (λ i g h. write_u32_other zeroed 8 page_size i (inl (omega (arith, h))))
      ∙ read-write_u32 (write_u32 cleared 0 page_id) 4 0 (omega arith) in
    let fsp : get_free_space_pointer (init d page_id) ≡ page_size =
      read-write_u32 zeroed 8 page_size (omega arith) in
    (
      record {
        room = omega (arith, num, fsp);
        top = omega (arith, fsp);
        placed = λ s h. absurd (omega (arith, num, h));
      },
      num,
      fsp,
    )

module _ (d : ℕ → ℕ) (slot_num : ℕ) where
  deleted_other :
      (j : ℕ)
      → (j < slot_offset slot_num) ⊎ (slot_offset slot_num + 4 ≤ j)
      → delete_tuple d slot_num j ≡ d j
  unfolding delete_tuple set_offset_at set_length_at
  deleted_other j (inl h) =
      write_u16_other (write_u16 d (slot_offset slot_num + 2) 0) (slot_offset slot_num) 0 j (inl h)
      ∙ write_u16_other d (slot_offset slot_num + 2) 0 j (inl (omega (arith, h)))
  deleted_other j (inr h) =
      write_u16_other (write_u16 d (slot_offset slot_num + 2) 0) (slot_offset slot_num) 0 j
        (inr (omega (arith, h)))
      ∙ write_u16_other d (slot_offset slot_num + 2) 0 j (inr (omega (arith, h)))

  length_deleted : get_length_at (delete_tuple d slot_num) slot_num ≡ 0
  unfolding delete_tuple set_offset_at set_length_at get_length_at
  length_deleted =
      let measured : ℕ → ℕ = write_u16 d (slot_offset slot_num + 2) 0 in
      read_u16-ext (write_u16 measured (slot_offset slot_num) 0) measured (slot_offset slot_num + 2)
        (write_u16_other measured (slot_offset slot_num) 0 (slot_offset slot_num + 2)
          (inr (omega arith)))
        (write_u16_other measured (slot_offset slot_num) 0 (slot_offset slot_num + 2 + 1)
          (inr (omega arith)))
      ∙ read-write_u16 d (slot_offset slot_num + 2) 0 (omega arith)

  pub num_deleted : get_num_tuples (delete_tuple d slot_num) ≡ get_num_tuples d
  unfolding get_num_tuples
  num_deleted =
      read_u32-ext (delete_tuple d slot_num) d 4 (λ i g h. deleted_other i (inl (omega (arith, h))))

  pub fsp_deleted : get_free_space_pointer (delete_tuple d slot_num) ≡ get_free_space_pointer d
  unfolding get_free_space_pointer
  fsp_deleted =
      read_u32-ext (delete_tuple d slot_num) d 8 (λ i g h. deleted_other i (inl (omega (arith, h))))

  apart :
      (s : ℕ)
      → s ≢ slot_num
      → (j : ℕ) → slot_offset s ≤ j
      → j < slot_offset s + 4
      → delete_tuple d slot_num j ≡ d j
  apart s ne j g h = elim (Bool-cases (ltb s slot_num)) [
    | inl low ↦ deleted_other j (inl (omega (arith, h, ltb→lt s slot_num low)))
    | inr high ↦ deleted_other j (inr (omega (arith, g, ne, ltb-false s slot_num high)))
  ]

  offset_kept :
      (s : ℕ) → s ≢ slot_num → get_offset_at (delete_tuple d slot_num) s ≡ get_offset_at d s
  unfolding get_offset_at
  offset_kept s ne =
      read_u16-ext (delete_tuple d slot_num) d (slot_offset s)
        (apart s ne (slot_offset s) (omega arith) (omega arith))
        (apart s ne (slot_offset s + 1) (omega arith) (omega arith))

  length_kept :
      (s : ℕ) → s ≢ slot_num → get_length_at (delete_tuple d slot_num) s ≡ get_length_at d s
  unfolding get_length_at
  length_kept s ne =
      read_u16-ext (delete_tuple d slot_num) d (slot_offset s + 2)
        (apart s ne (slot_offset s + 2) (omega arith) (omega arith))
        (apart s ne (slot_offset s + 2 + 1) (omega arith) (omega arith))

-- A page after `DeleteTuple`: well formed, the deleted slot empty, all others as before.
pub record Deletes (d : ℕ → ℕ) (slot_num : ℕ) (e : ℕ → ℕ) : Type 0 where
  pub valid : IsValid e
  pub counted : get_num_tuples e ≡ get_num_tuples d
  pub emptied : get_tuple e slot_num ≡ []
  pub others : (s : ℕ) → s < get_num_tuples d → s ≢ slot_num → get_tuple e s ≡ get_tuple d s

-- On a well-formed page, `DeleteTuple` of one of its slots leaves a well-formed page with as many
-- slots, on which `GetTuple` of the slot gives no byte and of every other slot gives what it gave.
pub delete_tuple-Deletes :
    (d : ℕ → ℕ)
    → IsValid d
    → (slot_num : ℕ) → slot_num < get_num_tuples d
    → Deletes d slot_num (delete_tuple d slot_num)
unfolding get_tuple run
delete_tuple-Deletes d v slot_num within =
    let e : ℕ → ℕ = delete_tuple d slot_num in
    let num = num_deleted d slot_num in
    let fsp = fsp_deleted d slot_num in
    record {
      valid = record {
        room = omega (arith, num, fsp, v.room);
        top = omega (arith, fsp, v.top);
        placed = λ s h. elim (Bool-cases (s == slot_num)) [
          | inl same ↦
              inl (ap (get_length_at e) (==→eq s slot_num same) ∙ length_deleted d slot_num)
          | inr other ↦
              let ne : s ≢ slot_num = λ f. ground (arith, f, other) in
              elim (v.placed s (omega (arith, h, num))) [
                | inl empty ↦ inl (length_kept d slot_num s ne ∙ empty)
                | inr (low, high) ↦ inr (
                  omega (arith, fsp, offset_kept d slot_num s ne, low),
                  omega (arith, offset_kept d slot_num s ne, length_kept d slot_num s ne, high),
                )
              ]
        ];
      };
      counted = num;
      emptied = ap (λ n. run (get_offset_at e slot_num) n e) (length_deleted d slot_num);
      others = λ s h ne.
          (λ t. run (offset_kept d slot_num s ne t) (length_kept d slot_num s ne t) e)
          ∙ run-ext (get_offset_at d s) (get_offset_at d s) (get_length_at d s) e d (λ i k.
            elim (v.placed s h) [
              | inl empty ↦ absurd (omega (arith, empty, k))
              | inr (low, high) ↦
                  deleted_other d slot_num (get_offset_at d s + i)
                    (inr (omega (arith, low, v.room, within)))
            ]);
    }
