-- ===== src/Storage/TablePage/Examples.antt =====
-- Runs of a table page, and its theorems at them.
use one_base.Base.{ℕ, ◌+◌, ◌≤◌, ◌<◌, ◌≡◌, ◌⊎◌, inl, inr, refl, none, [], ◌∷◌, arith}
use one_base.Storage.Slots.{run}
use one_base.Storage.Bytes.{read_u16, write_u16, read_u32, write_u32, write_bytes}
use one_base.Storage.TablePage.{
  page_size, slot_offset, init, get_num_tuples, set_num_tuples, get_free_space_pointer,
  set_free_space_pointer, get_offset_at, get_length_at, set_offset_at, set_length_at,
  get_free_space_remaining, place_tuple, insert_tuple, get_tuple, delete_tuple, update_tuple,
}
use one_base.Storage.TablePage.Insert.{IsValid, Inserts, insert_tuple-Inserts}
use one_base.Storage.TablePage.Update.{Updates, update_tuple-Updates}
use one_base.Storage.TablePage.Delete.{init-IsValid, Deletes, delete_tuple-Deletes}

program : Unit {0}
unfolding run read_u16 write_u16 read_u32 write_u32 write_bytes init get_num_tuples set_num_tuples
    get_free_space_pointer set_free_space_pointer get_offset_at get_length_at set_offset_at
    set_length_at get_free_space_remaining place_tuple insert_tuple get_tuple delete_tuple
    update_tuple
program = tt

abbrev fresh : ℕ → ℕ
fresh = init (λ i. 7) 5

abbrev one : ℕ → ℕ
one = (insert_tuple fresh (1 ∷ 2 ∷ 3 ∷ [])).0

read_back : get_tuple one 0 ≡ (1 ∷ 2 ∷ 3 ∷ [])
unfolding program
read_back = refl

deleted : get_tuple (delete_tuple one 0) 0 ≡ []
unfolding program
deleted = refl

updated : get_tuple (update_tuple one 0 (9 ∷ 8 ∷ [])).0 0 ≡ (9 ∷ 8 ∷ [])
unfolding program
updated = refl

fresh-IsValid : IsValid fresh
unfolding program
fresh-IsValid = record {
  room = omega arith;
  top = omega arith;
  placed = λ s h. absurd (omega (arith, h));
}

insert_tuple-Inserts_example :
    ((get_free_space_pointer fresh < slot_offset (get_num_tuples fresh) + 4 + 2)
      × (insert_tuple fresh (6 ∷ 7 ∷ []) ≡ (fresh, none)))
    ⊎ ((slot_offset (get_num_tuples fresh) + 4 + 2 ≤ get_free_space_pointer fresh)
        × Inserts fresh
            (6 ∷ 7 ∷ [])
            (insert_tuple fresh (6 ∷ 7 ∷ [])).0
            (insert_tuple fresh (6 ∷ 7 ∷ [])).1)
insert_tuple-Inserts_example = insert_tuple-Inserts fresh fresh-IsValid (6 ∷ 7 ∷ [])

init-IsValid_run :
    IsValid fresh × (get_num_tuples fresh ≡ 0) × (get_free_space_pointer fresh ≡ page_size)
init-IsValid_run = init-IsValid (λ i. 7) 5

one_room : (get_num_tuples fresh ≡ 0) × (get_free_space_pointer fresh ≡ 4096)
unfolding program
one_room = (refl, refl)

one_count : get_num_tuples one ≡ 1
unfolding program
one_count = refl

one-IsValid : IsValid one
one-IsValid = elim (insert_tuple-Inserts fresh fresh-IsValid (1 ∷ 2 ∷ 3 ∷ [])) [
  | inl (full, e) ↦ absurd (omega (arith, full, one_room.0, one_room.1))
  | inr (fits, done) ↦ done.valid
]

delete_tuple-Deletes_example : Deletes one 0 (delete_tuple one 0)
delete_tuple-Deletes_example = delete_tuple-Deletes one one-IsValid 0 (omega (arith, one_count))

one_fsp : get_free_space_pointer one ≡ 4093
unfolding program
one_fsp = refl

update_tuple-Updates_example :
    Updates one 0
      (4 ∷ 4 ∷ [])
      (update_tuple one 0 (4 ∷ 4 ∷ [])).0
      (update_tuple one 0 (4 ∷ 4 ∷ [])).1
update_tuple-Updates_example =
    update_tuple-Updates one one-IsValid 0 (omega (arith, one_count)) (4 ∷ 4 ∷ [])
      (omega (arith, one_count, one_fsp))
