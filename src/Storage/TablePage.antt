-- ===== src/Storage/TablePage.antt =====
-- `TablePage` (src/storage/page/table_page.cpp): a slotted page of tuples. The bytes of `data_` are
-- a function of the address; the header is 16 bytes, a slot 4, and tuples are put in from the end
-- of the page down. A tuple is the list of its bytes, and the size passed with it is its length.
pub mod Insert
pub mod Delete
pub mod Update
mod Examples
use one_base.Base.{
  ℕ, zero, suc, ◌+◌, ◌-◌, ◌*◌, ◌%◌, Bool, true, false, Option, none, some, List, ltb, ◌&&◌,
  if◌then◌else◌, length, u16_mod, u32_mod, sub_size, sub_u32,
}
use one_base.Storage.Slots.{run}
use one_base.Storage.Bytes.{read_u16, write_u16, read_u32, write_u32, write_bytes}

-- `ONEBASE_PAGE_SIZE`
abbrev pub page_size : ℕ
page_size = 4096

-- The address of a slot: its offset word, then its length word.
abbrev pub slot_offset : ℕ → ℕ
slot_offset slot_num = 16 + slot_num * 4

unfoldable pub get_num_tuples : (ℕ → ℕ) → ℕ
unfolding read_u32
get_num_tuples d = read_u32 d 4

unfoldable pub set_num_tuples : (ℕ → ℕ) → ℕ → (ℕ → ℕ)
unfolding write_u32
set_num_tuples d num_tuples = write_u32 d 4 num_tuples

unfoldable pub get_free_space_pointer : (ℕ → ℕ) → ℕ
unfolding read_u32
get_free_space_pointer d = read_u32 d 8

unfoldable pub set_free_space_pointer : (ℕ → ℕ) → ℕ → (ℕ → ℕ)
unfolding write_u32
set_free_space_pointer d fsp = write_u32 d 8 fsp

unfoldable pub get_offset_at : (ℕ → ℕ) → ℕ → ℕ
unfolding read_u16
get_offset_at d slot_num = read_u16 d (slot_offset slot_num)

unfoldable pub get_length_at : (ℕ → ℕ) → ℕ → ℕ
unfolding read_u16
get_length_at d slot_num = read_u16 d (slot_offset slot_num + 2)

unfoldable pub set_offset_at : (ℕ → ℕ) → ℕ → ℕ → (ℕ → ℕ)
unfolding write_u16
set_offset_at d slot_num offset = write_u16 d (slot_offset slot_num) offset

unfoldable pub set_length_at : (ℕ → ℕ) → ℕ → ℕ → (ℕ → ℕ)
unfolding write_u16
set_length_at d slot_num tuple_length = write_u16 d (slot_offset slot_num + 2) tuple_length

-- `Init`.
unfoldable pub init : (ℕ → ℕ) → ℕ → (ℕ → ℕ)
unfolding write_u32 set_free_space_pointer
init d page_id =
    let cleared : ℕ → ℕ = λ i. if ltb i page_size then 0 else d i in
    set_free_space_pointer (write_u32 (write_u32 cleared 0 page_id) 4 0) page_size

unfoldable pub get_next_page_id : (ℕ → ℕ) → ℕ
unfolding read_u32
get_next_page_id d = read_u32 d 0

unfoldable pub set_next_page_id : (ℕ → ℕ) → ℕ → (ℕ → ℕ)
unfolding write_u32
set_next_page_id d next_page_id = write_u32 d 0 next_page_id

-- `GetFreeSpaceRemaining`: the difference on `size_t`, returned as a `uint32_t`.
unfoldable pub get_free_space_remaining : (ℕ → ℕ) → ℕ
unfolding get_num_tuples get_free_space_pointer
get_free_space_remaining d =
    sub_size (get_free_space_pointer d) (slot_offset (get_num_tuples d)) % u32_mod

-- The writes of `InsertTuple` once there is room, at the slot `num_tuples`.
unfoldable pub place_tuple : (ℕ → ℕ) → ℕ → ℕ → List ℕ → (ℕ → ℕ)
unfolding set_num_tuples set_free_space_pointer set_offset_at set_length_at write_bytes
place_tuple d num_tuples new_fsp tuple_data =
    let moved = set_free_space_pointer d new_fsp in
    let copied = write_bytes moved new_fsp tuple_data in
    let located = set_offset_at copied (num_tuples % u16_mod) (new_fsp % u16_mod) in
    let measured = set_length_at located (num_tuples % u16_mod) (length tuple_data % u16_mod) in
    set_num_tuples measured ((num_tuples + 1) % u32_mod)

-- `InsertTuple`.
unfoldable pub insert_tuple : (ℕ → ℕ) → List ℕ → (ℕ → ℕ) × Option ℕ
unfolding get_free_space_remaining get_num_tuples get_free_space_pointer place_tuple
insert_tuple d tuple_data =
    let num_tuples = get_num_tuples d in
    let new_fsp = sub_u32 (get_free_space_pointer d) (length tuple_data) in
    if ltb (get_free_space_remaining d) (length tuple_data + 4)
    then (d, none)
    else (place_tuple d num_tuples new_fsp tuple_data, some (num_tuples % u16_mod))

-- `GetTuple`: the bytes copied to `dest`; `*out_size` is their number.
unfoldable pub get_tuple : (ℕ → ℕ) → ℕ → List ℕ
unfolding get_offset_at get_length_at run
get_tuple d slot_num = run (get_offset_at d slot_num) (get_length_at d slot_num) d

-- `DeleteTuple`.
unfoldable pub delete_tuple : (ℕ → ℕ) → ℕ → (ℕ → ℕ)
unfolding set_offset_at set_length_at
delete_tuple d slot_num = set_offset_at (set_length_at d slot_num 0) slot_num 0

-- `UpdateTuple`.
unfoldable pub update_tuple : (ℕ → ℕ) → ℕ → List ℕ → (ℕ → ℕ) × Bool
unfolding get_length_at get_free_space_remaining delete_tuple get_free_space_pointer
    set_free_space_pointer write_bytes set_offset_at set_length_at
update_tuple d slot_num new_data =
    let old_size = get_length_at d slot_num in
    let new_size = length new_data in
    let deleted = delete_tuple d slot_num in
    let new_fsp = sub_u32 (get_free_space_pointer deleted) new_size in
    let moved = set_free_space_pointer deleted new_fsp in
    let copied = write_bytes moved new_fsp new_data in
    let located = set_offset_at copied slot_num (new_fsp % u16_mod) in
    if ltb old_size new_size && ltb (get_free_space_remaining d) (new_size - old_size)
    then (d, false)
    else (set_length_at located slot_num (new_size % u16_mod), true)
