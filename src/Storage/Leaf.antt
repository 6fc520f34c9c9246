-- ===== src/Storage/Leaf.antt =====
-- `BPlusTreeLeafPage` (src/storage/page/b_plus_tree_leaf_page.cpp): the entries of a leaf of the
-- B+ tree, in the order of their keys. The template's key type, value type and comparator are
-- parameters. Sizes and indices are `int`s that are never negative here; a move out of an empty
-- page, which reads a slot that holds no entry, is `none`.
pub mod Search
pub mod Lookup
pub mod Insert
pub mod Remove
pub mod Moves
mod Examples
use one_base.Base.{
  ℕ, zero, suc, ◌+◌, ◌-◌, ◌/◌, Bool, true, false, not, ◌&&◌, ◌||◌, Option, none, some, ltb, leb,
  ◌==◌, if◌then◌else◌, update,
}
use one_base.Buffer.Pool.{invalid_page_id}
use one_base.Storage.Slots.{shift_up, shift_down, copy}

pub record Leaf (K V : Type 0) : Type 0 where
  pub size : ℕ
  pub max_size : ℕ
  pub parent_page_id : ℕ
  pub next_page_id : ℕ
  pub array : ℕ → K × V

module _ {K V : Type 0} where
  -- `Init`; the slots keep what the page's memory holds.
  unfoldable pub init : Leaf K V → ℕ → Leaf K V
  init p max_size = record p {
    size = 0;
    max_size = max_size;
    parent_page_id = invalid_page_id;
    next_page_id = invalid_page_id;
  }

  abbrev pub key_at : Leaf K V → ℕ → K
  key_at p index = (p.array index).0

  abbrev pub value_at : Leaf K V → ℕ → V
  value_at p index = (p.array index).1

  -- `GetMinSize` of a leaf.
  abbrev pub min_size : Leaf K V → ℕ
  min_size p = p.max_size / 2

  -- `MoveHalfTo`: the page and the recipient after it.
  unfoldable pub move_half_to : Leaf K V → Leaf K V → Leaf K V × Leaf K V
  unfolding copy
  move_half_to p recipient =
      let split = p.size / 2 in
      let moved = p.size - split in
      (
        record p { size = split },
        record recipient { size = moved; array = copy p.array split 0 moved recipient.array },
      )

  -- `MoveAllTo`.
  unfoldable pub move_all_to : Leaf K V → Leaf K V → Leaf K V × Leaf K V
  unfolding copy
  move_all_to p recipient = (
    record p { size = 0 },
    record recipient {
      size = recipient.size + p.size;
      array = copy p.array 0 recipient.size p.size recipient.array;
    },
  )

  -- `MoveFirstToEndOf`.
  unfoldable pub move_first_to_end_of : Leaf K V → Leaf K V → Option (Leaf K V × Leaf K V)
  unfolding shift_down
  move_first_to_end_of p recipient =
      if p.size == 0
      then none
      else some (
        record p { size = p.size - 1; array = shift_down 0 (p.size - 1) p.array },
        record recipient {
          size = recipient.size + 1;
          array = update recipient.array recipient.size (p.array 0);
        },
      )

  -- `MoveLastToFrontOf`.
  unfoldable pub move_last_to_front_of : Leaf K V → Leaf K V → Option (Leaf K V × Leaf K V)
  unfolding shift_up
  move_last_to_front_of p recipient =
      if p.size == 0
      then none
      else some (
        record p { size = p.size - 1 },
        record recipient {
          size = recipient.size + 1;
          array = update (shift_up 0 recipient.size recipient.array) 0 (p.array (p.size - 1));
        },
      )

module _ {K V : Type 0} (lt : K → K → Bool) where
  -- The loop of `KeyIndex`, on fuel: each turn at least halves the range from `low` to `high`.
  unfoldable pub search : ℕ → Leaf K V → K → ℕ → ℕ → ℕ
  search zero p key low high = low
  search (suc fuel) p key low high =
      let mid = low + (high - low) / 2 in
      elim (ltb low high) [
        | true ↦ elim (lt (key_at p mid) key) [
          | true ↦ search fuel p key (mid + 1) high
          | false ↦ search fuel p key low mid
        ]
        | false ↦ low
      ]

  -- `KeyIndex`.
  unfoldable pub key_index : Leaf K V → K → ℕ
  unfolding search
  key_index p key = search p.size p key 0 p.size

  -- The test that slot `idx` holds an entry with this key.
  unfoldable pub is_at : Leaf K V → K → ℕ → Bool
  is_at p key idx = ltb idx p.size && not (lt key (key_at p idx)) && not (lt (key_at p idx) key)

  -- `Lookup`.
  unfoldable pub find : Leaf K V → K → Option V
  unfolding key_index is_at
  find p key = let idx = key_index p key in if is_at p key idx then some (value_at p idx) else none

  -- `Insert`: the page and the size returned.
  unfoldable pub insert : Leaf K V → K → V → Leaf K V × ℕ
  unfolding key_index is_at shift_up
  insert p key value =
      let idx = key_index p key in
      if is_at p key idx then (p, p.size) else (
        record p {
          size = p.size + 1;
          array = update (shift_up idx (p.size - idx) p.array) idx (key, value);
        },
        p.size + 1,
      )

  -- `RemoveAndDeleteRecord`.
  unfoldable pub remove : Leaf K V → K → Leaf K V × ℕ
  unfolding key_index is_at shift_down
  remove p key =
      let idx = key_index p key in
      if leb p.size idx || lt key (key_at p idx) || lt (key_at p idx) key then (p, p.size) else (
        record p { size = p.size - 1; array = shift_down idx (p.size - 1 - idx) p.array },
        p.size - 1,
      )
