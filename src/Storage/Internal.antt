-- ===== src/Storage/Internal.antt =====
-- `BPlusTreeInternalPage` (src/storage/page/b_plus_tree_internal_page.cpp): the children of an
-- inner node of the B+ tree, page ids, with the keys that separate them. Slot 0 has a child and no
-- key of its own. Sizes and indices are `int`s that are never negative here; a removal from an
-- empty page, after which the size is negative, is `none`.
pub mod Child
pub mod Children
pub mod Transfers
mod Examples
use one_base.Base.{
  ℕ, zero, suc, ◌+◌, ◌-◌, ◌/◌, Bool, true, false, Option, none, some, ◌==◌, if◌then◌else◌, update,
}
use one_base.Buffer.Pool.{invalid_page_id}
use one_base.Storage.Slots.{shift_up, shift_down, copy}

pub record Internal (K : Type 0) : Type 0 where
  pub size : ℕ
  pub max_size : ℕ
  pub parent_page_id : ℕ
  pub array : ℕ → K × ℕ

-- The slot behind the one that is found; -1 + 1 when none is.
abbrev pub next_slot : Option ℕ → ℕ
next_slot none = 0
next_slot (some idx) = idx + 1

module _ {K : Type 0} where
  -- `Init`; the slots keep what the page's memory holds.
  unfoldable pub init : Internal K → ℕ → Internal K
  init p max_size = record p { size = 0; max_size = max_size; parent_page_id = invalid_page_id }

  -- `GetMinSize` of an internal page.
  abbrev pub min_size : Internal K → ℕ
  min_size p = (p.max_size + 1) / 2

  abbrev pub key_at : Internal K → ℕ → K
  key_at p index = (p.array index).0

  abbrev pub value_at : Internal K → ℕ → ℕ
  value_at p index = (p.array index).1

  -- `array_[index].first = key;` and `array_[index].second = value;`
  abbrev pub with_key : (ℕ → K × ℕ) → ℕ → K → (ℕ → K × ℕ)
  with_key a index key = update a index (key, (a index).1)

  abbrev pub with_value : (ℕ → K × ℕ) → ℕ → ℕ → (ℕ → K × ℕ)
  with_value a index value = update a index ((a index).0, value)

  unfoldable pub set_key_at : Internal K → ℕ → K → Internal K
  set_key_at p index key = record p { array = with_key p.array index key }

  unfoldable pub set_value_at : Internal K → ℕ → ℕ → Internal K
  set_value_at p index value = record p { array = with_value p.array index value }

  -- The loop of `ValueIndex` over the `n` slots from `i` on.
  unfoldable pub index_from : ℕ → ℕ → (ℕ → K × ℕ) → ℕ → Option ℕ
  index_from i zero a value = none
  index_from i (suc n) a value =
      let rest = index_from (i + 1) n a value in if (a i).1 == value then some i else rest

  -- `ValueIndex`, with `none` for -1.
  unfoldable pub value_index : Internal K → ℕ → Option ℕ
  unfolding index_from
  value_index p value = index_from 0 p.size p.array value

  -- `PopulateNewRoot`.
  unfoldable pub populate_new_root : Internal K → ℕ → K → ℕ → Internal K
  populate_new_root p old_value key new_value = record p {
    size = 2;
    array = update (with_value p.array 0 old_value) 1 (key, new_value);
  }

  -- `InsertNodeAfter`: the page and the size returned.
  unfoldable pub insert_node_after : Internal K → ℕ → K → ℕ → Internal K × ℕ
  unfolding value_index shift_up
  insert_node_after p old_value key new_value =
      let slot = next_slot (value_index p old_value) in
      (
        record p {
          size = p.size + 1;
          array = update (shift_up slot (p.size - slot) p.array) slot (key, new_value);
        },
        p.size + 1,
      )

  -- `Remove`.
  unfoldable pub remove : Internal K → ℕ → Option (Internal K)
  unfolding shift_down
  remove p index =
      if p.size == 0
      then none
      else some
          (record p { size = p.size - 1; array = shift_down index (p.size - 1 - index) p.array })

  -- `RemoveAndReturnOnlyChild`.
  unfoldable pub remove_and_return_only_child : Internal K → Internal K × ℕ
  remove_and_return_only_child p = (record p { size = 0 }, value_at p 0)

  -- `MoveAllTo`: the page and the recipient after it.
  unfoldable pub move_all_to : Internal K → Internal K → K → Internal K × Internal K
  unfolding set_key_at copy
  move_all_to p recipient middle_key =
      let keyed = set_key_at p 0 middle_key in
      (
        record keyed { size = 0 },
        record recipient {
          size = recipient.size + p.size;
          array = copy keyed.array 0 recipient.size p.size recipient.array;
        },
      )

  -- `MoveHalfTo`; the source does not use its argument `middle_key`.
  unfoldable pub move_half_to : Internal K → Internal K → K → Internal K × Internal K
  unfolding copy
  move_half_to p recipient middle_key =
      let split = p.size / 2 in
      (
        record p { size = split },
        record recipient {
          size = p.size - split;
          array =
              copy p.array (split + 1) 1 (p.size - split - 1)
                (with_value recipient.array 0 (value_at p split));
        },
      )

  -- `MoveFirstToEndOf`.
  unfoldable pub move_first_to_end_of :
      Internal K → Internal K → K → Option (Internal K × Internal K)
  unfolding shift_down
  move_first_to_end_of p recipient middle_key =
      if p.size == 0
      then none
      else some (
        record p { size = p.size - 1; array = shift_down 0 (p.size - 1) p.array },
        record recipient {
          size = recipient.size + 1;
          array = update recipient.array recipient.size (middle_key, value_at p 0);
        },
      )

  -- `MoveLastToFrontOf`.
  unfoldable pub move_last_to_front_of :
      Internal K → Internal K → K → Option (Internal K × Internal K)
  unfolding shift_up
  move_last_to_front_of p recipient middle_key =
      let shifted = shift_up 0 recipient.size recipient.array in
      if p.size == 0
      then none
      else some (
        record p { size = p.size - 1 },
        record recipient {
          size = recipient.size + 1;
          array = with_key (with_value shifted 0 (value_at p (p.size - 1))) 1 middle_key;
        },
      )

module _ {K : Type 0} (lt : K → K → Bool) where
  -- The loop of `Lookup` over the `n` slots from `i` on; `result` is the child found so far.
  unfoldable pub descend : ℕ → ℕ → (ℕ → K × ℕ) → K → ℕ → ℕ
  descend i zero a key result = result
  descend i (suc n) a key result =
      let rest = descend (i + 1) n a key (a i).1 in if lt key (a i).0 then result else rest

  -- `Lookup`.
  unfoldable pub child_of : Internal K → K → ℕ
  unfolding descend
  child_of p key = descend 1 (p.size - 1) p.array key (value_at p 0)
