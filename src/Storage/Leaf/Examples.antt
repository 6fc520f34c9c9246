-- ===== src/Storage/Leaf/Examples.antt =====
-- Runs of a leaf page with numbers for keys and values, and its theorems at them.
use one_base.Base.{
  ℕ, ◌+◌, ◌≤◌, ◌≡◌, ◌≢◌, ◌↔◌, refl, some, [], ◌∷◌, ◌++◌, arith, ltb, ltb-StrictOrder,
}
use one_base.Storage.Slots.{shift_up, shift_down, copy, run}
use one_base.Storage.Leaf.{
  Leaf, init, search, key_index, is_at, find, insert, remove, move_half_to, move_all_to,
  move_first_to_end_of, move_last_to_front_of,
}
use one_base.Storage.Leaf.Search.{IsSorted}
use one_base.Storage.Leaf.Lookup.{Holds, find-Holds}
use one_base.Storage.Leaf.Insert.{Inserts, insert-Inserts}
use one_base.Storage.Leaf.Remove.{Removes, remove-Removes}
use one_base.Storage.Leaf.Moves.{
  entries, move_half_to-entries, move_all_to-entries, move_first_to_end_of-entries,
  move_last_to_front_of-entries,
}

program : Unit {0}
unfolding shift_up shift_down copy run init search key_index is_at find insert remove move_half_to
    move_all_to move_first_to_end_of move_last_to_front_of entries
program = tt

abbrev vacant : Leaf ℕ ℕ
vacant = record {
  size = 0;
  max_size = 4;
  parent_page_id = 0;
  next_page_id = 0;
  array = λ i. (0, 0);
}

abbrev start : Leaf ℕ ℕ
start = init vacant 4

-- The keys 2, 5 and 9, put in out of order.
abbrev three : Leaf ℕ ℕ
three = (insert ltb (insert ltb (insert ltb start 5 50).0 9 90).0 2 20).0

start-IsSorted : IsSorted ltb start
unfolding program
start-IsSorted i j h k = absurd (omega (arith, k))

one-IsSorted : IsSorted ltb (insert ltb start 5 50).0
one-IsSorted = (insert-Inserts ltb ltb-StrictOrder start start-IsSorted 5 50).sorted

two-IsSorted : IsSorted ltb (insert ltb (insert ltb start 5 50).0 9 90).0
two-IsSorted =
    (insert-Inserts ltb ltb-StrictOrder (insert ltb start 5 50).0 one-IsSorted 9 90).sorted

three-IsSorted : IsSorted ltb three
three-IsSorted =
    (insert-Inserts ltb ltb-StrictOrder (insert ltb (insert ltb start 5 50).0 9 90).0 two-IsSorted 2
      20).sorted

three_entries : entries three ≡ ((2, 20) ∷ (5, 50) ∷ (9, 90) ∷ [])
unfolding program
three_entries = refl

find_present : find ltb three 5 ≡ some 50
unfolding program
find_present = refl

insert_again : (insert ltb three 5 51).1 ≡ 3
unfolding program
insert_again = refl

remove_first : entries (remove ltb three 2).0 ≡ ((5, 50) ∷ (9, 90) ∷ [])
unfolding program
remove_first = refl

find-Holds_example : (find ltb three 5 ≡ some 50) ↔ Holds three 5 50
find-Holds_example = find-Holds ltb ltb-StrictOrder three three-IsSorted 5 50

insert-Inserts_example : Inserts ltb three 7 70 (insert ltb three 7 70).0 (insert ltb three 7 70).1
insert-Inserts_example = insert-Inserts ltb ltb-StrictOrder three three-IsSorted 7 70

remove-Removes_example : Removes ltb three 5 (remove ltb three 5).0 (remove ltb three 5).1
remove-Removes_example = remove-Removes ltb ltb-StrictOrder three three-IsSorted 5

move_half_to-entries_example :
    (entries three ≡ entries (move_half_to three start).0 ++ entries (move_half_to three start).1)
    × ((move_half_to three start).0.size ≤ (move_half_to three start).1.size)
    × ((move_half_to three start).1.size ≤ (move_half_to three start).0.size + 1)
move_half_to-entries_example = move_half_to-entries three start

move_all_to-entries_example :
    (entries (move_all_to three three).1 ≡ entries three ++ entries three)
    × (entries (move_all_to three three).0 ≡ [])
move_all_to-entries_example = move_all_to-entries three three

three_not_empty : three.size ≢ 0
unfolding program
three_not_empty h = omega (arith, h)

move_first_to_end_of-entries_example :
    (e : ℕ × ℕ) × (p_after : Leaf ℕ ℕ) × (recipient_after : Leaf ℕ ℕ) × (move_first_to_end_of three
        start
      ≡ some (p_after, recipient_after))
    × (entries three ≡ e ∷ entries p_after)
    × (entries recipient_after ≡ entries start ++ (e ∷ []))
move_first_to_end_of-entries_example = move_first_to_end_of-entries three start three_not_empty

move_last_to_front_of-entries_example :
    (e : ℕ × ℕ) × (p_after : Leaf ℕ ℕ) × (recipient_after : Leaf ℕ ℕ) × (move_last_to_front_of three
        start
      ≡ some (p_after, recipient_after))
    × (entries three ≡ entries p_after ++ (e ∷ []))
    × (entries recipient_after ≡ e ∷ entries start)
move_last_to_front_of-entries_example = move_last_to_front_of-entries three start three_not_empty
