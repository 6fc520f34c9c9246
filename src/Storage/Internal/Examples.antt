-- ===== src/Storage/Internal/Examples.antt =====
-- Runs of an internal page with numbers for keys, and its theorems at them.
use one_base.Base.{
  ℕ, ◌+◌, ◌-◌, ◌/◌, ◌≤◌, ◌<◌, ◌≡◌, ◌≢◌, refl, none, some, [], ◌∷◌, ◌++◌, arith, ltb,
  ltb-StrictOrder,
}
use one_base.Storage.Slots.{shift_up, shift_down, copy, run}
use one_base.Storage.Internal.{
  Internal, key_at, value_at, init, set_key_at, index_from, value_index, populate_new_root,
  insert_node_after, remove, move_all_to, move_half_to, move_first_to_end_of, move_last_to_front_of,
  descend, child_of,
}
use one_base.Storage.Internal.Child.{IsSorted, Separates, child_of-Separates, value_index-first}
use one_base.Storage.Internal.Children.{
  children, separators, Enters, insert_node_after-Enters, remove-Enters,
}
use one_base.Storage.Internal.Transfers.{
  move_half_to-children, move_all_to-children, move_first_to_end_of-children,
  move_last_to_front_of-children,
}

program : Unit {0}
unfolding shift_up shift_down copy run init set_key_at index_from value_index populate_new_root
    insert_node_after remove move_all_to move_half_to move_first_to_end_of move_last_to_front_of
    descend child_of children separators
program = tt

abbrev vacant : Internal ℕ
vacant = record { size = 0; max_size = 4; parent_page_id = 0; array = λ i. (0, 0) }

abbrev root : Internal ℕ
root = populate_new_root (init vacant 4) 11 50 12

-- Three children, 11 below 30, 13 from 30 on and 12 from 50 on.
abbrev three : Internal ℕ
three = (insert_node_after root 11 30 13).0

three-children : children three ≡ (11 ∷ 13 ∷ 12 ∷ [])
unfolding program
three-children = refl

three-separators : separators three ≡ (30 ∷ 50 ∷ [])
unfolding program
three-separators = refl

child_of_thirty : child_of ltb three 30 ≡ 13
unfolding program
child_of_thirty = refl

three-IsSorted : IsSorted ltb three
unfolding program
three-IsSorted i j g h k =
    let first : i ≡ 1 = omega (arith, g, h, k) in
    let second : j ≡ 2 = omega (arith, g, h, k) in rw (first, second) refl

three_size : three.size ≡ 3
unfolding program
three_size = refl

three_two : 2 ≤ three.size
three_two = omega (arith, three_size)

three_not_empty : three.size ≢ 0
three_not_empty h = omega (arith, h, three_size)

child_of-Separates_example :
    (at : ℕ) × Separates ltb three 40 at × (child_of ltb three 40 ≡ value_at three at)
child_of-Separates_example =
    child_of-Separates ltb ltb-StrictOrder three 40 three-IsSorted (omega (arith, three_size))

value_index-first_example :
    ((idx : ℕ)
      → value_index three 13 ≡ some idx
      → (idx < three.size)
        × (value_at three idx ≡ 13)
        × ((k : ℕ) → k < idx → value_at three k ≢ 13))
    × (value_index three 13 ≡ none → (k : ℕ) → k < three.size → value_at three k ≢ 13)
value_index-first_example = value_index-first three 13

thirteen : value_index three 13 ≡ some 1
unfolding program
thirteen = refl

insert_node_after-Enters_example :
    Enters three (insert_node_after three 13 40 14).0 2 40 14
    × ((insert_node_after three 13 40 14).1 ≡ three.size + 1)
insert_node_after-Enters_example = insert_node_after-Enters three 13 1 40 14 thirteen

remove-Enters_example :
    (q : Internal ℕ) × (remove three 1 ≡ some q)
    × Enters q three 1 (key_at three 1) (value_at three 1)
remove-Enters_example = remove-Enters three 1 (omega arith) (omega (arith, three_size))

move_half_to-children_example :
    (children three
      ≡ children (move_half_to three vacant 0).0 ++ children (move_half_to three vacant 0).1)
    × (separators three
        ≡ separators (move_half_to three vacant 0).0
          ++ (key_at three (three.size / 2) ∷ separators (move_half_to three vacant 0).1))
move_half_to-children_example = move_half_to-children three vacant 0 three_two

move_all_to-children_example :
    (children (move_all_to three three 60).1 ≡ children three ++ children three)
    × (separators (move_all_to three three 60).1 ≡ separators three ++ (60 ∷ separators three))
    × (children (move_all_to three three 60).0 ≡ [])
move_all_to-children_example = move_all_to-children three three 60 three_not_empty three_not_empty

move_first_to_end_of-children_example :
    (c : ℕ) × (p_after : Internal ℕ) × (recipient_after : Internal ℕ) × (move_first_to_end_of three
        three 60
      ≡ some (p_after, recipient_after))
    × (children three ≡ c ∷ children p_after)
    × (children recipient_after ≡ children three ++ (c ∷ []))
    × (separators three ≡ key_at p_after 0 ∷ separators p_after)
    × (separators recipient_after ≡ separators three ++ (60 ∷ []))
move_first_to_end_of-children_example =
    move_first_to_end_of-children three three 60 three_two three_not_empty

move_last_to_front_of-children_example :
    (c : ℕ) × (p_after : Internal ℕ) × (recipient_after : Internal ℕ) × (move_last_to_front_of three
        three 20
      ≡ some (p_after, recipient_after))
    × (children three ≡ children p_after ++ (c ∷ []))
    × (children recipient_after ≡ c ∷ children three)
    × (separators three ≡ separators p_after ++ (key_at three (three.size - 1) ∷ []))
    × (separators recipient_after ≡ 20 ∷ separators three)
    × (key_at recipient_after 0 ≡ key_at three 0)
move_last_to_front_of-children_example =
    move_last_to_front_of-children three three 20 three_two three_not_empty
