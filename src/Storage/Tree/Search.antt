-- ===== src/Storage/Tree/Search.antt =====
-- The lookups of a `BPlusTree`: the way down to a leaf, `GetValue`, `FindLeafPage`, `Begin`, and
-- the iterator.
use one_base.Base.{
  ℕ, zero, suc, ◌+◌, Bool, false, Option, none, some, leb, ◌==◌, ◌&&◌, if◌then◌else◌,
}
use one_base.Buffer.Pool.{invalid_page_id}
use one_base.Storage.Pages.{PagePool}
use one_base.Storage.Leaf.{key_at, value_at, key_index, find}
use one_base.Storage.Internal.{Internal, child_of, value_at as child_at}
use one_base.Storage.Tree.State.{
  TreePage, leaf_page, internal_page, Program, ◌>>=◌, ◌>>◌, give, fault, is_empty, get_tree, fetch,
  unpin, read_page, read_leaf,
}

-- `BPlusTreeIterator`; its pool is the tree's.
pub record Iterator : Type 0 where
  pub page_id : ℕ
  pub index : ℕ

-- `End`.
abbrev pub end_iterator : Iterator
end_iterator = record { page_id = invalid_page_id; index = 0 }

abbrev pub is_end : Iterator → Bool
is_end i = i.page_id == invalid_page_id

-- `operator==`.
abbrev pub same_place : Iterator → Iterator → Bool
same_place i j = i.page_id == j.page_id && i.index == j.index

module _ {S K V : Type 0} (ops : PagePool S (TreePage K V)) where
  -- The loop from a fetched page down to a leaf by the children that `choose` names, on fuel. The
  -- result is the leaf's id and frame, still pinned, or `none` where a fetch gives a null pointer.
  unfoldable pub walk : ℕ → (Internal K → ℕ) → ℕ → ℕ → Program S (Option (ℕ × ℕ))
  unfolding fetch unpin read_page
  walk zero choose page_id frame = fault
  walk (suc fuel) choose page_id frame = do
    page ← read_page ops frame
    elim page [
      | leaf_page l ↦ give (some (page_id, frame))
      | internal_page p ↦ do
        unpin ops page_id false
        got ← fetch ops (choose p)
        elim got [ none ↦ give none | some child ↦ walk fuel choose (choose p) child ]
    ]

  -- The fetch of the root and the loop behind it.
  unfoldable pub descend_by : ℕ → (Internal K → ℕ) → Program S (Option (ℕ × ℕ))
  unfolding fetch walk
  descend_by fuel choose = do
    t ← get_tree
    got ← fetch ops t.root_page_id
    elim got [ none ↦ give none | some frame ↦ walk fuel choose t.root_page_id frame ]

  -- `Begin()`.
  unfoldable pub begin : ℕ → Program S Iterator
  unfolding descend_by unpin
  begin fuel = do
    t ← get_tree
    if is_empty t then give end_iterator else do
      got ← descend_by fuel (λ p. child_at p 0)
      elim got [
        | none ↦ give end_iterator
        | some (page_id, frame) ↦ do
          unpin ops page_id false
          give (record { page_id = page_id; index = 0 })
      ]

  -- `operator*`; the exceptions are faults.
  unfoldable pub deref : Iterator → Program S (K × V)
  unfolding fetch unpin read_leaf
  deref i = if is_end i then fault else do
    got ← fetch ops i.page_id
    elim got [
      | none ↦ fault
      | some frame ↦ do
        l ← read_leaf ops frame
        unpin ops i.page_id false
        give (key_at l i.index, value_at l i.index)
    ]

  -- `operator++`. At the end of a leaf the next page's id is in place before the call of
  -- `UnpinPage`, which therefore names the next page.
  unfoldable pub advance : Iterator → Program S Iterator
  unfolding fetch unpin read_leaf
  advance i = if is_end i then give i else do
    got ← fetch ops i.page_id
    elim got [
      | none ↦ give (record i { page_id = invalid_page_id })
      | some frame ↦ do
        l ← read_leaf ops frame
        let j : Iterator =
            if leb l.size (i.index + 1)
            then record { page_id = l.next_page_id; index = 0 }
            else record i { index = i.index + 1 }
        unpin ops j.page_id false
        give j
    ]

module _ {S K V : Type 0} (lt : K → K → Bool) (ops : PagePool S (TreePage K V)) where
  -- `GetValue`: the value pushed to the result, or `none` for `false`.
  unfoldable pub get_value : ℕ → K → Program S (Option V)
  unfolding descend_by unpin read_leaf
  get_value fuel key = do
    t ← get_tree
    if is_empty t then give none else do
      got ← descend_by ops fuel (λ p. child_of lt p key)
      elim got [
        | none ↦ give none
        | some (page_id, frame) ↦ do
          l ← read_leaf ops frame
          unpin ops page_id false
          give (find lt l key)
      ]

  -- `FindLeafPage`.
  unfoldable pub find_leaf_page : ℕ → K → Program S ℕ
  unfolding descend_by unpin
  find_leaf_page fuel key = do
    t ← get_tree
    if is_empty t then give invalid_page_id else do
      got ← descend_by ops fuel (λ p. child_of lt p key)
      elim got [
        | none ↦ give invalid_page_id
        | some (page_id, frame) ↦ do unpin ops page_id false; give page_id
      ]

  -- `Begin(key)`, which reads the leaf through its frame after the page is unpinned.
  unfoldable pub begin_at : ℕ → K → Program S Iterator
  unfolding descend_by unpin read_leaf
  begin_at fuel key = do
    t ← get_tree
    if is_empty t then give end_iterator else do
      got ← descend_by ops fuel (λ p. child_of lt p key)
      elim got [
        | none ↦ give end_iterator
        | some (page_id, frame) ↦ do
          l ← read_leaf ops frame
          let index : ℕ = key_index lt l key
          unpin ops page_id false
          after ← read_leaf ops frame
          give (
              if leb after.size index
              then record { page_id = after.next_page_id; index = 0 }
              else record { page_id = page_id; index = index })
      ]
