-- ===== src/Storage/Tree/Growth.antt =====
-- `Insert` of a `BPlusTree`, with the splits that it causes.
use one_base.Base.{ℕ, zero, suc, ◌+◌, ◌/◌, Bool, true, false, none, some, ltb, ◌==◌, if◌then◌else◌}
use one_base.Buffer.Pool.{invalid_page_id}
use one_base.Storage.Pages.{PagePool}
use one_base.Storage.Leaf.{Leaf, init as init_leaf, key_at, insert, move_half_to}
use one_base.Storage.Internal.{
  Internal, init as init_internal, key_at as separator_at, value_at as child_at, populate_new_root,
  insert_node_after, move_half_to as move_children, child_of,
}
use one_base.Storage.Tree.State.{
  TreePage, leaf_page, internal_page, Program, ◌>>=◌, ◌>>◌, give, fault, is_empty, get_tree,
  set_root, fetch, allocate, unpin, read_leaf, read_internal, write_page, set_parent,
}
use one_base.Storage.Tree.Search.{descend_by}

-- `blank_leaf` and `blank_internal` are what the zeros of a new page read as.
module _ {S K V : Type 0} (ops : PagePool S (TreePage K V)) (blank_internal : Internal K) where
  -- A new root above two pages that are pinned in `frame` and `new_frame`, the end of both splits.
  unfoldable pub grow_root : ℕ → ℕ → K → ℕ → ℕ → Program S (Unit {0})
  unfolding allocate unpin write_page set_parent
  grow_root frame page_id middle_key new_frame new_page_id = do
    t ← get_tree
    got ← allocate ops
    elim got [
      | none ↦ do unpin ops page_id true; unpin ops new_page_id true
      | some (new_root_id, root_frame) ↦ do
        let root = init_internal blank_internal t.internal_max_size
        write_page ops root_frame
            (internal_page (populate_new_root root page_id middle_key new_page_id))
        set_parent ops frame new_root_id
        set_parent ops new_frame new_root_id
        set_root new_root_id
        unpin ops page_id true
        unpin ops new_page_id true
        unpin ops new_root_id true
    ]

  -- The loop of `SplitInternal` over the `n` slots from `i` on of the new page: its children get it
  -- as their parent.
  unfoldable pub adopt : ℕ → ℕ → ℕ → ℕ → Program S (Unit {0})
  unfolding fetch unpin read_internal set_parent
  adopt i zero new_frame new_page_id = give tt
  adopt i (suc n) new_frame new_page_id = do
    p ← read_internal ops new_frame
    got ← fetch ops (child_at p i)
    elim got [
      | none ↦ give tt
      | some child_frame ↦ do set_parent ops child_frame new_page_id; unpin ops (child_at p i) true
    ]
    adopt (i + 1) n new_frame new_page_id

  -- `SplitInternal`, where `up` is `InsertIntoParent`.
  unfoldable pub split_internal :
      (ℕ → ℕ → K → ℕ → Program S (Unit {0})) → ℕ → ℕ → Program S (Unit {0})
  unfolding allocate unpin read_internal write_page set_parent adopt grow_root
  split_internal up frame page_id = do
    t ← get_tree
    got ← allocate ops
    elim got [
      | none ↦ unpin ops page_id true
      | some (new_page_id, new_frame) ↦ do
        p ← read_internal ops frame
        let middle_key = separator_at p (p.size / 2)
        let halves = move_children p (init_internal blank_internal t.internal_max_size) middle_key
        write_page ops frame (internal_page halves.0)
        write_page ops new_frame (internal_page halves.1)
        adopt 0 halves.1.size new_frame new_page_id
        left ← read_internal ops frame
        elim (left.parent_page_id == invalid_page_id) [
          | true ↦ grow_root frame page_id middle_key new_frame new_page_id
          | false ↦ do
            set_parent ops new_frame left.parent_page_id
            unpin ops page_id true
            unpin ops new_page_id true
            up left.parent_page_id page_id middle_key new_page_id
        ]
    ]

  -- `InsertIntoParent`, on fuel: one unit for each level of the tree.
  unfoldable pub insert_into_parent : ℕ → ℕ → ℕ → K → ℕ → Program S (Unit {0})
  unfolding fetch unpin read_internal write_page split_internal
  insert_into_parent zero parent_id old_child_id key new_child_id = fault
  insert_into_parent (suc fuel) parent_id old_child_id key new_child_id = do
    got ← fetch ops parent_id
    elim got [
      | none ↦ give tt
      | some frame ↦ do
        p ← read_internal ops frame
        let parent = (insert_node_after p old_child_id key new_child_id).0
        write_page ops frame (internal_page parent)
        elim (ltb parent.max_size parent.size) [
          | true ↦ split_internal (insert_into_parent fuel) frame parent_id
          | false ↦ unpin ops parent_id true
        ]
    ]

  -- `Split` of the leaf `leaf_page_id` in `frame`.
  unfoldable pub split : ℕ → Leaf K V → ℕ → ℕ → Program S (Unit {0})
  unfolding allocate unpin read_leaf write_page set_parent grow_root insert_into_parent
  split fuel blank_leaf frame leaf_page_id = do
    t ← get_tree
    got ← allocate ops
    elim got [
      | none ↦ unpin ops leaf_page_id true
      | some (new_page_id, new_frame) ↦ do
        l ← read_leaf ops frame
        let halves = move_half_to l (init_leaf blank_leaf t.leaf_max_size)
        let right = record (halves.1) { next_page_id = l.next_page_id }
        write_page ops frame (leaf_page (record (halves.0) { next_page_id = new_page_id }))
        write_page ops new_frame (leaf_page right)
        let middle_key = key_at right 0
        elim (l.parent_page_id == invalid_page_id) [
          | true ↦ grow_root frame leaf_page_id middle_key new_frame new_page_id
          | false ↦ do
            set_parent ops new_frame l.parent_page_id
            unpin ops leaf_page_id true
            unpin ops new_page_id true
            insert_into_parent fuel l.parent_page_id leaf_page_id middle_key new_page_id
        ]
    ]

module _ {S K V : Type 0} (lt : K → K → Bool) (ops : PagePool S (TreePage K V))
    (blank_leaf : Leaf K V) (blank_internal : Internal K) where
  -- The branch of `Insert` on an empty tree.
  unfoldable pub plant : K → V → Program S Bool
  unfolding allocate unpin write_page
  plant key value = do
    t ← get_tree
    got ← allocate ops
    elim got [
      | none ↦ give false
      | some (new_page_id, frame) ↦ do
        let l = init_leaf blank_leaf t.leaf_max_size
        write_page ops frame (leaf_page (insert lt l key value).0)
        set_root new_page_id
        unpin ops new_page_id true
        give true
    ]

  -- `Insert`.
  unfoldable pub insert_entry : ℕ → K → V → Program S Bool
  unfolding plant descend_by unpin read_leaf write_page split
  insert_entry fuel key value = do
    t ← get_tree
    if is_empty t then plant key value else do
      got ← descend_by ops fuel (λ p. child_of lt p key)
      elim got [
        | none ↦ give false
        | some (page_id, frame) ↦ do
          l ← read_leaf ops frame
          let (grown, new_size) = insert lt l key value
          write_page ops frame (leaf_page grown)
          elim (new_size == l.size) [
            | true ↦ do unpin ops page_id false; give false
            | false ↦ elim (ltb grown.max_size grown.size) [
              | true ↦ do split ops blank_internal fuel blank_leaf frame page_id; give true
              | false ↦ do unpin ops page_id true; give true
            ]
          ]
      ]
