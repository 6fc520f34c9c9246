-- ===== src/Storage/Tree/Removal.antt =====
-- `CoalesceOrRedistribute` on leaves, and `Remove` of a `BPlusTree`.
use one_base.Base.{ℕ, Bool, true, false, not, none, some, ltb, ◌==◌, ◌&&◌, if◌then◌else◌}
use one_base.Buffer.Pool.{invalid_page_id}
use one_base.Storage.Pages.{PagePool}
use one_base.Storage.Leaf.{
  min_size, key_at, remove, move_all_to, move_first_to_end_of, move_last_to_front_of,
}
use one_base.Storage.Internal.{value_index, set_key_at, remove as remove_slot}
use one_base.Storage.Tree.State.{
  TreePage, leaf_page, internal_page, Program, ◌>>=◌, ◌>>◌, give, lift, is_empty, get_tree,
  set_root, fetch, unpin, discard, read_leaf, read_internal, write_page, set_parent,
}
use one_base.Storage.Tree.Search.{find_leaf_page}
use one_base.Storage.Tree.Shrink.{Sibling, choose_sibling, settle_parent, coalesce_internal}

module _ {S K V : Type 0} (ops : PagePool S (TreePage K V)) where
  -- The branch of `CoalesceOrRedistribute` without a sibling: the leaf becomes the root when it is
  -- the only child of the root.
  unfoldable pub without_sibling : ℕ → ℕ → ℕ → ℕ → Program S (Unit {0})
  unfolding unpin discard read_internal set_parent
  without_sibling frame leaf_page_id parent_frame parent_id = do
    parent ← read_internal ops parent_frame
    elim (parent.parent_page_id == invalid_page_id && parent.size == 1) [
      | true ↦ do
        set_root leaf_page_id
        set_parent ops frame invalid_page_id
        unpin ops leaf_page_id true
        unpin ops parent_id true
        discard ops parent_id
      | false ↦ do unpin ops leaf_page_id true; unpin ops parent_id false
    ]

  -- The branch where the sibling lends an entry.
  unfoldable pub lend_entry : Sibling → ℕ → ℕ → ℕ → ℕ → ℕ → Program S (Unit {0})
  unfolding unpin read_leaf read_internal write_page
  lend_entry s frame leaf_page_id sibling_frame parent_frame parent_id = do
    l ← read_leaf ops frame
    sibling ← read_leaf ops sibling_frame
    parent ← read_internal ops parent_frame
    elim s.is_left [
      | true ↦ do
        (sibling_after, l_after) ← lift (move_last_to_front_of sibling l)
        write_page ops sibling_frame (leaf_page sibling_after)
        write_page ops frame (leaf_page l_after)
        write_page ops parent_frame (internal_page (set_key_at parent s.between (key_at l_after 0)))
      | false ↦ do
        (sibling_after, l_after) ← lift (move_first_to_end_of sibling l)
        write_page ops sibling_frame (leaf_page sibling_after)
        write_page ops frame (leaf_page l_after)
        write_page ops parent_frame
            (internal_page (set_key_at parent s.between (key_at sibling_after 0)))
    ]
    unpin ops leaf_page_id true
    unpin ops s.sibling_id true
    unpin ops parent_id true

  -- The leaf of `from_frame` is merged into the one of `into_frame`, which stands before it.
  unfoldable pub merge_leaf : ℕ → ℕ → ℕ → ℕ → Program S (Unit {0})
  unfolding read_leaf read_internal write_page
  merge_leaf between from_frame into_frame parent_frame = do
    from ← read_leaf ops from_frame
    into ← read_leaf ops into_frame
    parent ← read_internal ops parent_frame
    let joined = move_all_to from into
    write_page ops from_frame (leaf_page joined.0)
    write_page ops into_frame (leaf_page (record (joined.1) { next_page_id = from.next_page_id }))
    parent_after ← lift (remove_slot parent between)
    write_page ops parent_frame (internal_page parent_after)

  -- `CoalesceOrRedistribute` on the leaf `leaf_page_id` in `frame`.
  unfoldable pub coalesce_leaf : ℕ → ℕ → ℕ → Program S (Unit {0})
  unfolding fetch unpin discard read_leaf read_internal without_sibling lend_entry merge_leaf
      settle_parent coalesce_internal choose_sibling
  coalesce_leaf fuel frame leaf_page_id = do
    l ← read_leaf ops frame
    let parent_id = l.parent_page_id
    got ← fetch ops parent_id
    elim got [
      | none ↦ unpin ops leaf_page_id true
      | some parent_frame ↦ do
        parent ← read_internal ops parent_frame
        let s = choose_sibling parent (value_index parent leaf_page_id)
        elim (s.sibling_id == invalid_page_id) [
          | true ↦ without_sibling frame leaf_page_id parent_frame parent_id
          | false ↦ do
            got_sibling ← fetch ops s.sibling_id
            elim got_sibling [
              | none ↦ do unpin ops leaf_page_id true; unpin ops parent_id false
              | some sibling_frame ↦ do
                sibling ← read_leaf ops sibling_frame
                elim (ltb (min_size sibling) sibling.size) [
                  | true ↦ lend_entry s frame leaf_page_id sibling_frame parent_frame parent_id
                  | false ↦ do
                    elim s.is_left [
                      | true ↦ do
                        merge_leaf s.between frame sibling_frame parent_frame
                        unpin ops leaf_page_id true
                        unpin ops s.sibling_id true
                        discard ops leaf_page_id
                      | false ↦ do
                        merge_leaf s.between sibling_frame frame parent_frame
                        unpin ops leaf_page_id true
                        unpin ops s.sibling_id true
                        discard ops s.sibling_id
                    ]
                    settle_parent ops (coalesce_internal ops fuel) parent_frame parent_id
                ]
            ]
        ]
    ]

module _ {S K V : Type 0} (lt : K → K → Bool) (ops : PagePool S (TreePage K V)) where
  -- `Remove`.
  unfoldable pub remove_entry : ℕ → K → Program S (Unit {0})
  unfolding find_leaf_page fetch unpin discard read_leaf write_page coalesce_leaf
  remove_entry fuel key = do
    t ← get_tree
    if is_empty t then give tt else do
      leaf_page_id ← find_leaf_page lt ops fuel key
      elim (leaf_page_id == invalid_page_id) [
        | true ↦ give tt
        | false ↦ do
          got ← fetch ops leaf_page_id
          elim got [
            | none ↦ give tt
            | some frame ↦ do
              l ← read_leaf ops frame
              let less = (remove lt l key).0
              write_page ops frame (leaf_page less)
              let is_root = less.parent_page_id == invalid_page_id
              elim (ltb less.size (min_size less) && not is_root) [
                | true ↦ coalesce_leaf ops fuel frame leaf_page_id
                | false ↦ elim (less.size == 0 && is_root) [
                  | true ↦ do
                    set_root invalid_page_id
                    unpin ops leaf_page_id true
                    discard ops leaf_page_id
                  | false ↦ unpin ops leaf_page_id true
                ]
              ]
          ]
      ]
