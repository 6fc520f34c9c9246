-- ===== src/Storage/Tree/Shrink.antt =====
-- `Remove` of a `BPlusTree`, with the moves and merges of pages that it causes.
use one_base.Base.{
  ℕ, zero, suc, ◌+◌, ◌-◌, Bool, true, false, not, Option, none, some, ltb, ◌==◌, ◌&&◌,
  if◌then◌else◌,
}
use one_base.Buffer.Pool.{invalid_page_id}
use one_base.Storage.Pages.{PagePool}
use one_base.Storage.Internal.{
  Internal, min_size as least_children, key_at as separator_at, value_at as child_at, value_index,
  next_slot, set_key_at, remove as remove_slot, remove_and_return_only_child,
  move_all_to as join_children, move_first_to_end_of as lend_first,
  move_last_to_front_of as lend_last,
}
use one_base.Storage.Tree.State.{
  TreePage, internal_page, Program, ◌>>=◌, ◌>>◌, give, fault, lift, set_root, fetch, unpin, discard,
  read_internal, write_page, set_parent,
}

-- The sibling chosen for a page at `index` of its parent (`none` for -1): its id, whether it is the
-- left one, and the slot of the key between the two pages.
pub record Sibling : Type 0 where
  pub sibling_id : ℕ
  pub is_left : Bool
  pub between : ℕ

unfoldable pub choose_sibling : {K : Type 0} → Internal K → Option ℕ → Sibling
choose_sibling parent (some (suc i)) = record {
  sibling_id = child_at parent i;
  is_left = true;
  between = suc i;
}
choose_sibling parent index =
    if ltb (next_slot index) parent.size
    then record {
      sibling_id = child_at parent (next_slot index);
      is_left = false;
      between = next_slot index;
    }
    else record { sibling_id = invalid_page_id; is_left = false; between = 0 }

module _ {S K V : Type 0} (ops : PagePool S (TreePage K V)) where
  -- The tail of both functions: the parent in `frame` lost a child, and is merged by `up`, replaced
  -- as the root by its only child, or left.
  unfoldable pub settle_parent : (ℕ → ℕ → Program S (Unit {0})) → ℕ → ℕ → Program S (Unit {0})
  unfolding fetch unpin discard read_internal write_page set_parent
  settle_parent up frame parent_id = do
    parent ← read_internal ops frame
    let is_root = parent.parent_page_id == invalid_page_id
    elim (ltb parent.size (least_children parent) && not is_root) [
      | true ↦ up frame parent_id
      | false ↦ elim (is_root && parent.size == 1) [
        | true ↦ do
          let (emptied, new_root_id) = remove_and_return_only_child parent
          write_page ops frame (internal_page emptied)
          set_root new_root_id
          got ← fetch ops new_root_id
          elim got [
            | none ↦ give tt
            | some root_frame ↦ do
              set_parent ops root_frame invalid_page_id
              unpin ops new_root_id true
          ]
          unpin ops parent_id true
          discard ops parent_id
        | false ↦ unpin ops parent_id true
      ]
    ]

  -- A child that moved to the page `page_id` gets it as its parent.
  unfoldable pub reparent : ℕ → ℕ → Program S (Unit {0})
  unfolding fetch unpin set_parent
  reparent child_id page_id = do
    got ← fetch ops child_id
    elim got [
      | none ↦ give tt
      | some frame ↦ do set_parent ops frame page_id; unpin ops child_id true
    ]

  -- The loops of the merges over the `n` children of the page in `frame` from the slot `i` on.
  unfoldable pub reparent_from : ℕ → ℕ → ℕ → ℕ → Program S (Unit {0})
  unfolding read_internal reparent
  reparent_from i zero frame page_id = give tt
  reparent_from i (suc n) frame page_id = do
    p ← read_internal ops frame
    reparent (child_at p i) page_id
    reparent_from (i + 1) n frame page_id

  -- The branch of `CoalesceOrRedistributeInternal` where the sibling lends a child.
  unfoldable pub lend_child : Sibling → ℕ → ℕ → ℕ → ℕ → ℕ → Program S (Unit {0})
  unfolding unpin read_internal write_page reparent
  lend_child s frame page_id sibling_frame parent_frame parent_id = do
    p ← read_internal ops frame
    sibling ← read_internal ops sibling_frame
    parent ← read_internal ops parent_frame
    let middle_key = separator_at parent s.between
    elim s.is_left [
      | true ↦ do
        (sibling_after, p_after) ← lift (lend_last sibling p middle_key)
        write_page ops sibling_frame (internal_page sibling_after)
        write_page ops frame (internal_page p_after)
        write_page ops parent_frame
            (internal_page (set_key_at parent s.between (separator_at p_after 0)))
        reparent (child_at p_after 0) page_id
      | false ↦ do
        (sibling_after, p_after) ← lift (lend_first sibling p middle_key)
        write_page ops sibling_frame (internal_page sibling_after)
        write_page ops frame (internal_page p_after)
        write_page ops parent_frame
            (internal_page (set_key_at parent s.between (separator_at sibling_after 0)))
        reparent (child_at p_after (p_after.size - 1)) page_id
    ]
    unpin ops page_id true
    unpin ops s.sibling_id true
    unpin ops parent_id true

  -- The branch where the page of `from_frame` is merged into the page of `into_frame`. The bound of
  -- the source's loop is the size of the first page, which `MoveAllTo` has set to 0.
  unfoldable pub merge_internal : ℕ → ℕ → ℕ → ℕ → ℕ → ℕ → Program S (Unit {0})
  unfolding unpin discard read_internal write_page reparent_from
  merge_internal between from_frame from_id into_frame into_id parent_frame = do
    from ← read_internal ops from_frame
    into ← read_internal ops into_frame
    parent ← read_internal ops parent_frame
    let joined = join_children from into (separator_at parent between)
    write_page ops from_frame (internal_page joined.0)
    write_page ops into_frame (internal_page joined.1)
    reparent_from (joined.1.size - joined.0.size) joined.0.size into_frame into_id
    parent_after ← lift (remove_slot parent between)
    write_page ops parent_frame (internal_page parent_after)

  -- `CoalesceOrRedistributeInternal`, on fuel: one unit for each level of the tree.
  unfoldable pub coalesce_internal : ℕ → ℕ → ℕ → Program S (Unit {0})
  unfolding fetch unpin discard read_internal lend_child merge_internal settle_parent
  coalesce_internal zero frame page_id = fault
  coalesce_internal (suc fuel) frame page_id = do
    p ← read_internal ops frame
    let parent_id = p.parent_page_id
    got ← fetch ops parent_id
    elim got [
      | none ↦ unpin ops page_id true
      | some parent_frame ↦ do
        parent ← read_internal ops parent_frame
        let s = choose_sibling parent (value_index parent page_id)
        elim (s.sibling_id == invalid_page_id) [
          | true ↦ do unpin ops page_id true; unpin ops parent_id false
          | false ↦ do
            got_sibling ← fetch ops s.sibling_id
            elim got_sibling [
              | none ↦ do unpin ops page_id true; unpin ops parent_id false
              | some sibling_frame ↦ do
                sibling ← read_internal ops sibling_frame
                elim (ltb (least_children sibling) sibling.size) [
                  | true ↦ lend_child s frame page_id sibling_frame parent_frame parent_id
                  | false ↦ do
                    elim s.is_left [
                      | true ↦ do
                        merge_internal s.between frame page_id sibling_frame s.sibling_id
                            parent_frame
                        unpin ops page_id true
                        unpin ops s.sibling_id true
                        discard ops page_id
                      | false ↦ do
                        merge_internal s.between sibling_frame s.sibling_id frame page_id
                            parent_frame
                        unpin ops page_id true
                        unpin ops s.sibling_id true
                        discard ops s.sibling_id
                    ]
                    settle_parent (coalesce_internal fuel) parent_frame parent_id
                ]
            ]
        ]
    ]
