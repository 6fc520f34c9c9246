-- ===== src/Storage/Tree/State.antt =====
-- The state of a `BPlusTree`, and programs on it. A program gives its result and the new state;
-- `none` is a fault: a page cast to the kind it is not, a slot that holds no entry, or a loop that
-- ran out of fuel.
use one_base.Base.{ℕ, ◌+◌, ◌-◌, ◌/◌, if◌then◌else◌, Bool, Option, none, some, ◌==◌}
use one_base.Buffer.Pool.{invalid_page_id}
use one_base.Storage.Pages.{PagePool}
use one_base.Storage.Leaf.{Leaf}
use one_base.Storage.Internal.{Internal}

-- The bytes of a page, by the tag in its header.
pub data TreePage (K V : Type 0) : Type 0 where
  leaf_page : Leaf K V → TreePage K V
  internal_page : Internal K → TreePage K V

pub record Tree (S : Type 0) : Type 0 where
  pub pool : S
  pub root_page_id : ℕ
  pub leaf_max_size : ℕ
  pub internal_max_size : ℕ

-- The constructor. A maximum of 0 stands for as many entries as fit in a page of 4096 bytes, behind
-- a header of 16 bytes and, in a leaf, the id of the next page; the sizes of keys and values are
-- those of the template's types.
unfoldable pub new : {S : Type 0} → S → ℕ → ℕ → ℕ → ℕ → Tree S
new pool leaf_max_size internal_max_size key_size value_size = record {
  pool = pool;
  root_page_id = invalid_page_id;
  leaf_max_size =
      if leaf_max_size == 0 then (4096 - 16 - 4) / (key_size + value_size) else leaf_max_size;
  internal_max_size =
      if internal_max_size == 0 then (4096 - 16) / (key_size + 4) else internal_max_size;
}

abbrev pub Program : Type 0 → Type 0 → Type 0
Program S A = Tree S → Option (A × Tree S)

infixl 5 ◌>>=◌ ◌>>◌
abbrev pub ◌>>=◌ : {S A B : Type 0} → Program S A → (A → Program S B) → Program S B
◌>>=◌ m f t = elim (m t) [ none ↦ none | some (a, u) ↦ f a u ]

abbrev pub ◌>>◌ : {S B : Type 0} → Program S (Unit {0}) → Program S B → Program S B
m >> k = m >>= λ _. k

abbrev pub give : {S A : Type 0} → A → Program S A
give a t = some (a, t)

abbrev pub fault : {S A : Type 0} → Program S A
fault t = none

-- A move between pages that reads a slot with no entry is a fault.
abbrev pub lift : {S A : Type 0} → Option A → Program S A
lift none t = none
lift (some a) t = some (a, t)

abbrev pub is_empty : {S : Type 0} → Tree S → Bool
is_empty t = t.root_page_id == invalid_page_id

abbrev pub get_tree : {S : Type 0} → Program S (Tree S)
get_tree t = some (t, t)

abbrev pub set_root : {S : Type 0} → ℕ → Program S (Unit {0})
set_root page_id t = some (tt, record t { root_page_id = page_id })

-- `IsRootPage` and `SetParentPageId`, which the two kinds of page share.
abbrev pub parent_of : {K V : Type 0} → TreePage K V → ℕ
parent_of (leaf_page l) = l.parent_page_id
parent_of (internal_page p) = p.parent_page_id

abbrev pub with_parent : {K V : Type 0} → TreePage K V → ℕ → TreePage K V
with_parent (leaf_page l) page_id = leaf_page (record l { parent_page_id = page_id })
with_parent (internal_page p) page_id = internal_page (record p { parent_page_id = page_id })

module _ {S K V : Type 0} (ops : PagePool S (TreePage K V)) where
  unfoldable pub fetch : ℕ → Program S (Option ℕ)
  fetch page_id t =
      let (pool, frame) = ops.fetch_page t.pool page_id in some (frame, record t { pool = pool })

  unfoldable pub allocate : Program S (Option (ℕ × ℕ))
  allocate t = let (pool, got) = ops.new_page t.pool in some (got, record t { pool = pool })

  unfoldable pub unpin : ℕ → Bool → Program S (Unit {0})
  unpin page_id is_dirty t =
      some (tt, record t { pool = (ops.unpin_page t.pool page_id is_dirty).0 })

  unfoldable pub discard : ℕ → Program S (Unit {0})
  discard page_id t = some (tt, record t { pool = ops.delete_page t.pool page_id })

  unfoldable pub read_page : ℕ → Program S (TreePage K V)
  read_page frame t = some (ops.read t.pool frame, t)

  unfoldable pub write_page : ℕ → TreePage K V → Program S (Unit {0})
  write_page frame page t = some (tt, record t { pool = ops.write t.pool frame page })

  -- `reinterpret_cast<LeafPage *>` and `reinterpret_cast<InternalPage *>`.
  unfoldable pub read_leaf : ℕ → Program S (Leaf K V)
  read_leaf frame t = elim (ops.read t.pool frame) [
    | leaf_page l ↦ some (l, t)
    | internal_page p ↦ none
  ]

  unfoldable pub read_internal : ℕ → Program S (Internal K)
  read_internal frame t = elim (ops.read t.pool frame) [
    | leaf_page l ↦ none
    | internal_page p ↦ some (p, t)
  ]

  unfoldable pub set_parent : ℕ → ℕ → Program S (Unit {0})
  unfolding read_page write_page
  set_parent frame page_id = do page ← read_page frame; write_page frame (with_parent page page_id)
