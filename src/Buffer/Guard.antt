-- ===== src/Buffer/Guard.antt =====
-- `BasicPageGuard`, `ReadPageGuard` and `WritePageGuard` (src/buffer/page_guard.cpp): objects that
-- own one pin of a page and give it back. Guards stand at names; the calls that they make on the
-- page and on the pool are a list, the last call first.
mod Balance
mod Examples
use one_base.Base.{
  ℕ, ◌+◌, Bool, true, false, Option, none, some, List, [], ◌∷◌, ◌++◌, ◌==◌, if◌then◌else◌, update,
}
use one_base.Buffer.Pool.{invalid_page_id}

-- The three classes.
pub data Kind : Type 0 where
  basic read write : Kind

-- `RLatch` or `WLatch`, `RUnlatch` or `WUnlatch`, and `UnpinPage`.
pub data Call : Type 0 where
  latch unlatch : Kind → ℕ → Call
  unpin : ℕ → Bool → Call

-- `page` is the id of the page that `page_` points to, `none` for a null pointer; only a basic
-- guard has the flag.
pub record Guard : Type 0 where
  pub kind : Kind
  pub page : Option ℕ
  pub is_dirty : Bool

pub record Guards : Type 0 where
  pub guard : ℕ → Guard
  pub calls : List Call

-- What the constructors call.
abbrev pub latches : Kind → Option ℕ → List Call
latches read (some page_id) = latch read page_id ∷ []
latches write (some page_id) = latch write page_id ∷ []
latches _ _ = []

-- The constructors from a page.
unfoldable pub construct : Guards → ℕ → Kind → Option ℕ → Guards
construct s g kind page = record {
  guard = update s.guard g (record { kind = kind; page = page; is_dirty = false });
  calls = latches kind page ++ s.calls;
}

-- What `Drop` calls on a guard with a page, the last call first.
abbrev pub releases : Kind → Bool → ℕ → List Call
releases basic is_dirty page_id = unpin page_id is_dirty ∷ []
releases read is_dirty page_id = unpin page_id false ∷ unlatch read page_id ∷ []
releases write is_dirty page_id = unpin page_id true ∷ unlatch write page_id ∷ []

-- `Drop`, and the destructors.
unfoldable pub drop : Guards → ℕ → Guards
drop s g = elim (s.guard g).page [
  | none ↦ s
  | some page_id ↦ record {
    guard = update s.guard g (record { kind = (s.guard g).kind; page = none; is_dirty = false });
    calls = releases (s.guard g).kind (s.guard g).is_dirty page_id ++ s.calls;
  }
]

-- The move constructors, of `g` from `that`.
unfoldable pub move_construct : Guards → ℕ → ℕ → Guards
move_construct s g that = record s {
  guard = update (update s.guard g (s.guard that)) that (record (s.guard that) { page = none });
}

-- `operator=`.
unfoldable pub move_assign : Guards → ℕ → ℕ → Guards
move_assign s g that =
    let dropped = drop s g in if g == that then s else move_construct dropped g that

-- `GetDataMut` of a basic guard.
unfoldable pub get_data_mut : Guards → ℕ → Guards
get_data_mut s g = record s { guard = update s.guard g (record (s.guard g) { is_dirty = true }) }

-- `GetPageId`.
abbrev pub get_page_id : Guard → ℕ
get_page_id g = elim g.page [ none ↦ invalid_page_id | some page_id ↦ page_id ]
