-- ===== src/Storage/Tree/Lookup.antt =====
-- `GetValue`, `FindLeafPage` and `Begin(key)` on a well-formed tree.
use one_base.Base.{ℕ, ◌≡◌, ◌↔◌, ◌⊎◌, Bool, true, false, Option, some, StrictOrder}
use one_base.Storage.Pages.{PagePool, PagePoolLaws}
use one_base.Storage.Internal.{child_of}
use one_base.Storage.Internal.Child.{child_of-Separates}
use one_base.Storage.Tree.State.{TreePage, Tree, is_empty}
use one_base.Storage.Tree.Shape.{Has, IsTree}
use one_base.Storage.Held.{Idle}
use one_base.Storage.Tree.Walk.{ChoosesChild}

module _ {S K V : Type 0} (lt : K → K → Bool) (order : StrictOrder lt)
    {ops : PagePool S (TreePage K V)} (laws : PagePoolLaws ops) (content : ℕ → TreePage K V)
    (next : ℕ) where
  -- The tree is empty, or its root is that of a tree of height `h`.
  abbrev pub IsSearchTree : ℕ → Tree S → Type 0
  IsSearchTree h t =
      (is_empty t ≡ true) ⊎ ((is_empty t ≡ false) × IsTree content lt next h t.root_page_id)

  -- What `GetValue` leaves behind: no page pinned, every page's content and the tree as they were,
  -- and the value of the key in the tree, `none` when the tree has none.
  pub record Answers (h n : ℕ) (t : Tree S) (key : K) (result : Option (Option V × Tree S))
      : Type 0 where
    pub answer : Option V
    pub pool : S
    pub returned : result ≡ some (answer, record t { pool = pool })
    pub idle : Idle laws content next n pool
    pub right :
        (value : V)
        → (answer ≡ some value) ↔ ((is_empty t ≡ false) × Has content h t.root_page_id key value)

  pub child_of-ChoosesChild : (key : K) → ChoosesChild lt (λ p. child_of lt p key)
  child_of-ChoosesChild key p full sorted =
      let (at, found, child) = child_of-Separates lt order p key sorted full in
      (at, found.within, child)
