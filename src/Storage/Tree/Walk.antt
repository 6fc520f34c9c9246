-- ===== src/Storage/Tree/Walk.antt =====
-- The way down a well-formed tree: it ends at a leaf, with that leaf's page pinned and nothing
-- else.
use one_base.Base.{ℕ, zero, suc, ◌<◌, ◌≡◌, refl, sym, ◌∙◌, Bool, false, Option, some, arith, subst}
use one_base.Storage.Pages.{PagePool, PagePoolLaws}
use one_base.Storage.Held.{spent, Idle, Holding, read-held, fetch-Holding, unpin-Idle}
use one_base.Storage.Internal.{Internal, value_at}
use one_base.Storage.Internal.Child.{IsSorted as SeparatorsSorted}
use one_base.Storage.Tree.State.{TreePage, leaf_page, internal_page, Tree}
use one_base.Storage.Tree.Search.{walk, descend_by}
use one_base.Storage.Tree.Shape.{Leads, IsTree, IsTree-allocated}

-- `choose` names a child of every page that has one.
abbrev pub ChoosesChild : {K : Type 0} → (K → K → Bool) → (Internal K → ℕ) → Type 0
ChoosesChild {K} lt choose =
    (p : Internal K)
    → 0 < p.size
    → SeparatorsSorted lt p
    → (i : ℕ) × (i < p.size) × (choose p ≡ value_at p i)

module _ {S K V : Type 0} {ops : PagePool S (TreePage K V)} (laws : PagePoolLaws ops) where
  module _ (content : ℕ → TreePage K V) (next : ℕ) where
    -- Where a way down ends.
    pub record Arrives (choose : Internal K → ℕ) (h n id : ℕ) (t : Tree S)
        (result : Option (Option (ℕ × ℕ) × Tree S)) : Type 0 where
      pub leaf_id : ℕ
      pub frame : ℕ
      pub pool : S
      pub arrived : result ≡ some (some (leaf_id, frame), record t { pool = pool })
      pub holding : Holding laws content next n leaf_id frame pool
      pub leads : Leads content choose h id leaf_id

    module _ (lt : K → K → Bool) (choose : Internal K → ℕ) (chooses : ChoosesChild lt choose) where
      walk-Arrives :
          (h n fuel id f : ℕ) (t : Tree S)
          → h < fuel
          → IsTree content lt next h id
          → Holding laws content next (spent h n) id f t.pool
          → Arrives choose h n id t (walk ops fuel choose id f t)
      unfolding walk
      walk-Arrives h n zero id f t enough tree w = absurd (omega (arith, enough))
      walk-Arrives zero n (suc fuel) id f t enough (within, l, here, sorted) w =
          let found : ops.read t.pool f ≡ leaf_page l =
            read-held laws content next n id f t.pool w ∙ here in
          record {
            leaf_id = id;
            frame = f;
            pool = t.pool;
            arrived = rw (walk, found) refl;
            holding = w;
            leads = refl;
          }
      walk-Arrives (suc h) n (suc fuel) id f t enough (within, p, here, full, sorted, below, apart)
            w =
          let left : ℕ = spent h n in
          let found : ops.read t.pool f ≡ internal_page p =
            read-held laws content next (suc left) id f t.pool w ∙ here in
          let (i, less, child) = chooses p full sorted in
          let tree : IsTree content lt next h (choose p) =
            subst (λ x. IsTree content lt next h x) (sym child) (below i less) in
          let s : S = (ops.unpin_page t.pool id false).0 in
          let (s', g, got, held) =
            fetch-Holding laws content next left s (choose p)
              (unpin-Idle laws content next (suc left) id f t.pool false w)
              (IsTree-allocated content lt next h (choose p) tree) in
          let rest =
            walk-Arrives h n fuel (choose p) g (record t { pool = s' }) (omega (arith, enough)) tree
              held in
          record {
            leaf_id = rest.leaf_id;
            frame = rest.frame;
            pool = rest.pool;
            arrived = rw (walk, found, got) rest.arrived;
            holding = rest.holding;
            leads = (p, here, rest.leads);
          }

      -- The same from the root, which is fetched first.
      pub descend_by-Arrives :
          (h n fuel : ℕ) (t : Tree S)
          → h < fuel
          → IsTree content lt next h t.root_page_id
          → Idle laws content next (suc (spent h n)) t.pool
          → Arrives choose h n t.root_page_id t (descend_by ops fuel choose t)
      unfolding descend_by
      descend_by-Arrives h n fuel t enough tree w =
          let (s, f, got, held) =
            fetch-Holding laws content next (spent h n) t.pool t.root_page_id w
              (IsTree-allocated content lt next h t.root_page_id tree) in
          let rest =
            walk-Arrives h n fuel t.root_page_id f (record t { pool = s }) enough tree held in
          record {
            leaf_id = rest.leaf_id;
            frame = rest.frame;
            pool = rest.pool;
            arrived = rw (descend_by, got) rest.arrived;
            holding = rest.holding;
            leads = rest.leads;
          }
