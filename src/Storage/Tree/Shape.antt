-- ===== src/Storage/Tree/Shape.antt =====
-- What a B+ tree of a given height holds, and when it is well formed, by the contents of its pages.
use one_base.Base.{
  ℕ, zero, suc, ◌<◌, ◌≡◌, sym, ap, ◌∙◌, inl, inr, Bool, arith, ltb, StrictOrder, Bool-cases, ltb→lt,
  ltb-false, subst,
}
use one_base.Storage.Leaf.{Leaf}
use one_base.Storage.Leaf.Search.{IsSorted}
use one_base.Storage.Leaf.Lookup.{Holds}
use one_base.Storage.Internal.{Internal, value_at, child_of}
use one_base.Storage.Internal.Child.{IsSorted as SeparatorsSorted, Separates, child_of-Separates}
use one_base.Storage.Tree.State.{TreePage, leaf_page, internal_page}

module _ {K V : Type 0} (content : ℕ → TreePage K V) where
  -- Some leaf below the page holds the entry.
  abbrev pub Has : ℕ → ℕ → K → V → Type 0
  Has zero id key value = (l : Leaf K V) × (content id ≡ leaf_page l) × Holds l key value
  Has (suc h) id key value =
      (p : Internal K) × (content id ≡ internal_page p)
      × (i : ℕ) × (i < p.size)
      × Has h (value_at p i) key value

  -- The way down from the page by `choose` ends at the leaf.
  abbrev pub Leads : (Internal K → ℕ) → ℕ → ℕ → ℕ → Type 0
  Leads choose zero id leaf_id = id ≡ leaf_id
  Leads choose (suc h) id leaf_id =
      (p : Internal K) × (content id ≡ internal_page p) × Leads choose h (choose p) leaf_id

  module _ (lt : K → K → Bool) (next : ℕ) where
    -- Leaves have ascending keys, inner pages ascending separators, every child is a tree one level
    -- lower, and the separators part the keys below the children.
    abbrev pub IsTree : ℕ → ℕ → Type 0
    IsTree zero id = (id < next) × (l : Leaf K V) × (content id ≡ leaf_page l) × IsSorted lt l
    IsTree (suc h) id =
        (id < next)
        × (p : Internal K) × (content id ≡ internal_page p)
        × (0 < p.size)
        × SeparatorsSorted lt p
        × ((i : ℕ) → i < p.size → IsTree h (value_at p i))
        × ((i : ℕ) (key : K) (value : V)
            → i < p.size
            → Has h (value_at p i) key value
            → Separates lt p key i)

    pub IsTree-allocated : (h id : ℕ) → IsTree h id → id < next
    IsTree-allocated zero id t = t.0
    IsTree-allocated (suc h) id t = t.0

module _ {K : Type 0} (lt : K → K → Bool) (p : Internal K) (key : K) where
  Separates-unique : (i j : ℕ) → Separates lt p key i → Separates lt p key j → i ≡ j
  Separates-unique i j a b = elim (Bool-cases (ltb i j)) [
    | inl less ↦
        let below : i < j = ltb→lt i j less in
        let yes_at = a.right j below b.within in
        let no_at = b.left j (omega (arith, below)) (omega arith) in absurd (cc)
    | inr not_less ↦ elim (Bool-cases (ltb j i)) [
      | inl more ↦
          let above : j < i = ltb→lt j i more in
          let yes_at = b.right i above a.within in
          let no_at = a.left i (omega (arith, above)) (omega arith) in absurd (cc)
      | inr not_more ↦ omega (arith, ltb-false i j not_less, ltb-false j i not_more)
    ]
  ]

module _ {K V : Type 0} (lt : K → K → Bool) (order : StrictOrder lt) (content : ℕ → TreePage K V)
    (next : ℕ) (key : K) where
  -- The way down by `Lookup` ends at a sorted leaf that has every value of the key.
  pub Leads-Has :
      (h id leaf_id : ℕ)
      → IsTree content lt next h id
      → Leads content (λ p. child_of lt p key) h id leaf_id
      → (l : Leaf K V) × (content leaf_id ≡ leaf_page l)
        × IsSorted lt l
        × ((value : V) → Has content h id key value → Holds l key value)
        × ((value : V) → Holds l key value → Has content h id key value)
  Leads-Has zero id leaf_id t same =
      let (within, l, here, sorted) = t in
      (
        l,
        ap content (sym same) ∙ here,
        sorted,
        λ value (m, there, held).
            let pages : ◌≡◌ {A = TreePage K V} (leaf_page l) (leaf_page m) = sym here ∙ there in
            let both : l ≡ m = cc in subst (λ x. Holds x key value) (sym both) held,
        λ value held. (l, here, held),
      )
  Leads-Has (suc h) id leaf_id t (q, there, rest) =
      let (within, p, here, full, sorted, below, apart) = t in
      let pages : ◌≡◌ {A = TreePage K V} (internal_page p) (internal_page q) = sym here ∙ there in
      let both : q ≡ p = cc in
      let (at, found, child) = child_of-Separates lt order p key sorted full in
      let on : Leads content (λ r. child_of lt r key) h (value_at p at) leaf_id =
        subst (λ x. Leads content (λ r. child_of lt r key) h x leaf_id)
          (ap (λ x. child_of lt x key) both ∙ child) rest in
      let (l, held_at, sorted_l, down, up) =
        Leads-Has h (value_at p at) leaf_id (below at found.within) on in
      (
        l,
        held_at,
        sorted_l,
        λ value (r, r_here, i, less, has).
            let r_pages : ◌≡◌ {A = TreePage K V} (internal_page p) (internal_page r) =
              sym here ∙ r_here in
            let r_both : r ≡ p = cc in
            let less_p : i < p.size = subst (λ x. i < x.size) r_both less in
            let has_p : Has content h (value_at p i) key value =
              subst (λ x. Has content h (value_at x i) key value) r_both has in
            let same : i ≡ at =
              Separates-unique lt p key i at (apart i key value less_p has_p) found in
            down value (subst (λ x. Has content h (value_at p x) key value) same has_p),
        λ value held. (p, here, at, found.within, up value held),
      )
