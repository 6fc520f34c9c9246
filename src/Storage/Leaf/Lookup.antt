-- ===== src/Storage/Leaf/Lookup.antt =====
-- What a sorted leaf page holds, and `Lookup` on it.
use one_base.Base.{
  ℕ, ◌<◌, ◌≡◌, ◌≢◌, refl, sym, ap, ◌∙◌, ◌↔◌, inl, inr, Bool, true, false, none, some, arith, ltb,
  Bool-cases, StrictOrder, ltb-false, ltb→lt, lt→ltb,
}
use one_base.Storage.Leaf.{Leaf, key_at, value_at, key_index, is_at, find}
use one_base.Storage.Leaf.Search.{IsSorted, IsPosition, key_index-IsPosition}

module _ {K V : Type 0} where
  -- Some slot of the page is this entry.
  abbrev pub Holds : Leaf K V → K → V → Type 0
  Holds p key value = (i : ℕ) × (i < p.size) × (p.array i ≡ (key, value))

module _ {K V : Type 0} (lt : K → K → Bool) (order : StrictOrder lt) (p : Leaf K V) where
  pub is_at-true :
      (key : K) (idx : ℕ) → is_at lt p key idx ≡ true → (idx < p.size) × (key_at p idx ≡ key)
  unfolding is_at
  is_at-true key idx h = elim (Bool-cases (ltb idx p.size)) [
    | inl less ↦ elim (Bool-cases (lt key (key_at p idx))) [
      | inl above ↦ absurd (ground (arith, h, less, above))
      | inr not_above ↦ elim (Bool-cases (lt (key_at p idx) key)) [
        | inl below ↦ absurd (ground (arith, h, less, not_above, below))
        | inr not_below ↦
            (ltb→lt idx p.size less, order.connected (key_at p idx) key not_below not_above)
      ]
    ]
    | inr not_less ↦ absurd (ground (arith, h, not_less))
  ]

  pub is_at_same :
      (key : K) (idx : ℕ) → idx < p.size → key_at p idx ≡ key → is_at lt p key idx ≡ true
  unfolding is_at
  is_at_same key idx h e =
      let within : ltb idx p.size ≡ true = lt→ltb idx p.size h in
      let same : lt key key ≡ false = order.irreflexive key in rw (e, within, same) refl

  module _ (sorted : IsSorted lt p) where
    pub same_slot : (i j : ℕ) → i < p.size → j < p.size → key_at p i ≡ key_at p j → i ≡ j
    same_slot i j h k e =
        let self : lt (key_at p j) (key_at p j) ≡ false = order.irreflexive (key_at p j) in
        elim (Bool-cases (ltb i j)) [
          | inl less ↦
              let below : lt (key_at p i) (key_at p j) ≡ true = sorted i j (ltb→lt i j less) k in
              absurd (cc)
          | inr not_less ↦ elim (Bool-cases (ltb j i)) [
            | inl more ↦
                let above : lt (key_at p j) (key_at p i) ≡ true = sorted j i (ltb→lt j i more) h in
                absurd (cc)
            | inr not_more ↦ omega (arith, ltb-false i j not_less, ltb-false j i not_more)
          ]
        ]

    pub is_at-false :
        (key : K) (idx i : ℕ)
        → IsPosition lt p key idx
        → is_at lt p key idx ≡ false
        → i < p.size
        → key_at p i ≢ key
    is_at-false key idx i at h less e =
        let self : lt key key ≡ false = order.irreflexive key in
        elim (Bool-cases (ltb i idx)) [
          | inl before ↦ absurd (let low = at.below i (ltb→lt i idx before) in cc)
          | inr not_before ↦ elim (Bool-cases (ltb idx i)) [
            | inl after ↦
                let low : lt (key_at p idx) (key_at p i) ≡ true =
                  sorted idx i (ltb→lt idx i after) less in
                let high : lt (key_at p idx) key ≡ false =
                  at.above idx (omega arith) (omega (arith, ltb→lt idx i after, less)) in
                absurd (cc)
            | inr not_after ↦
                let here : idx ≡ i =
                  omega (arith, ltb-false i idx not_before, ltb-false idx i not_after) in
                let found : is_at lt p key i ≡ true = is_at_same key i less e in absurd (cc)
          ]
        ]

    -- On a leaf whose keys ascend, `Lookup` answers with a value exactly when the page holds it
    -- under the key.
    pub find-Holds : (key : K) (value : V) → (find lt p key ≡ some value) ↔ Holds p key value
    unfolding find
    find-Holds key value =
        let idx : ℕ = key_index lt p key in
        elim (Bool-cases (is_at lt p key (key_index lt p key))) [
          | inl here ↦
              let at = is_at-true key (key_index lt p key) here in
              (
                λ h.
                    let given : some (value_at p (key_index lt p key)) ≡ some value =
                      rw here at h in
                    let same : value_at p (key_index lt p key) ≡ value = cc in
                    (key_index lt p key, at.0, λ i. (at.1 i, same i)),
                λ (i, less, e).
                    let same : key_index lt p key ≡ i =
                      same_slot (key_index lt p key) i at.0 less (at.1 ∙ sym (ap (λ x. x.0) e)) in
                    rw here (ap (λ x. some (value_at p x)) same ∙ ap (λ x. some x.1) e),
              )
          | inr absent ↦ (
            λ h. let given : none ≡ some value = rw absent at h in absurd (cc),
            λ (i, less, e). absurd (
                is_at-false key (key_index lt p key) i (key_index-IsPosition lt order p key sorted)
                  absent less (ap (λ x. x.0) e)),
          )
        ]
