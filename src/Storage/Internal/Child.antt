-- ===== src/Storage/Internal/Child.antt =====
-- Which child `Lookup` of an internal page descends to, and where `ValueIndex` finds a child.
use one_base.Base.{
  ℕ, zero, suc, ◌+◌, ◌-◌, ◌≤◌, ◌<◌, ◌≡◌, ◌≢◌, refl, sym, ap, ◌∙◌, inl, inr, Bool, true, false, none,
  some, arith, ltb, ◌==◌, Bool-cases, ltb-false, ltb→lt, ==→eq, StrictOrder,
}
use one_base.Storage.Internal.{
  Internal, key_at, value_at, descend, child_of, index_from, value_index,
}

module _ {K : Type 0} (lt : K → K → Bool) where
  -- The keys of the slots behind slot 0 ascend.
  abbrev pub IsSorted : Internal K → Type 0
  IsSorted p = (i j : ℕ) → 1 ≤ i → i < j → j < p.size → lt (key_at p i) (key_at p j) ≡ true

  -- The keys that `key` is not below are those up to slot `at`.
  pub record Separates (p : Internal K) (key : K) (at : ℕ) : Type 0 where
    pub within : at < p.size
    pub left : (i : ℕ) → 1 ≤ i → i ≤ at → lt key (key_at p i) ≡ false
    pub right : (i : ℕ) → at < i → i < p.size → lt key (key_at p i) ≡ true

  module _ (order : StrictOrder lt) (p : Internal K) (key : K) (sorted : IsSorted p) where
    above_rest :
        (i j : ℕ)
        → 1 ≤ i
        → i ≤ j
        → j < p.size
        → lt key (key_at p i) ≡ true
        → lt key (key_at p j) ≡ true
    above_rest i j g h k e = elim (Bool-cases (ltb i j)) [
      | inl less ↦
          order.transitive key (key_at p i) (key_at p j) e (sorted i j g (ltb→lt i j less) k)
      | inr not_less ↦
          let same : i ≡ j = omega (arith, ltb-false i j not_less) in
          ap (λ n. lt key (key_at p n)) (sym same) ∙ e
    ]

    descend-Separates :
        (i n : ℕ)
        → i + n + 1 ≡ p.size
        → ((k : ℕ) → 1 ≤ k → k ≤ i → lt key (key_at p k) ≡ false)
        → (at : ℕ) × Separates p key at
          × (descend lt (i + 1) n p.array key (value_at p i) ≡ value_at p at)
    unfolding descend
    descend-Separates i zero all left = (
      i,
      record {
        within = omega (arith, all);
        left = left;
        right = λ k g h. absurd (omega (arith, g, h, all));
      },
      refl,
    )
    descend-Separates i (suc n) all left = elim (Bool-cases (lt key (key_at p (i + 1)))) [
      | inl above ↦ (
        i,
        record {
          within = omega (arith, all);
          left = left;
          right = λ k g h. above_rest (i + 1) k (omega arith) (omega (arith, g)) h above;
        },
        rw (descend, above) refl,
      )
      | inr not_above ↦
          let (at, found, e) = descend-Separates (i + 1) n (omega (arith, all)) (λ k g h.
            elim (Bool-cases (ltb k (i + 1))) [
              | inl low ↦ left k g (omega (arith, ltb→lt k (i + 1) low))
              | inr high ↦
                  let same : k ≡ i + 1 = omega (arith, h, ltb-false k (i + 1) high) in
                  ap (λ m. lt key (key_at p m)) same ∙ not_above
            ]) in
          (at, found, rw (descend, not_above) e)
    ]

    -- On a page with a child and ascending keys, `Lookup` answers with the child behind the last
    -- key that the key looked for is not below, so that every key behind is above it.
    pub child_of-Separates :
        0 < p.size → (at : ℕ) × Separates p key at × (child_of lt p key ≡ value_at p at)
    unfolding child_of
    child_of-Separates h =
        descend-Separates 0 (p.size - 1) (omega (arith, h)) (λ k g l. absurd (omega (arith, g, l)))

module _ {K : Type 0} where
  index_from-first :
      (i n : ℕ) (a : ℕ → K × ℕ) (value idx : ℕ)
      → index_from i n a value ≡ some idx
      → (i ≤ idx)
        × (idx < i + n)
        × ((a idx).1 ≡ value)
        × ((k : ℕ) → i ≤ k → k < idx → (a k).1 ≢ value)
  unfolding index_from
  index_from-first i zero a value idx h = absurd (cc)
  index_from-first i (suc n) a value idx h = elim (Bool-cases ((a i).1 == value)) [
    | inl found ↦
        let given : some i ≡ some idx = rw found at h in
        let same : i ≡ idx = cc in
        (
          omega (arith, same),
          omega (arith, same),
          ap (λ k. (a k).1) (sym same) ∙ ==→eq (a i).1 value found,
          λ k g l. absurd (omega (arith, same, g, l)),
        )
    | inr not_found ↦
        let given : index_from (i + 1) n a value ≡ some idx = rw not_found at h in
        let (low, high, e, first) = index_from-first (i + 1) n a value idx given in
        (
          omega (arith, low),
          omega (arith, high),
          e,
          λ k g l. elim (Bool-cases (ltb i k)) [
            | inl more ↦ first k (omega (arith, ltb→lt i k more)) l
            | inr not_more ↦
                let same : k ≡ i = omega (arith, g, ltb-false i k not_more) in
                λ f.
                  let hit : (a i).1 ≡ value = ap (λ m. (a m).1) (sym same) ∙ f in
                  ground (arith, hit, not_found)
          ],
        )
  ]

  index_from-none :
      (i n : ℕ) (a : ℕ → K × ℕ) (value k : ℕ)
      → index_from i n a value ≡ none
      → i ≤ k
      → k < i + n
      → (a k).1 ≢ value
  unfolding index_from
  index_from-none i zero a value k h g l e = omega (arith, g, l)
  index_from-none i (suc n) a value k h g l e = elim (Bool-cases ((a i).1 == value)) [
    | inl found ↦ let given : some i ≡ none = rw found at h in cc
    | inr not_found ↦
        let given : index_from (i + 1) n a value ≡ none = rw not_found at h in
        elim (Bool-cases (ltb i k)) [
          | inl more ↦
              index_from-none (i + 1) n a value k given (omega (arith, ltb→lt i k more))
                (omega (arith, l)) e
          | inr not_more ↦
              let same : k ≡ i = omega (arith, g, ltb-false i k not_more) in
              let hit : (a i).1 ≡ value = ap (λ m. (a m).1) (sym same) ∙ e in
              ground (arith, hit, not_found)
        ]
  ]

  -- `ValueIndex` answers with the first slot of the child, or with -1 exactly when no slot has it.
  pub value_index-first :
      (p : Internal K) (value : ℕ)
      → ((idx : ℕ)
          → value_index p value ≡ some idx
          → (idx < p.size) × (value_at p idx ≡ value) × ((k : ℕ) → k < idx → value_at p k ≢ value))
        × (value_index p value ≡ none → (k : ℕ) → k < p.size → value_at p k ≢ value)
  unfolding value_index
  value_index-first p value = (
    λ idx h.
        let (low, high, e, first) = index_from-first 0 p.size p.array value idx h in
        (omega (arith, high), e, λ k l. first k (omega arith) l),
    λ h k l. index_from-none 0 p.size p.array value k h (omega arith) (omega (arith, l)),
  )
