-- ===== src/Storage/Leaf/Search.antt =====
-- The binary search of a leaf page, and what the page holds.
use one_base.Base.{
  ℕ, zero, suc, ◌+◌, ◌-◌, ◌/◌, ◌≤◌, ◌<◌, ◌≡◌, Bool, true, false, arith, ltb, Bool-cases, inl, inr,
  StrictOrder, ltb-false, ltb→lt,
}
use one_base.Storage.Leaf.{Leaf, key_at, search, key_index}

module _ {K V : Type 0} (lt : K → K → Bool) where
  -- The keys ascend, so no key stands twice.
  abbrev pub IsSorted : Leaf K V → Type 0
  IsSorted p = (i j : ℕ) → i < j → j < p.size → lt (key_at p i) (key_at p j) ≡ true

  -- Slot `idx` is the first whose key is not below `key`.
  pub record IsPosition (p : Leaf K V) (key : K) (idx : ℕ) : Type 0 where
    pub bounded : idx ≤ p.size
    pub below : (i : ℕ) → i < idx → lt (key_at p i) key ≡ true
    pub above : (i : ℕ) → idx ≤ i → i < p.size → lt (key_at p i) key ≡ false

  module _ (order : StrictOrder lt) (p : Leaf K V) (key : K) (sorted : IsSorted p) where
    before_below :
        (i mid : ℕ)
        → i ≤ mid
        → mid < p.size
        → lt (key_at p mid) key ≡ true
        → lt (key_at p i) key ≡ true
    before_below i mid le h e = elim (Bool-cases (ltb i mid)) [
      | inl less ↦
          order.transitive (key_at p i) (key_at p mid) key (sorted i mid (ltb→lt i mid less) h) e
      | inr not_less ↦ let same : i ≡ mid = omega (arith, ltb-false i mid not_less) in rw same e
    ]

    after_above :
        (mid i : ℕ)
        → mid ≤ i
        → i < p.size
        → lt (key_at p mid) key ≡ false
        → lt (key_at p i) key ≡ false
    after_above mid i le h e = elim (Bool-cases (lt (key_at p i) key)) [
      | inl less ↦ absurd (let found = before_below mid i le h less in cc)
      | inr not_less ↦ not_less
    ]

    search-IsPosition :
        (fuel low high : ℕ)
        → high ≤ low + fuel
        → low ≤ high
        → high ≤ p.size
        → ((i : ℕ) → i < low → lt (key_at p i) key ≡ true)
        → ((i : ℕ) → high ≤ i → i < p.size → lt (key_at p i) key ≡ false)
        → IsPosition p key (search lt fuel p key low high)
    unfolding search
    search-IsPosition zero low high enough le h b a = record {
      bounded = omega (arith, enough, le, h);
      below = b;
      above = λ i g k. a i (omega (arith, enough, g)) k;
    }
    search-IsPosition (suc fuel) low high enough le h b a = elim (Bool-cases (ltb low high)) [
      | inl less ↦ elim (Bool-cases (lt (key_at p (low + (high - low) / 2)) key)) [
        | inl e ↦
            rw (search, less, e)
              (search-IsPosition fuel (low + (high - low) / 2 + 1) high (omega (arith, enough))
                (omega (arith, ltb→lt low high less)) h
                (λ i g.
                  before_below i (low + (high - low) / 2) (omega (arith, g))
                    (omega (arith, ltb→lt low high less, h)) e)
                a)
        | inr e ↦
            rw (search, less, e)
              (search-IsPosition fuel low (low + (high - low) / 2)
                (omega (arith, enough, ltb→lt low high less)) (omega arith)
                (omega (arith, ltb→lt low high less, h)) b
                (λ i g k. after_above (low + (high - low) / 2) i g k e))
      ]
      | inr done ↦
          rw (search, done)
            (record {
              bounded = omega (arith, le, h);
              below = b;
              above = λ i g k. a i (omega (arith, g, ltb-false low high done)) k;
            })
    ]

    pub key_index-IsPosition : IsPosition p key (key_index lt p key)
    unfolding key_index
    key_index-IsPosition =
        search-IsPosition p.size 0 p.size (omega arith) (omega arith) (omega arith)
          (λ i h. absurd (omega (arith, h))) (λ i g h. absurd (omega (arith, g, h)))
