-- ===== src/Storage/Leaf/Insert.antt =====
-- `Insert` on a sorted leaf page.
use one_base.Base.{
  ℕ, ◌+◌, ◌-◌, ◌≤◌, ◌<◌, ◌≡◌, ◌≢◌, refl, sym, ap, ◌∙◌, ◌⊎◌, inl, inr, Bool, true, false, none, some,
  arith, ltb, update, Bool-cases, Option-cases, StrictOrder, ltb-false, ltb→lt,
}
use one_base.Storage.Slots.{shift_up, shift_up_lem}
use one_base.Storage.Leaf.{Leaf, key_at, value_at, key_index, is_at, find, insert}
use one_base.Storage.Leaf.Search.{IsSorted, IsPosition, key_index-IsPosition}
use one_base.Storage.Leaf.Lookup.{Holds, is_at-true, is_at-false, find-Holds}

module _ {K V : Type 0} (lt : K → K → Bool) (order : StrictOrder lt) where
  pub slots_ordered :
      (q : Leaf K V) (i j : ℕ) {x y : K × V}
      → q.array i ≡ x
      → q.array j ≡ y
      → lt x.0 y.0 ≡ true
      → lt (key_at q i) (key_at q j) ≡ true
  slots_ordered q i j e f h = (λ t. lt (e t).0 (f t).0) ∙ h

  -- Two sorted pages that hold the same values under a key answer the same for it.
  pub find-ext :
      (p q : Leaf K V)
      → IsSorted lt p
      → IsSorted lt q
      → (key : K) → ((value : V) → Holds p key value → Holds q key value)
      → ((value : V) → Holds q key value → Holds p key value)
      → find lt q key ≡ find lt p key
  find-ext p q sorted_p sorted_q key to from = elim (Option-cases (find lt p key)) [
    | inl absent ↦ elim (Option-cases (find lt q key)) [
      | inl gone ↦ gone ∙ sym absent
      | inr (value, found) ↦
          let back =
            (find-Holds lt order p sorted_p key value).1
              (from value ((find-Holds lt order q sorted_q key value).0 found)) in
          absurd (cc)
    ]
    | inr (value, found) ↦
        (find-Holds lt order q sorted_q key value).1
          (to value ((find-Holds lt order p sorted_p key value).0 found))
        ∙ sym found
  ]

module _ {K V : Type 0} where
  -- The page with an entry put in at slot `idx`.
  abbrev pub put : Leaf K V → ℕ → K → V → Leaf K V
  put p idx key value = record p {
    size = p.size + 1;
    array = update (shift_up idx (p.size - idx) p.array) idx (key, value);
  }

  put_before :
      (p : Leaf K V) (idx : ℕ) (key : K) (value : V) (j : ℕ)
      → j < idx
      → idx ≤ p.size
      → (put p idx key value).array j ≡ p.array j
  put_before p idx key value j h k = ground (arith, shift_up_lem idx (p.size - idx) j p.array)

  put_here :
      (p : Leaf K V) (idx : ℕ) (key : K) (value : V)
      → (put p idx key value).array idx ≡ (key, value)
  put_here p idx key value = ground arith

  put_after :
      (p : Leaf K V) (idx : ℕ) (key : K) (value : V) (j : ℕ)
      → idx ≤ j
      → j < p.size
      → (put p idx key value).array (j + 1) ≡ p.array j
  put_after p idx key value j h k = ground (arith, shift_up_lem idx (p.size - idx) (j + 1) p.array)

  -- Where the entry in slot `j` of the new page comes from.
  data Origin (p : Leaf K V) (idx : ℕ) (key : K) (value : V) (j : ℕ) : Type 0 where
    before : j < idx → (put p idx key value).array j ≡ p.array j → Origin p idx key value j
    here : j ≡ idx → (put p idx key value).array j ≡ (key, value) → Origin p idx key value j
    after :
        (i : ℕ)
        → idx ≤ i
        → i < p.size
        → j ≡ i + 1
        → (put p idx key value).array j ≡ p.array i
        → Origin p idx key value j

  origin :
      (p : Leaf K V) (idx : ℕ) (key : K) (value : V) (j : ℕ)
      → idx ≤ p.size
      → j < p.size + 1
      → Origin p idx key value j
  origin p idx key value j h k = elim (Bool-cases (ltb j idx)) [
    | inl less ↦
        let low : j < idx = ltb→lt j idx less in before low (put_before p idx key value j low h)
    | inr not_less ↦ elim (Bool-cases (ltb idx j)) [
      | inl more ↦
          let high : idx < j = ltb→lt idx j more in
          let next : j ≡ j - 1 + 1 = omega (arith, high) in
          after (j - 1) (omega (arith, high)) (omega (arith, high, k)) next (
            ap (put p idx key value).array next
            ∙ put_after p idx key value (j - 1) (omega (arith, high)) (omega (arith, high, k)))
      | inr not_more ↦
          let same : j ≡ idx = omega (arith, ltb-false j idx not_less, ltb-false idx j not_more) in
          here same (ap (put p idx key value).array same ∙ put_here p idx key value)
    ]
  ]

module _ {K V : Type 0} (lt : K → K → Bool) (order : StrictOrder lt) (p : Leaf K V)
    (sorted : IsSorted lt p) (key : K) (value : V) (idx : ℕ) (at : IsPosition lt p key idx)
    (absent : is_at lt p key idx ≡ false) where
  above_new : (i : ℕ) → idx ≤ i → i < p.size → lt key (key_at p i) ≡ true
  above_new i h k = elim (Bool-cases (lt key (key_at p i))) [
    | inl more ↦ more
    | inr not_more ↦ absurd (
        is_at-false lt order p sorted key idx i at absent k
          (order.connected (key_at p i) key (at.above i h k) not_more))
  ]

  put-IsSorted : IsSorted lt (put p idx key value)
  put-IsSorted i j h k = elim (origin p idx key value i at.bounded (omega (arith, h, k))) [
    | before low e ↦ elim (origin p idx key value j at.bounded k) [
      | before high f ↦
          slots_ordered lt order (put p idx key value) i j e f
            (sorted i j h (omega (arith, high, at.bounded)))
      | here high f ↦ slots_ordered lt order (put p idx key value) i j e f (at.below i low)
      | after n g l m f ↦
          slots_ordered lt order (put p idx key value) i j e f
            (sorted i n (omega (arith, low, g)) l)
    ]
    | here low e ↦ elim (origin p idx key value j at.bounded k) [
      | before high f ↦ absurd (omega (arith, h, low, high))
      | here high f ↦ absurd (omega (arith, h, low, high))
      | after n g l m f ↦ slots_ordered lt order (put p idx key value) i j e f (above_new n g l)
    ]
    | after a b c d e ↦ elim (origin p idx key value j at.bounded k) [
      | before high f ↦ absurd (omega (arith, h, b, d, high))
      | here high f ↦ absurd (omega (arith, h, b, d, high))
      | after n g l m f ↦
          slots_ordered lt order (put p idx key value) i j e f
            (sorted a n (omega (arith, h, d, m)) l)
    ]
  ]

  held_before : (k : K) (v : V) → Holds p k v → Holds (put p idx key value) k v
  held_before k v (i, less, e) = elim (Bool-cases (ltb i idx)) [
    | inl low ↦
        (i, omega (arith, less), put_before p idx key value i (ltb→lt i idx low) at.bounded ∙ e)
    | inr high ↦
        (i + 1, omega (arith, less), put_after p idx key value i (ltb-false i idx high) less ∙ e)
  ]

  held_after :
      (k : K) (v : V) → Holds (put p idx key value) k v → Holds p k v ⊎ ((k ≡ key) × (v ≡ value))
  held_after k v (i, less, e) = elim (origin p idx key value i at.bounded less) [
    | before low f ↦ inl (i, omega (arith, low, at.bounded), sym f ∙ e)
    | here same f ↦ let both = sym e ∙ f in inr (ap (λ x. x.0) both, ap (λ x. x.1) both)
    | after n g l m f ↦ inl (n, l, sym f ∙ e)
  ]

-- A page after `Insert`: sorted, with the key under the value it had, or else under the new one,
-- every other key as before, and the size that is returned.
pub record Inserts {K V : Type 0} (lt : K → K → Bool) (p : Leaf K V) (key : K) (value : V)
    (q : Leaf K V) (result : ℕ) : Type 0 where
  pub sorted : IsSorted lt q
  pub kept : (old : V) → find lt p key ≡ some old → (find lt q key ≡ some old) × (q ≡ p)
  pub entered : find lt p key ≡ none → (find lt q key ≡ some value) × (q.size ≡ p.size + 1)
  pub others : (k : K) → k ≢ key → find lt q k ≡ find lt p k
  pub returned : result ≡ q.size

module _ {K V : Type 0} (lt : K → K → Bool) (order : StrictOrder lt) (p : Leaf K V)
    (sorted : IsSorted lt p) (key : K) (value : V) where
  -- On a leaf whose keys ascend, `Insert` leaves a page whose keys ascend, changes nothing when
  -- the key is there and otherwise enters it with the value, keeps every other key, and returns
  -- the new size.
  pub insert-Inserts : Inserts lt p key value (insert lt p key value).0 (insert lt p key value).1
  unfolding insert
  insert-Inserts =
      let at : IsPosition lt p key (key_index lt p key) =
        key_index-IsPosition lt order p key sorted in
      elim (Bool-cases (is_at lt p key (key_index lt p key))) [
        | inl present ↦ rw present (record {
          sorted = sorted;
          kept = λ old h. (h, refl);
          entered = λ h.
              let there = is_at-true lt order p key (key_index lt p key) present in
              let found =
                (find-Holds lt order p sorted key (value_at p (key_index lt p key))).1 (
                  key_index lt p key,
                  there.0,
                  λ i. (there.1 i, value_at p (key_index lt p key)),
                ) in
              absurd (cc);
          others = λ k h. refl;
          returned = refl;
        })
        | inr absent ↦
            let q : Leaf K V = put p (key_index lt p key) key value in
            let sorted_q =
              put-IsSorted lt order p sorted key value (key_index lt p key) at absent in
            rw absent (record {
              sorted = sorted_q;
              kept = λ old h.
                  let (i, less, e) = (find-Holds lt order p sorted key old).0 h in
                  absurd (
                    is_at-false lt order p sorted key (key_index lt p key) i at absent less
                      (ap (λ x. x.0) e));
              entered = λ h. (
                (find-Holds lt order q sorted_q key value).1 (
                  key_index lt p key,
                  omega (arith, at.bounded),
                  put_here p (key_index lt p key) key value,
                ),
                refl,
              );
              others = λ k ne.
                  find-ext lt order p q sorted sorted_q k
                    (λ v.
                      held_before lt order p sorted key value (key_index lt p key) at absent k v)
                    (λ v h.
                      elim (held_after lt order p sorted key value (key_index lt p key) at absent k
                        v h) [ inl old ↦ old | inr new ↦ absurd (ne new.0) ]);
              returned = refl;
            })
      ]
