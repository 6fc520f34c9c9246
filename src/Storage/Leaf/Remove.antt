-- ===== src/Storage/Leaf/Remove.antt =====
-- `RemoveAndDeleteRecord` on a sorted leaf page.
use one_base.Base.{
  ℕ, suc, ◌+◌, ◌-◌, ◌≤◌, ◌<◌, ◌≡◌, ◌≢◌, refl, sym, ap, ◌∙◌, ◌⊎◌, inl, inr, Bool, false, not, ◌||◌,
  none, some, arith, ltb, leb, Bool-cases, Option-cases, StrictOrder, ltb-false, ltb→lt,
}
use one_base.Storage.Slots.{shift_down, shift_down_lem}
use one_base.Storage.Leaf.{Leaf, key_at, value_at, key_index, is_at, find, remove}
use one_base.Storage.Leaf.Search.{IsSorted}
use one_base.Storage.Leaf.Lookup.{Holds, is_at-true, same_slot, find-Holds}
use one_base.Storage.Leaf.Insert.{find-ext, slots_ordered}

module _ {K V : Type 0} where
  -- The page with the entry in slot `idx` taken out.
  abbrev pub taken : Leaf K V → ℕ → Leaf K V
  taken p idx = record p { size = p.size - 1; array = shift_down idx (p.size - 1 - idx) p.array }

  -- Slot `j` of the new page holds what a slot of the old page held, which is not slot `idx`.
  taken_slot :
      (p : Leaf K V) (idx j : ℕ)
      → idx < p.size
      → j < p.size - 1
      → ((j < idx) × ((taken p idx).array j ≡ p.array j))
        ⊎ ((idx ≤ j) × ((taken p idx).array j ≡ p.array (j + 1)))
  taken_slot p idx j h k = elim (Bool-cases (ltb j idx)) [
    | inl low ↦
        inl (ltb→lt j idx low, ground (arith, shift_down_lem idx (p.size - 1 - idx) j p.array, low))
    | inr high ↦ inr (
      ltb-false j idx high,
      ground (arith, shift_down_lem idx (p.size - 1 - idx) j p.array, high, h, k),
    )
  ]

module _ {K V : Type 0} (lt : K → K → Bool) (order : StrictOrder lt) (p : Leaf K V)
    (sorted : IsSorted lt p) (idx : ℕ) (within : idx < p.size) where
  taken-IsSorted : IsSorted lt (taken p idx)
  taken-IsSorted i j h k = elim (taken_slot p idx i within (omega (arith, h, k))) [
    | inl (low, e) ↦ elim (taken_slot p idx j within k) [
      | inl (g, f) ↦ slots_ordered lt order (taken p idx) i j e f (sorted i j h (omega (arith, k)))
      | inr (g, f) ↦
          slots_ordered lt order (taken p idx) i j e f
            (sorted i (j + 1) (omega (arith, h)) (omega (arith, k)))
    ]
    | inr (high, e) ↦ elim (taken_slot p idx j within k) [
      | inl (g, f) ↦ absurd (omega (arith, high, g, h))
      | inr (g, f) ↦
          slots_ordered lt order (taken p idx) i j e f
            (sorted (i + 1) (j + 1) (omega (arith, h)) (omega (arith, k)))
    ]
  ]

  taken_old :
      (k : K) (v : V)
      → Holds (taken p idx) k v
      → (i : ℕ) × (i ≢ idx) × (i < p.size) × (p.array i ≡ (k, v))
  taken_old k v (i, less, e) = elim (taken_slot p idx i within less) [
    | inl (low, f) ↦ (i, λ g. omega (arith, g, low), omega (arith, less), sym f ∙ e)
    | inr (high, f) ↦ (i + 1, λ g. omega (arith, g, high), omega (arith, less), sym f ∙ e)
  ]

  taken_other :
      (k : K) (v : V) (i : ℕ) → i ≢ idx → i < p.size → p.array i ≡ (k, v) → Holds (taken p idx) k v
  taken_other k v i ne less e = elim (Bool-cases (ltb i idx)) [
    | inl low ↦ (
      i,
      omega (arith, ltb→lt i idx low, within),
      ground (arith, shift_down_lem idx (p.size - 1 - idx) i p.array, low) ∙ e,
    )
    | inr not_low ↦
        let high : idx < i = omega (arith, ne, ltb-false i idx not_low) in
        let back : i - 1 + 1 ≡ i = omega (arith, high) in
        (
          i - 1,
          omega (arith, high, less),
          ground (arith, shift_down_lem idx (p.size - 1 - idx) (i - 1) p.array, high, less)
              ∙ ap p.array back
              ∙ e,
        )
  ]

-- A page after `RemoveAndDeleteRecord`: sorted, without the key, every other key as before, and the
-- size that is returned; unchanged when the key was not there, and one entry shorter when it was.
pub record Removes {K V : Type 0} (lt : K → K → Bool) (p : Leaf K V) (key : K) (q : Leaf K V)
    (result : ℕ) : Type 0 where
  pub sorted : IsSorted lt q
  pub gone : find lt q key ≡ none
  pub others : (k : K) → k ≢ key → find lt q k ≡ find lt p k
  pub kept : find lt p key ≡ none → q ≡ p
  pub shorter : (v : V) → find lt p key ≡ some v → suc q.size ≡ p.size
  pub returned : result ≡ q.size

module _ {K V : Type 0} (lt : K → K → Bool) (order : StrictOrder lt) (p : Leaf K V)
    (sorted : IsSorted lt p) (key : K) where
  removal_test :
      (idx : ℕ)
      → (leb p.size idx || lt key (key_at p idx) || lt (key_at p idx) key)
        ≡ not (is_at lt p key idx)
  unfolding is_at
  removal_test idx = ground arith

  absent-none : is_at lt p key (key_index lt p key) ≡ false → find lt p key ≡ none
  unfolding find
  absent-none h = rw h refl

  -- On a leaf whose keys ascend, `RemoveAndDeleteRecord` leaves a page whose keys ascend and that
  -- does not find the key, keeps every other key, changes nothing when the key is not there, drops
  -- one entry when it is, and returns the new size.
  pub remove-Removes : Removes lt p key (remove lt p key).0 (remove lt p key).1
  unfolding remove
  remove-Removes = elim (Bool-cases (is_at lt p key (key_index lt p key))) [
    | inl present ↦
        let there = is_at-true lt order p key (key_index lt p key) present in
        let idx : ℕ = key_index lt p key in
        let q : Leaf K V = taken p idx in
        let sorted_q = taken-IsSorted lt order p sorted (key_index lt p key) there.0 in
        let from = taken_old lt order p sorted (key_index lt p key) there.0 in
        rw (removal_test (key_index lt p key), present)
          (record {
            sorted = sorted_q;
            gone = elim (Option-cases (find lt q key)) [
              | inl none_left ↦ none_left
              | inr (v, found) ↦
                  let (i, ne, less, e) =
                    from key v ((find-Holds lt order q sorted_q key v).0 found) in
                  absurd (
                    ne (
                      same_slot lt order p sorted i idx less there.0
                        (ap (λ x. x.0) e ∙ sym there.1)))
            ];
            others = λ k ne.
                find-ext lt order p q sorted sorted_q k
                  (λ v (i, less, e).
                    taken_other lt order p sorted (key_index lt p key) there.0 k v i
                      (λ same. ne (sym (ap (λ x. x.0) e) ∙ ap (key_at p) same ∙ there.1)) less e)
                  (λ v h. let (i, ne_idx, less, e) = from k v h in (i, less, e));
            kept = λ h.
                let found =
                  (find-Holds lt order p sorted key (value_at p idx)).1
                    (idx, there.0, λ t. (there.1 t, value_at p idx)) in
                absurd (cc);
            shorter = λ v h. omega (arith, there.0);
            returned = refl;
          })
    | inr absent ↦
        rw (removal_test (key_index lt p key), absent)
          (record {
            sorted = sorted;
            gone = absent-none absent;
            others = λ k ne. refl;
            kept = λ h. refl;
            shorter = λ v h. absurd (let no = absent-none absent in cc);
            returned = refl;
          })
  ]
