-- ===== src/Storage/Internal/Children.antt =====
-- `InsertNodeAfter`, `Remove` and `PopulateNewRoot` as operations on the list of the children of an
-- internal page and on the list of the keys that separate them.
use one_base.Base.{
  ℕ, ◌+◌, ◌-◌, ◌≤◌, ◌<◌, ◌≡◌, refl, ap, some, List, ◌∷◌, ◌++◌, arith, update, ==-ne, length, subst,
}
use one_base.Storage.Slots.{
  shift_up, shift_down, run, shift_up_lem, shift_down_lem, run_entered, length-run,
}
use one_base.Storage.Internal.{Internal, key_at, value_at, value_index, insert_node_after, remove}
use one_base.Storage.Internal.Child.{value_index-first}

module _ {K : Type 0} where
  unfoldable pub children : Internal K → List ℕ
  unfolding run
  children p = run 0 p.size (λ i. value_at p i)

  unfoldable pub separators : Internal K → List K
  unfolding run
  separators p = run 1 (p.size - 1) (λ i. key_at p i)

  -- `q` has one more child than `p`, behind `count` others, and one more key, right before it.
  pub record Enters (p q : Internal K) (count : ℕ) (key : K) (child : ℕ) : Type 0 where
    pub before : List ℕ
    pub after : List ℕ
    pub keys_before : List K
    pub keys_after : List K
    pub children_without : children p ≡ before ++ after
    pub children_with : children q ≡ before ++ (child ∷ after)
    pub separators_without : separators p ≡ keys_before ++ keys_after
    pub separators_with : separators q ≡ keys_before ++ (key ∷ keys_after)
    pub counted : length before ≡ count
    pub keys_counted : length keys_before + 1 ≡ count

  shifted-Enters :
      (p q : Internal K) (slot : ℕ)
      → 1 ≤ slot
      → slot ≤ p.size
      → q.size ≡ p.size + 1
      → ((i : ℕ) → i < slot → q.array i ≡ p.array i)
      → ((i : ℕ) → slot ≤ i → i < p.size → q.array (i + 1) ≡ p.array i)
      → Enters p q slot (key_at q slot) (value_at q slot)
  unfolding children separators
  shifted-Enters p q slot low high more same moved =
      let on_children =
        run_entered 0 slot p.size p.size q.size (λ i. value_at p i) (λ i. value_at q i)
          (omega arith) high (omega arith) more (λ i h. ap (λ x. x.1) (same i h))
          (λ i h k. ap (λ x. x.1) (moved i h k)) in
      let on_keys =
        run_entered 1 slot p.size (p.size - 1) (q.size - 1) (λ i. key_at p i) (λ i. key_at q i) low
          high (omega (arith, low, high)) (omega (arith, more, low, high))
          (λ i h. ap (λ x. x.0) (same i h)) (λ i h k. ap (λ x. x.0) (moved i h k)) in
      record {
        before = run 0 (slot - 0) (λ i. value_at p i);
        after = run slot (p.size - slot) (λ i. value_at p i);
        keys_before = run 1 (slot - 1) (λ i. key_at p i);
        keys_after = run slot (p.size - slot) (λ i. key_at p i);
        children_without = on_children.0;
        children_with = on_children.1;
        separators_without = on_keys.0;
        separators_with = on_keys.1;
        counted = omega (arith, length-run 0 (slot - 0) (λ i. value_at p i));
        keys_counted = omega (arith, length-run 1 (slot - 1) (λ i. key_at p i), low);
      }

  -- When the page has the child, `InsertNodeAfter` puts the new child right behind the first slot
  -- of it, with the key between the two, keeps the order of all others, and returns the new size.
  pub insert_node_after-Enters :
      (p : Internal K) (old_value idx : ℕ) (key : K) (new_value : ℕ)
      → value_index p old_value ≡ some idx
      → Enters p (insert_node_after p old_value key new_value).0 (idx + 1) key new_value
        × ((insert_node_after p old_value key new_value).1 ≡ p.size + 1)
  unfolding insert_node_after
  insert_node_after-Enters p old_value idx key new_value h =
      let found = (value_index-first p old_value).0 idx h in
      let slot : ℕ = idx + 1 in
      let q : Internal K = record p {
        size = p.size + 1;
        array = update (shift_up slot (p.size - slot) p.array) slot (key, new_value);
      } in
      let here : q.array slot ≡ (key, new_value) = ground arith in
      let done =
        shifted-Enters p q slot (omega arith) (omega (arith, found.0)) refl
          (λ i k. ground (arith, shift_up_lem slot (p.size - slot) i p.array, k))
          (λ i k l. ground (arith, shift_up_lem slot (p.size - slot) (i + 1) p.array, k, l)) in
      rw h (subst (λ x. Enters p q slot x.0 x.1) here done, refl)

  -- `Remove` of a slot of the page behind slot 0 undoes an insertion at that slot: it takes out the
  -- slot's child and the key before it and keeps the order of all others.
  pub remove-Enters :
      (p : Internal K) (index : ℕ)
      → 1 ≤ index
      → index < p.size
      → (q : Internal K) × (remove p index ≡ some q)
        × Enters q p index (key_at p index) (value_at p index)
  unfolding remove
  remove-Enters p index low high =
      let rest : ℕ = p.size - 1 - index in
      let q : Internal K = record p { size = p.size - 1; array = shift_down index rest p.array } in
      (
        q,
        rw (==-ne p.size 0 (λ e. omega (arith, e, high))) refl,
        shifted-Enters q p index low (omega (arith, high)) (omega (arith, high))
            (λ i h. ground (arith, shift_down_lem index rest i p.array, h))
            (λ i h k. ground (arith, shift_down_lem index rest i p.array, h, k)),
      )
