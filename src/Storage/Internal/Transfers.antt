-- ===== src/Storage/Internal/Transfers.antt =====
-- The moves between two internal pages, as operations on their lists of children and of separators.
use one_base.Base.{
  ℕ, suc, ◌+◌, ◌-◌, ◌/◌, ◌≤◌, ◌<◌, ◌≡◌, ◌≢◌, refl, sym, ap, ◌∙◌, some, [], ◌∷◌, ◌++◌, arith, update,
  ==-ne,
}
use one_base.Storage.Slots.{
  shift_up, shift_down, copy, run, shift_up_lem, shift_down_lem, copy_lem, run-ext, run-ext_start,
  run-ext_same, run-append,
}
use one_base.Storage.Internal.{
  Internal, key_at, value_at, set_key_at, with_key, with_value, move_all_to, move_half_to,
  move_first_to_end_of, move_last_to_front_of,
}
use one_base.Storage.Internal.Children.{children, separators}

module _ {K : Type 0} where
  -- `MoveHalfTo`, on a page of two children or more, keeps the first half of the children and puts
  -- the others in the recipient; the key at the split is in neither page, for the parent to take.
  pub move_half_to-children :
      (p recipient : Internal K) (middle_key : K)
      → 2 ≤ p.size
      → (children p
          ≡ children (move_half_to p recipient middle_key).0
            ++ children (move_half_to p recipient middle_key).1)
        × (separators p
            ≡ separators (move_half_to p recipient middle_key).0
              ++ (key_at p (p.size / 2) ∷ separators (move_half_to p recipient middle_key).1))
  unfolding children separators move_half_to run
  move_half_to-children p recipient middle_key h =
      let split : ℕ = p.size / 2 in
      let count : ℕ = p.size - split - 1 in
      let start : ℕ → K × ℕ = with_value recipient.array 0 (value_at p split) in
      let filled : ℕ → K × ℕ = copy p.array (split + 1) 1 count start in
      let slot : filled 0 ≡ start 0 =
        ground (arith, copy_lem p.array (split + 1) 1 count 0 start) in
      let first : value_at p split ≡ (filled 0).1 = ap (λ (x : K × ℕ). x.1) (sym slot) in
      let others : (i : ℕ) → i < count → p.array (split + 1 + i) ≡ filled (1 + i) =
        λ i k. ground (arith, copy_lem p.array (split + 1) 1 count (1 + i) start, k) in
      let rest_values : run (split + 1) count (λ i. value_at p i)
          ≡ run 1 count (λ i. (filled i).1) =
        run-ext (split + 1) 1 count (λ i. value_at p i) (λ i. (filled i).1)
          (λ i k. ap (λ x. x.1) (others i k)) in
      let rest_keys : run (split + 1) count (λ i. key_at p i) ≡ run 1 count (λ i. (filled i).0) =
        run-ext (split + 1) 1 count (λ i. key_at p i) (λ i. (filled i).0)
          (λ i k. ap (λ x. x.0) (others i k)) in
      let whole : p.size - split ≡ suc count = omega (arith, h) in
      (
        run-append 0 split (suc count) split p.size (λ i. value_at p i) (omega arith)
              (omega (arith, h))
            ∙ (λ t. run 0 split (λ i. value_at p i) ++ (first t ∷ rest_values t))
            ∙ ap (λ n. run 0 split (λ i. value_at p i) ++ run 0 n (λ i. (filled i).1)) (sym whole),
        run-append 1 (split - 1) (suc count) split (p.size - 1) (λ i. key_at p i) (omega (arith, h))
              (omega (arith, h))
            ∙ (λ t. run 1 (split - 1) (λ i. key_at p i) ++ (key_at p split ∷ rest_keys t)),
      )

  -- `MoveAllTo`, between two pages with children, appends the children of the page to those of the
  -- recipient, with the given key between the two, and leaves the page empty.
  pub move_all_to-children :
      (p recipient : Internal K) (middle_key : K)
      → p.size ≢ 0
      → recipient.size ≢ 0
      → (children (move_all_to p recipient middle_key).1 ≡ children recipient ++ children p)
        × (separators (move_all_to p recipient middle_key).1
            ≡ separators recipient ++ (middle_key ∷ separators p))
        × (children (move_all_to p recipient middle_key).0 ≡ [])
  unfolding children separators move_all_to set_key_at run
  move_all_to-children p recipient middle_key h k =
      let r : ℕ = recipient.size in
      let keyed : ℕ → K × ℕ = with_key p.array 0 middle_key in
      let filled : ℕ → K × ℕ = copy keyed 0 r p.size recipient.array in
      let front : (i : ℕ) → i < r → filled i ≡ recipient.array i =
        λ i l. ground (arith, copy_lem keyed 0 r p.size i recipient.array, l) in
      let back : (i : ℕ) → i < p.size → filled (r + i) ≡ keyed i =
        λ i l. ground (arith, copy_lem keyed 0 r p.size (r + i) recipient.array, l) in
      let values : (i : ℕ) → i < p.size → (filled (r + i)).1 ≡ value_at p i =
        λ i l. ap (λ x. x.1) (back i l) ∙ ground arith in
      let keys : (i : ℕ) → i < p.size - 1 → (filled (r + 1 + i)).0 ≡ key_at p (1 + i) = λ i l.
        ap (λ n. (filled n).0) (let turn : r + 1 + i ≡ r + (1 + i) = omega arith in turn)
        ∙ ap (λ x. x.0) (back (1 + i) (omega (arith, l)))
        ∙ ground arith in
      let middle : (filled r).0 ≡ middle_key =
        ap (λ n. (filled n).0) (let turn : r ≡ r + 0 = omega arith in turn)
        ∙ ap (λ x. x.0) (back 0 (omega (arith, h))) in
      (
        run-append 0 r p.size r (r + p.size) (λ i. (filled i).1) (omega arith) refl ∙ (λ t.
            run-ext_same r (λ i. (filled i).1) (λ i. value_at recipient i)
              (λ i l. ap (λ x. x.1) (front i l)) t
            ++ run-ext_start r p.size (λ i. (filled i).1) (λ i. value_at p i) values t),
        run-append 1 (r - 1) (suc (p.size - 1)) r (r + p.size - 1) (λ i. (filled i).0)
              (omega (arith, k)) (omega (arith, h, k))
            ∙ (λ t.
                run-ext 1 1 (r - 1) (λ i. (filled i).0) (λ i. key_at recipient i)
                  (λ i l. ap (λ x. x.0) (front (1 + i) (omega (arith, l)))) t
                ++ (middle t
                    ∷ run-ext (r + 1) 1 (p.size - 1) (λ i. (filled i).0) (λ i. key_at p i) keys t)),
        refl,
      )

  -- `MoveFirstToEndOf`, from a page of two children or more to a page with children, takes the first
  -- child and appends it to the recipient behind the given key; the first separator of the page is
  -- left in its slot 0, for the parent to take.
  pub move_first_to_end_of-children :
      (p recipient : Internal K) (middle_key : K)
      → 2 ≤ p.size
      → recipient.size ≢ 0
      → (c : ℕ) × (p_after : Internal K) × (recipient_after : Internal K) × (move_first_to_end_of p
            recipient middle_key
          ≡ some (p_after, recipient_after))
        × (children p ≡ c ∷ children p_after)
        × (children recipient_after ≡ children recipient ++ (c ∷ []))
        × (separators p ≡ key_at p_after 0 ∷ separators p_after)
        × (separators recipient_after ≡ separators recipient ++ (middle_key ∷ []))
  unfolding children separators move_first_to_end_of run
  move_first_to_end_of-children p recipient middle_key h k =
      let r : ℕ = recipient.size in
      let n : ℕ = p.size - 2 in
      let shifted : ℕ → K × ℕ = shift_down 0 (p.size - 1) p.array in
      let moved : (i : ℕ) → i < p.size - 1 → p.array (i + 1) ≡ shifted i =
        λ i l. ground (arith, shift_down_lem 0 (p.size - 1) i p.array, l) in
      let filled : ℕ → K × ℕ = update recipient.array r (middle_key, value_at p 0) in
      let front : (i : ℕ) → i < r → filled i ≡ recipient.array i = λ i l. ground (arith, l) in
      let last : filled r ≡ (middle_key, value_at p 0) = ground arith in
      (
        value_at p 0,
        record p { size = p.size - 1; array = shifted },
        record recipient { size = r + 1; array = filled },
        rw (==-ne p.size 0 (λ e. omega (arith, e, h))) refl,
        ap (λ m. run 0 m (λ i. value_at p i))
              (let whole : p.size ≡ suc (p.size - 1) = omega (arith, h) in whole)
            ∙ ap (λ xs. value_at p 0 ∷ xs)
                (run-ext_start 1 (p.size - 1) (λ i. value_at p i) (λ i. (shifted i).1)
                  (λ i l. ground (arith, moved i l))),
        run-append 0 r 1 r (r + 1) (λ i. (filled i).1) (omega arith) refl ∙ (λ t.
            run-ext_same r (λ i. (filled i).1) (λ i. value_at recipient i)
              (λ i l. ap (λ x. x.1) (front i l)) t
            ++ ((last t).1 ∷ [])),
        ap (λ m. run 1 m (λ i. key_at p i))
              (let whole : p.size - 1 ≡ suc n = omega (arith, h) in whole)
            ∙ (λ t.
                (moved 0 (omega (arith, h)) t).0
                ∷ run-ext 2 1 n (λ i. key_at p i) (λ i. (shifted i).0)
                    (λ i l. ground (arith, moved (1 + i) (omega (arith, l)))) t)
            ∙ ap (λ m. (shifted 0).0 ∷ run 1 m (λ i. (shifted i).0))
                (let whole : n ≡ p.size - 1 - 1 = omega (arith, h) in whole),
        run-append 1 (r - 1) 1 r (r + 1 - 1) (λ i. (filled i).0) (omega (arith, k))
              (omega (arith, k))
            ∙ (λ t.
                run-ext 1 1 (r - 1) (λ i. (filled i).0) (λ i. key_at recipient i)
                  (λ i l. ap (λ x. x.0) (front (1 + i) (omega (arith, l)))) t
                ++ ((last t).0 ∷ [])),
      )

  -- `MoveLastToFrontOf`, from a page of two children or more to a page with children, takes the last
  -- child and puts it before those of the recipient, with the given key behind it. The separator
  -- before the last child leaves the page, but slot 0 of the recipient, where the parent's new
  -- separator is read from, keeps the key that it had.
  pub move_last_to_front_of-children :
      (p recipient : Internal K) (middle_key : K)
      → 2 ≤ p.size
      → recipient.size ≢ 0
      → (c : ℕ) × (p_after : Internal K) × (recipient_after : Internal K) × (move_last_to_front_of p
            recipient middle_key
          ≡ some (p_after, recipient_after))
        × (children p ≡ children p_after ++ (c ∷ []))
        × (children recipient_after ≡ c ∷ children recipient)
        × (separators p ≡ separators p_after ++ (key_at p (p.size - 1) ∷ []))
        × (separators recipient_after ≡ middle_key ∷ separators recipient)
        × (key_at recipient_after 0 ≡ key_at recipient 0)
  unfolding children separators move_last_to_front_of run
  move_last_to_front_of-children p recipient middle_key h k =
      let r : ℕ = recipient.size in
      let n : ℕ = p.size - 1 in
      let shifted : ℕ → K × ℕ = shift_up 0 r recipient.array in
      let filled : ℕ → K × ℕ = with_key (with_value shifted 0 (value_at p n)) 1 middle_key in
      let moved : (i : ℕ) → i < r → shifted (1 + i) ≡ recipient.array i =
        λ i l. ground (arith, shift_up_lem 0 r (1 + i) recipient.array, l) in
      let kept : shifted 0 ≡ recipient.array 0 =
        ground (arith, shift_up_lem 0 r 0 recipient.array) in
      let values : (i : ℕ) → i < r → (filled (1 + i)).1 ≡ value_at recipient i =
        λ i l. ground (arith, moved i l) in
      let keys : (i : ℕ) → i < r - 1 → (filled (2 + i)).0 ≡ key_at recipient (1 + i) =
        λ i l. ground (arith, moved (1 + i) (omega (arith, l))) in
      (
        value_at p n,
        record p { size = n },
        record recipient { size = r + 1; array = filled },
        rw (==-ne p.size 0 (λ e. omega (arith, e, h))) refl,
        run-append 0 n 1 n p.size (λ i. value_at p i) (omega arith) (omega (arith, h)),
        ap (λ m. run 0 m (λ i. (filled i).1)) (let whole : r + 1 ≡ suc r = omega arith in whole)
            ∙ ap (λ xs. value_at p n ∷ xs)
                (run-ext_start 1 r (λ i. (filled i).1) (λ i. value_at recipient i) values),
        run-append 1 (n - 1) 1 n (p.size - 1) (λ i. key_at p i) (omega (arith, h))
            (omega (arith, h)),
        ap (λ m. run 1 m (λ i. (filled i).0))
              (let whole : r + 1 - 1 ≡ suc (r - 1) = omega (arith, k) in whole)
            ∙ ap (λ xs. middle_key ∷ xs)
                (run-ext 2 1 (r - 1) (λ i. (filled i).0) (λ i. key_at recipient i) keys),
        ap (λ x. x.0) kept,
      )
