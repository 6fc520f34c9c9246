-- ===== src/Storage/Leaf/Moves.antt =====
-- The moves of entries between two leaf pages, as operations on the lists of their entries.
use one_base.Base.{
  ℕ, suc, ◌+◌, ◌-◌, ◌/◌, ◌≤◌, ◌≡◌, ◌≢◌, refl, ap, ◌∙◌, some, List, [], ◌∷◌, ◌++◌, arith, update,
  ==-ne,
}
use one_base.Storage.Slots.{
  shift_up, shift_down, copy, run, shift_up_lem, shift_down_lem, copy_lem, run-ext, run-append,
}
use one_base.Storage.Leaf.{
  Leaf, move_half_to, move_all_to, move_first_to_end_of, move_last_to_front_of,
}

module _ {K V : Type 0} where
  -- The entries of a page, in order.
  unfoldable pub entries : Leaf K V → List (K × V)
  unfolding run
  entries p = run 0 p.size p.array

  -- `MoveHalfTo` keeps the first half of the entries in the page and puts the others, in order, in
  -- the recipient, whose own entries it overwrites; the recipient gets as many as stay, or one more.
  pub move_half_to-entries :
      (p recipient : Leaf K V)
      → (entries p ≡ entries (move_half_to p recipient).0 ++ entries (move_half_to p recipient).1)
        × ((move_half_to p recipient).0.size ≤ (move_half_to p recipient).1.size)
        × ((move_half_to p recipient).1.size ≤ (move_half_to p recipient).0.size + 1)
  unfolding entries move_half_to
  move_half_to-entries p recipient = (
    run-append 0 (p.size / 2) (p.size - p.size / 2) (p.size / 2) p.size p.array (omega arith)
          (omega arith)
        ∙ ap (λ xs. run 0 (p.size / 2) p.array ++ xs)
            (run-ext (p.size / 2) 0 (p.size - p.size / 2) p.array
              (copy p.array (p.size / 2) 0 (p.size - p.size / 2) recipient.array)
              (λ i h. ground (
                arith,
                copy_lem p.array (p.size / 2) 0 (p.size - p.size / 2) i recipient.array,
                h,
              ))),
    omega arith,
    omega arith,
  )

  -- `MoveAllTo` appends the entries of the page to those of the recipient and leaves the page empty.
  pub move_all_to-entries :
      (p recipient : Leaf K V)
      → (entries (move_all_to p recipient).1 ≡ entries recipient ++ entries p)
        × (entries (move_all_to p recipient).0 ≡ [])
  unfolding entries move_all_to
  move_all_to-entries p recipient =
      let moved : ℕ → K × V = copy p.array 0 recipient.size p.size recipient.array in
      let front : run 0 recipient.size moved ≡ run 0 recipient.size recipient.array =
        run-ext 0 0 recipient.size moved recipient.array
          (λ i h. ground (arith, copy_lem p.array 0 recipient.size p.size i recipient.array, h)) in
      let back : run (recipient.size) p.size moved ≡ run 0 p.size p.array =
        run-ext (recipient.size) 0 p.size moved p.array (λ i h. ground (
          arith,
          copy_lem p.array 0 recipient.size p.size (recipient.size + i) recipient.array,
          h,
        )) in
      (
        run-append 0 recipient.size p.size recipient.size (recipient.size + p.size) moved
              (omega arith) refl
            ∙ (λ i. front i ++ back i),
        refl,
      )

  -- `MoveFirstToEndOf`, on a page that is not empty, takes its first entry and appends it to the
  -- recipient.
  pub move_first_to_end_of-entries :
      (p recipient : Leaf K V)
      → p.size ≢ 0
      → (e : K × V) × (p_after : Leaf K V) × (recipient_after : Leaf K V) × (move_first_to_end_of p
            recipient
          ≡ some (p_after, recipient_after))
        × (entries p ≡ e ∷ entries p_after)
        × (entries recipient_after ≡ entries recipient ++ (e ∷ []))
  unfolding entries move_first_to_end_of run
  move_first_to_end_of-entries p recipient h =
      let n : ℕ = p.size - 1 in
      let whole : p.size ≡ suc n = omega (arith, h) in
      let filled : ℕ → K × V = update recipient.array recipient.size (p.array 0) in
      (
        p.array 0,
        record p { size = n; array = shift_down 0 n p.array },
        record recipient { size = recipient.size + 1; array = filled },
        rw (==-ne p.size 0 h) refl,
        ap (λ k. run 0 k p.array) whole
            ∙ ap (λ xs. p.array 0 ∷ xs)
                (run-ext 1 0 n p.array (shift_down 0 n p.array)
                  (λ i k. ground (arith, shift_down_lem 0 n i p.array, k))),
        run-append 0 recipient.size 1 recipient.size (recipient.size + 1) filled (omega arith) refl
            ∙ (let front : run 0 recipient.size filled ≡ run 0 recipient.size recipient.array =
                  run-ext 0 0 recipient.size filled recipient.array (λ i k. ground (arith, k)) in
                let back : run (recipient.size) 1 filled ≡ (p.array 0 ∷ []) = ground arith in
                λ i. front i ++ back i),
      )

  -- `MoveLastToFrontOf`, on a page that is not empty, takes its last entry and puts it before those
  -- of the recipient.
  pub move_last_to_front_of-entries :
      (p recipient : Leaf K V)
      → p.size ≢ 0
      → (e : K × V) × (p_after : Leaf K V) × (recipient_after : Leaf K V) × (move_last_to_front_of p
            recipient
          ≡ some (p_after, recipient_after))
        × (entries p ≡ entries p_after ++ (e ∷ []))
        × (entries recipient_after ≡ e ∷ entries recipient)
  unfolding entries move_last_to_front_of run
  move_last_to_front_of-entries p recipient h =
      let n : ℕ = p.size - 1 in
      let whole : p.size ≡ n + 1 = omega (arith, h) in
      let moved : ℕ → K × V = update (shift_up 0 recipient.size recipient.array) 0 (p.array n) in
      (
        p.array n,
        record p { size = n },
        record recipient { size = recipient.size + 1; array = moved },
        rw (==-ne p.size 0 h) refl,
        run-append 0 n 1 n p.size p.array (omega arith) whole,
        ap (λ k. run 0 k moved)
              (let up : recipient.size + 1 ≡ suc recipient.size = omega arith in up)
            ∙ ap (λ xs. p.array n ∷ xs)
                (run-ext 1 0 recipient.size moved recipient.array (λ i k.
                  ground (arith, shift_up_lem 0 recipient.size (1 + i) recipient.array, k))),
      )
