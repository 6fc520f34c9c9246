-- ===== src/Storage/Slots.antt =====
-- The array of slots behind the header of a page, and the loops that move runs of slots. The array
-- is a function of the index; a loop that counts down or up is a recursion on how many steps it
-- makes.
use one_base.Base.{
  ℕ, zero, suc, ◌+◌, ◌-◌, ◌≤◌, ◌<◌, ◌≡◌, refl, arith, ltb, if◌then◌else◌, update, List, [], ◌∷◌,
  ◌++◌, ap, ◌∙◌, length,
}

module _ {A : Type 0} where
  -- `for (int i = idx + n; i > idx; i--) array_[i] = array_[i - 1];`
  unfoldable pub shift_up : ℕ → ℕ → (ℕ → A) → (ℕ → A)
  shift_up idx zero a = a
  shift_up idx (suc n) a = shift_up idx n (update a (idx + suc n) (a (idx + n)))

  -- `for (int i = idx; i < idx + n; i++) array_[i] = array_[i + 1];`
  unfoldable pub shift_down : ℕ → ℕ → (ℕ → A) → (ℕ → A)
  shift_down idx zero a = a
  shift_down idx (suc n) a = shift_down (idx + 1) n (update a idx (a (idx + 1)))

  -- `for (int i = 0; i < n; i++) target[start + i] = source[from + i];`
  unfoldable pub copy : (ℕ → A) → ℕ → ℕ → ℕ → (ℕ → A) → (ℕ → A)
  copy source from start zero target = target
  copy source from start (suc n) target =
      copy source (from + 1) (start + 1) n (update target start (source from))

  pub shift_up_lem :
      (idx n j : ℕ) (a : ℕ → A)
      → shift_up idx n a j ≡ (if ltb idx j then if ltb (idx + n) j then a j else a (j - 1) else a j)
  unfolding shift_up
  shift_up_lem idx zero j a = ground arith
  shift_up_lem idx (suc n) j a =
      ground (arith, shift_up_lem idx n j (update a (idx + suc n) (a (idx + n))))

  pub shift_down_lem :
      (idx n j : ℕ) (a : ℕ → A)
      → shift_down idx n a j
        ≡ (if ltb j idx then a j else if ltb j (idx + n) then a (j + 1) else a j)
  unfolding shift_down
  shift_down_lem idx zero j a = ground arith
  shift_down_lem idx (suc n) j a =
      ground (arith, shift_down_lem (idx + 1) n j (update a idx (a (idx + 1))))

  pub copy_lem :
      (source : ℕ → A) (from start n j : ℕ) (target : ℕ → A)
      → copy source from start n target j ≡ (
          if ltb j start
          then target j
          else if ltb j (start + n)
          then source (from + (j - start))
          else target j)
  unfolding copy
  copy_lem source from start zero j target = ground arith
  copy_lem source from start (suc n) j target =
      ground (arith, copy_lem source (from + 1) (start + 1) n j (update target start (source from)))

  -- The `n` slots from `from` on, as a list.
  unfoldable pub run : ℕ → ℕ → (ℕ → A) → List A
  run from zero a = []
  run from (suc n) a = a from ∷ run (from + 1) n a

  pub run-ext :
      (from other n : ℕ) (a b : ℕ → A)
      → ((i : ℕ) → i < n → a (from + i) ≡ b (other + i))
      → run from n a ≡ run other n b
  unfolding run
  run-ext from other zero a b h = refl
  run-ext from other (suc n) a b h =
      let first : a from ≡ b other = ground (arith, h 0 (omega arith)) in
      let next : (i : ℕ) → i < n → a (from + 1 + i) ≡ b (other + 1 + i) =
        λ i k. ground (arith, h (i + 1) (omega (arith, k))) in
      let rest = run-ext (from + 1) (other + 1) n a b next in λ t. first t ∷ rest t

  pub run-ext_start :
      (from n : ℕ) (a b : ℕ → A) → ((i : ℕ) → i < n → a (from + i) ≡ b i) → run from n a ≡ run 0 n b
  run-ext_start from n a b h = run-ext from 0 n a b (λ i k. ground (arith, h i k))

  pub run-ext_same : (n : ℕ) (a b : ℕ → A) → ((i : ℕ) → i < n → a i ≡ b i) → run 0 n a ≡ run 0 n b
  run-ext_same n a b h = run-ext 0 0 n a b (λ i k. ground (arith, h i k))

  -- A run falls into its first `m` slots and the `n` behind them, which start at `at`.
  pub run-append :
      (from m n at total : ℕ) (a : ℕ → A)
      → at ≡ from + m
      → total ≡ m + n
      → run from total a ≡ run from m a ++ run at n a
  unfolding run
  run-append from zero n at total a e f =
      let start : from ≡ at = omega (arith, e) in
      let count : total ≡ n = omega (arith, f) in λ t. run (start t) (count t) a
  run-append from (suc m) n at total a e f =
      let start : at ≡ from + 1 + m = omega (arith, e) in
      let count : total ≡ suc (m + n) = omega (arith, f) in
      ap (λ k. run from k a) count
      ∙ ap (λ xs. a from ∷ xs) (run-append (from + 1) m n at (m + n) a start refl)

  -- Where `b` is `a` with one more slot at `slot`, so is a run of `b` from before it.
  pub run_entered :
      (from slot end m n : ℕ) (a b : ℕ → A)
      → from ≤ slot
      → slot ≤ end
      → from + m ≡ end
      → n ≡ m + 1
      → ((i : ℕ) → i < slot → b i ≡ a i)
      → ((i : ℕ) → slot ≤ i → i < end → b (i + 1) ≡ a i)
      → (run from m a ≡ run from (slot - from) a ++ run slot (end - slot) a)
        × (run from n b ≡ run from (slot - from) a ++ (b slot ∷ run slot (end - slot) a))
  unfolding run
  run_entered from slot end m n a b low high ends more same moved =
      let rest : ℕ = end - slot in
      let front : run from (slot - from) b ≡ run from (slot - from) a =
        run-ext from from (slot - from) b a (λ i h. same (from + i) (omega (arith, h))) in
      let shifted : (i : ℕ) → i < rest → b (slot + 1 + i) ≡ a (slot + i) =
        λ i h. ground (arith, moved (slot + i) (omega arith) (omega (arith, h))) in
      let back : run (slot + 1) rest b ≡ run slot rest a =
        run-ext (slot + 1) slot rest b a shifted in
      (
        run-append from (slot - from) rest slot m a (omega (arith, low))
            (omega (arith, low, high, ends)),
        run-append from (slot - from) (suc rest) slot n b (omega (arith, low))
              (omega (arith, low, high, ends, more))
            ∙ (λ t. front t ++ (b slot ∷ back t)),
      )

  pub length-run : (from n : ℕ) (a : ℕ → A) → length (run from n a) ≡ n
  unfolding run
  length-run from zero a = refl
  length-run from (suc n) a = omega (arith, length-run (from + 1) n a)
