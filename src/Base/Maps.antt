-- ===== src/Base/Maps.antt =====
-- Maps from numbers: association lists for the hash maps that the code walks, and functions for
-- arrays.
use Prim.Native.Nat.{ℕ, suc, ◌≤◌}
use mathlib.Core.Path.{◌≡◌, refl, sym, subst}
use mathlib.Core.Logic.{inl, inr}
use mathlib.Core.List.{List, [], ◌∷◌}
use mathlib.Core.Option.{Option, none, some}
use native.Mathlib.Omega.{arith}
use one_base.Base.Tests.{◌==◌, if◌then◌else◌, Bool-cases, ==→eq}
use one_base.Base.Lists.{length, All}

module _ {ℓ} {V : Type ℓ} where
  -- `a[i] = v`.
  abbrev pub update : (ℕ → V) → ℕ → V → ℕ → V
  update f i v j = if i == j then v else f j

  unfoldable pub lookup : ℕ → List (ℕ × V) → Option V
  lookup k [] = none
  lookup k ((j, v) ∷ m) = if j == k then some v else lookup k m

  -- `m[k] = v`: the value is replaced in place, and a new key enters at the end.
  unfoldable pub insert : ℕ → V → List (ℕ × V) → List (ℕ × V)
  insert k v [] = (k, v) ∷ []
  insert k v ((j, w) ∷ m) = if j == k then (j, v) ∷ m else (j, w) ∷ insert k v m

  -- `m.erase(k)`.
  unfoldable pub erase : ℕ → List (ℕ × V) → List (ℕ × V)
  erase k [] = []
  erase k ((j, w) ∷ m) = let rest = erase k m in if j == k then rest else (j, w) ∷ rest

  pub lookup-insert :
      (key at : ℕ) (new : V) (entries : List (ℕ × V))
      → lookup at (insert key new entries) ≡ (if key == at then some new else lookup at entries)
  unfolding lookup insert
  lookup-insert key at new [] = refl
  lookup-insert key at new ((first, old) ∷ entries) =
      ground (lookup-insert key at new entries, arith)

  pub lookup-erase :
      (k j : ℕ) (m : List (ℕ × V)) → lookup j (erase k m) ≡ (if k == j then none else lookup j m)
  unfolding lookup erase
  lookup-erase k j [] = ground arith
  lookup-erase k j ((i, w) ∷ m) = ground (arith, lookup-erase k j m)

  -- No key stands twice.
  abbrev pub Distinct : List (ℕ × V) → Type ℓ
  Distinct [] = Unit
  Distinct ((j, w) ∷ m) = (lookup j m ≡ none) × Distinct m

  pub Distinct-insert : (k : ℕ) (v : V) (m : List (ℕ × V)) → Distinct m → Distinct (insert k v m)
  unfolding insert lookup
  Distinct-insert k v [] d = (refl, tt)
  Distinct-insert k v ((j, w) ∷ m) d =
      ground (arith, lookup-insert k j v m, Distinct-insert k v m d.1)

  pub Distinct-erase : (k : ℕ) (m : List (ℕ × V)) → Distinct m → Distinct (erase k m)
  unfolding erase lookup
  Distinct-erase k [] d = tt
  Distinct-erase k ((j, w) ∷ m) d = ground (arith, lookup-erase k j m, Distinct-erase k m d.1)

  pub length-insert-le : (k : ℕ) (v : V) (m : List (ℕ × V)) → length (insert k v m) ≤ suc (length m)
  unfolding insert
  length-insert-le k v [] = omega arith
  length-insert-le k v ((j, w) ∷ m) = ground (arith, length-insert-le k v m)

  pub length-insert_old :
      (k : ℕ) (v w : V) (m : List (ℕ × V)) → lookup k m ≡ some w → length (insert k v m) ≡ length m
  unfolding insert lookup
  length-insert_old k v w [] h = cc
  length-insert_old k v w ((j, x) ∷ m) h = ground (arith, length-insert_old k v w m)

  pub length-erase-le : (k : ℕ) (m : List (ℕ × V)) → length (erase k m) ≤ length m
  unfolding erase
  length-erase-le k [] = omega arith
  length-erase-le k ((j, w) ∷ m) = ground (arith, length-erase-le k m)

module _ {ℓ κ} {V : Type ℓ} (P : (ℕ × V) → Type κ) where
  pub All-lookup : (k : ℕ) {v : V} (m : List (ℕ × V)) → All P m → lookup k m ≡ some v → P (k, v)
  unfolding lookup
  All-lookup k [] a h = cc
  All-lookup k {v} ((j, w) ∷ m) a h = elim (Bool-cases (j == k)) [
    | inl e ↦
        let same : j ≡ k = ==→eq j k e in
        let shown : some w ≡ some v = rw e at h in
        let found : w ≡ v = cc in subst (λ (x : ℕ × V). P x) (λ i. (same i, found i)) a.0
    | inr e ↦ All-lookup k m a.1 (rw e at h)
  ]

  pub All-insert : (k : ℕ) (v : V) (m : List (ℕ × V)) → All P m → P (k, v) → All P (insert k v m)
  unfolding insert
  All-insert k v [] a p = (p, tt)
  All-insert k v ((j, w) ∷ m) a p = elim (Bool-cases (j == k)) [
    | inl e ↦ rw e (subst (λ (x : ℕ). P (x, v)) (sym (==→eq j k e)) p, a.1)
    | inr e ↦ rw e (a.0, All-insert k v m a.1 p)
  ]

  pub All-erase : (k : ℕ) (m : List (ℕ × V)) → All P m → All P (erase k m)
  unfolding erase
  All-erase k [] a = tt
  All-erase k ((j, w) ∷ m) a = elim (Bool-cases (j == k)) [
    | inl e ↦ rw e (All-erase k m a.1)
    | inr e ↦ rw e (a.0, All-erase k m a.1)
  ]
