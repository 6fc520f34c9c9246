-- ===== src/Base/Lists.antt =====
-- Lists measured by native numbers, and predicates on their elements.
use Prim.Native.Nat.{ℕ, zero, suc, ◌+◌}
use mathlib.Core.Path.{◌≡◌, refl, subst, sym}
use mathlib.Core.Logic.{◌≢◌}
use mathlib.Core.Option.{Option, none, some}
use mathlib.Core.List.{List, [], ◌∷◌, ◌++◌, Memᴰ}
use native.Mathlib.Omega.{arith}

module _ {ℓ} {A : Type ℓ} where
  abbrev pub length : List A → ℕ
  length [] = 0
  length (x ∷ xs) = suc (length xs)

  pub length-append : (xs ys : List A) → length (xs ++ ys) ≡ length xs + length ys
  length-append [] ys = omega arith
  length-append (x ∷ xs) ys = omega (arith, length-append xs ys)

-- A predicate of every element, computed to a tuple.
abbrev pub All {ℓ κ} : {Item : Type ℓ} (Good : Item → Type κ) → List Item → Type κ
All Good [] = Unit
All Good (item ∷ items) = Good item × All Good items

pub All-Memᴰ {ℓ κ} :
    {A : Type ℓ} (P : A → Type κ) {a : A} {xs : List A} → Memᴰ a xs → All P xs → P a
All-Memᴰ P (Memᴰ.head e) h = subst P (sym e) h.0
All-Memᴰ P (Memᴰ.tail m) h = All-Memᴰ P m h.1

unfoldable pub take {ℓ} : {A : Type ℓ} → ℕ → List A → List A
take zero xs = []
take (suc n) [] = []
take (suc n) (x ∷ xs) = x ∷ take n xs

unfoldable pub get_elem? {ℓ} : {A : Type ℓ} → List A → ℕ → Option A
get_elem? [] i = none
get_elem? (x ∷ xs) zero = some x
get_elem? (x ∷ xs) (suc i) = get_elem? xs i

pub get_elem?-nil : {A : Type 0} (i : ℕ) {v : A} → get_elem? [] i ≢ some v
unfolding get_elem?
get_elem?-nil i e = cc

pub get_elem?-zero : {A : Type 0} {x v : A} (xs : List A) → get_elem? (x ∷ xs) 0 ≡ some v → x ≡ v
unfolding get_elem?
get_elem?-zero xs e = cc

pub get_elem?-suc :
    {A : Type 0} (x : A) (xs : List A) (i : ℕ) → get_elem? (x ∷ xs) (suc i) ≡ get_elem? xs i
unfolding get_elem?
get_elem?-suc x xs i = refl
