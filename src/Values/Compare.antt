-- ===== src/Values/Compare.antt =====
-- The six comparisons of `Value` agree with one total order on values of one type.
use one_base.Base.{
  ℕ, ◌+◌, ◌%◌, ◌<◌, ◌≡◌, ◌↔◌, ◌⊎◌, inl, inr, refl, sym, ap, ◌∙◌, ltb, Bool, true, false, not, List,
  [], ◌∷◌, arith, ◌&&◌, Bool-cases, u32_mod, ℤ, ltb_ℤ, signed,
}
use one_base.Values.{
  integer, varchar, Value, ok, boolean_value, string_lt, string_eq, Floats, ordered, equated, eq_ℤ,
  compare_less_than, compare_greater_than, compare_less_than_or_equal,
  compare_greater_than_or_equal, compare_equals, compare_not_equals,
}

-- Where the first of two values stands.
pub data Place : Type 0 where
  before same behind : Place

abbrev pub is_before : Place → Bool
is_before before = true
is_before _ = false

abbrev pub is_same : Place → Bool
is_same same = true
is_same _ = false

abbrev pub is_behind : Place → Bool
is_behind behind = true
is_behind _ = false

-- The order of strings: the end of a string stands before any byte, and the first bytes that differ
-- decide.
pub data Lex : List ℕ → List ℕ → Type 0 where
  shorter : (y : ℕ) (ys : List ℕ) → Lex [] (y ∷ ys)
  smaller : (x y : ℕ) (xs ys : List ℕ) → x < y → Lex (x ∷ xs) (y ∷ ys)
  further : (x y : ℕ) (xs ys : List ℕ) → x ≡ y → Lex xs ys → Lex (x ∷ xs) (y ∷ ys)

-- The first pattern is that of the smaller `int32_t`.
abbrev pub BitsPrecede : ℕ → ℕ → Type 0
BitsPrecede x y = (x + 2147483648) % u32_mod < (y + 2147483648) % u32_mod

-- The order of two values of one type.
abbrev pub Precedes : Value → Value → Type 0
Precedes v o =
    ((v.type_id ≡ integer) × BitsPrecede v.bits o.bits)
    ⊎ ((v.type_id ≡ varchar) × Lex v.varchar_bytes o.varchar_bytes)

-- The test puts two items in one place.
record Placed {A : Type 0} (lt : A → A → Bool) (a b : A) (place : Place) : Type 0 where
  forward : lt a b ≡ is_before place
  backward : lt b a ≡ is_behind place
  equal : (place ≡ same) ↔ (a ≡ b)

module _ {A : Type 0} (lt : A → A → Bool) (a b : A) where
  placed :
      lt a a ≡ false
      → (lt a b ≡ true → lt b a ≡ false)
      → (lt a b ≡ false → lt b a ≡ false → a ≡ b)
      → (c : Place) × Placed lt a b c
  placed irreflexive asymmetric connected = elim (Bool-cases (lt a b)) [
    | inl less ↦ (
      before,
      record {
        forward = less;
        backward = asymmetric less;
        equal = (λ e. absurd cc, λ e. absurd cc);
      },
    )
    | inr not_less ↦ elim (Bool-cases (lt b a)) [
      | inl more ↦ (
        behind,
        record { forward = not_less; backward = more; equal = (λ e. absurd cc, λ e. absurd cc) },
      )
      | inr not_more ↦ (
        same,
        record {
          forward = not_less;
          backward = not_more;
          equal = (λ _. connected not_less not_more, λ _. refl);
        },
      )
    ]
  ]

abbrev pub bits_lt : ℕ → ℕ → Bool
bits_lt x y = ltb_ℤ (signed x) (signed y)

place_bits : (a b : ℕ) → a < u32_mod → b < u32_mod → (c : Place) × Placed bits_lt a b c
unfolding signed
place_bits a b h k = placed bits_lt a b (ground arith) (λ e. ground arith) (λ e f. ground arith)

string_lt-irreflexive : (s : List ℕ) → string_lt s s ≡ false
unfolding string_lt
string_lt-irreflexive [] = refl
string_lt-irreflexive (x ∷ xs) = ground (arith, string_lt-irreflexive xs)

string_lt-asymmetric : (s t : List ℕ) → string_lt s t ≡ true → string_lt t s ≡ false
unfolding string_lt
string_lt-asymmetric [] [] h = refl
string_lt-asymmetric [] (y ∷ ys) h = refl
string_lt-asymmetric (x ∷ xs) [] h = cc
string_lt-asymmetric (x ∷ xs) (y ∷ ys) h = ground (arith, string_lt-asymmetric xs ys)

string_lt-connected : (s t : List ℕ) → string_lt s t ≡ false → string_lt t s ≡ false → s ≡ t
unfolding string_lt
string_lt-connected [] [] h k = refl
string_lt-connected [] (y ∷ ys) h k = cc
string_lt-connected (x ∷ xs) [] h k = cc
string_lt-connected (x ∷ xs) (y ∷ ys) h k =
    let head : x ≡ y = ground arith in
    let tail : xs ≡ ys = string_lt-connected xs ys (ground arith) (ground arith) in
    λ i. head i ∷ tail i

string_lt-Lex : (s t : List ℕ) → string_lt s t ≡ true → Lex s t
unfolding string_lt
string_lt-Lex [] [] h = absurd cc
string_lt-Lex [] (y ∷ ys) h = shorter y ys
string_lt-Lex (x ∷ xs) [] h = absurd cc
string_lt-Lex (x ∷ xs) (y ∷ ys) h = elim (Bool-cases (ltb x y)) [
  | inl less ↦ smaller x y xs ys (ground (arith, less))
  | inr not_less ↦
      further x y xs ys (ground (arith, h, not_less))
        (string_lt-Lex xs ys (ground (arith, h, not_less)))
]

Lex-string_lt : (s t : List ℕ) → Lex s t → string_lt s t ≡ true
unfolding string_lt
Lex-string_lt _ _ (shorter y ys) = refl
Lex-string_lt _ _ (smaller x y xs ys less) = ground (arith, less)
Lex-string_lt _ _ (further x y xs ys e l) = ground (arith, e, Lex-string_lt xs ys l)

string_lt-transitive :
    (s t u : List ℕ) → string_lt s t ≡ true → string_lt t u ≡ true → string_lt s u ≡ true
unfolding string_lt
string_lt-transitive [] [] u h k = k
string_lt-transitive [] (y ∷ ys) [] h k = absurd cc
string_lt-transitive [] (y ∷ ys) (z ∷ zs) h k = refl
string_lt-transitive (x ∷ xs) [] u h k = absurd cc
string_lt-transitive (x ∷ xs) (y ∷ ys) [] h k = absurd cc
string_lt-transitive (x ∷ xs) (y ∷ ys) (z ∷ zs) h k = ground (arith, string_lt-transitive xs ys zs)

bits-BitsPrecede :
    (x y : ℕ)
    → x < u32_mod
    → y < u32_mod
    → (bits_lt x y ≡ true → BitsPrecede x y) × (BitsPrecede x y → bits_lt x y ≡ true)
unfolding signed
bits-BitsPrecede x y h k = (λ e. ground arith, λ e. ground arith)

is_before-eq : (c : Place) → is_before c ≡ true → c ≡ before
is_before-eq before h = refl
is_before-eq same h = absurd cc
is_before-eq behind h = absurd cc

is_behind-eq : (c : Place) → is_behind c ≡ true → c ≡ behind
is_behind-eq before h = absurd cc
is_behind-eq same h = absurd cc
is_behind-eq behind h = refl

-- Transitive in a chain that starts with two values of one type.
Precedes-transitive :
    (v o w : Value) → v.type_id ≡ o.type_id → Precedes v o → Precedes o w → Precedes v w
Precedes-transitive v o w t (inl (tv, h)) (inl (to, k)) = inl (tv, omega (arith, h, k))
Precedes-transitive v o w t (inl (tv, h)) (inr (to, k)) = absurd cc
Precedes-transitive v o w t (inr (tv, h)) (inl (to, k)) = absurd cc
Precedes-transitive v o w t (inr (tv, h)) (inr (to, k)) = inr (
  tv,
  string_lt-Lex _ _ (
      string_lt-transitive v.varchar_bytes o.varchar_bytes w.varchar_bytes (Lex-string_lt _ _ h)
        (Lex-string_lt _ _ k)),
)

string_eq-order : (s t : List ℕ) → string_eq s t ≡ not (string_lt s t) && not (string_lt t s)
unfolding string_lt string_eq
string_eq-order [] [] = refl
string_eq-order [] (y ∷ ys) = refl
string_eq-order (x ∷ xs) [] = refl
string_eq-order (x ∷ xs) (y ∷ ys) = ground (arith, string_eq-order xs ys)

-- The data of two values of one type are equal.
abbrev pub SameData : Value → Value → Type 0
SameData v o =
    ((v.type_id ≡ integer) × (v.bits ≡ o.bits))
    ⊎ ((v.type_id ≡ varchar) × (v.varchar_bytes ≡ o.varchar_bytes))

-- The answers of the six comparisons to `v` and `o` are those of two items in this place, and the
-- place is that of the values in their order.
pub record Agrees (fp : Floats) (v o : Value) (place : Place) : Type 0 where
  pub less : compare_less_than fp v o ≡ ok (boolean_value (is_before place))
  pub greater : compare_greater_than fp v o ≡ ok (boolean_value (is_behind place))
  pub at_most : compare_less_than_or_equal fp v o ≡ ok (boolean_value (not (is_behind place)))
  pub at_least : compare_greater_than_or_equal fp v o ≡ ok (boolean_value (not (is_before place)))
  pub equals : compare_equals fp v o ≡ ok (boolean_value (is_same place))
  pub differs : compare_not_equals fp v o ≡ ok (boolean_value (not (is_same place)))
  pub reversed : compare_less_than fp o v ≡ ok (boolean_value (is_behind place))
  pub comes_before : (place ≡ before) ↔ Precedes v o
  pub comes_behind : (place ≡ behind) ↔ Precedes o v
  pub same_data : (place ≡ same) ↔ SameData v o

-- A switch at values of type INTEGER, and of type VARCHAR.
module _ (v o : Value) where
  ordered-integer :
      (i : ℤ → ℤ → Bool) (f : ℕ → ℕ → Bool) (s : List ℕ → List ℕ → Bool)
      → v.type_id ≡ integer
      → o.type_id ≡ integer
      → ordered i f s v o ≡ ok (boolean_value (i (signed v.bits) (signed o.bits)))
  unfolding ordered
  ordered-integer i f s h k = rw (h, k) refl

  ordered-varchar :
      (i : ℤ → ℤ → Bool) (f : ℕ → ℕ → Bool) (s : List ℕ → List ℕ → Bool)
      → v.type_id ≡ varchar
      → o.type_id ≡ varchar
      → ordered i f s v o ≡ ok (boolean_value (s v.varchar_bytes o.varchar_bytes))
  unfolding ordered
  ordered-varchar i f s h k = rw (h, k) refl

  equated-integer :
      (i : ℤ → ℤ → Bool) (f : ℕ → ℕ → Bool) (b : Bool → Bool → Bool) (s : List ℕ → List ℕ → Bool)
      → v.type_id ≡ integer
      → o.type_id ≡ integer
      → equated i f b s v o ≡ ok (boolean_value (i (signed v.bits) (signed o.bits)))
  unfolding equated
  equated-integer i f b s h k = rw (h, k) refl

  equated-varchar :
      (i : ℤ → ℤ → Bool) (f : ℕ → ℕ → Bool) (b : Bool → Bool → Bool) (s : List ℕ → List ℕ → Bool)
      → v.type_id ≡ varchar
      → o.type_id ≡ varchar
      → equated i f b s v o ≡ ok (boolean_value (s v.varchar_bytes o.varchar_bytes))
  unfolding equated
  equated-varchar i f b s h k = rw (h, k) refl

said : {a b : Bool} → a ≡ b → ok (boolean_value a) ≡ ok (boolean_value b)
said h = λ t. ok (boolean_value (h t))

not_said : {a b : Bool} → a ≡ b → ok (boolean_value (not a)) ≡ ok (boolean_value (not b))
not_said h = λ t. ok (boolean_value (not (h t)))

same_or : (c : Place) → (not (is_before c) && not (is_behind c)) ≡ is_same c
same_or before = refl
same_or same = refl
same_or behind = refl

compare-integers :
    (fp : Floats) (v o : Value)
    → v.bits < u32_mod
    → o.bits < u32_mod
    → v.type_id ≡ integer
    → o.type_id ≡ integer
    → (place : Place) × Agrees fp v o place
compare-integers fp v o wv wo tv to =
    let (c, p) = place_bits v.bits o.bits wv wo in
    let eq : eq_ℤ (signed v.bits) (signed o.bits) ≡ is_same c =
      (λ t. not (p.forward t) && not (p.backward t)) ∙ same_or c in
    (
      c,
      record {
        less = ordered-integer v o _ _ _ tv to ∙ said p.forward;
        greater = ordered-integer v o _ _ _ tv to ∙ said p.backward;
        at_most = ordered-integer v o _ _ _ tv to ∙ not_said p.backward;
        at_least = ordered-integer v o _ _ _ tv to ∙ not_said p.forward;
        equals = equated-integer v o _ _ _ _ tv to ∙ said eq;
        differs = equated-integer v o _ _ _ _ tv to ∙ not_said eq;
        reversed = ordered-integer o v _ _ _ to tv ∙ said p.backward;
        comes_before = (
          λ e. inl (tv, (bits-BitsPrecede _ _ wv wo).0 (p.forward ∙ ap is_before e)),
          λ d. elim d [
            | inl (_, l) ↦ is_before-eq c (sym p.forward ∙ (bits-BitsPrecede _ _ wv wo).1 l)
            | inr (t, _) ↦ absurd cc
          ],
        );
        comes_behind = (
          λ e. inl (to, (bits-BitsPrecede _ _ wo wv).0 (p.backward ∙ ap is_behind e)),
          λ d. elim d [
            | inl (_, l) ↦ is_behind-eq c (sym p.backward ∙ (bits-BitsPrecede _ _ wo wv).1 l)
            | inr (t, _) ↦ absurd cc
          ],
        );
        same_data = (
          λ e. inl (tv, p.equal.0 e),
          λ d. elim d [ inl (_, e) ↦ p.equal.1 e | inr (t, _) ↦ absurd cc ],
        );
      },
    )

compare-strings :
    (fp : Floats) (v o : Value)
    → v.type_id ≡ varchar
    → o.type_id ≡ varchar
    → (place : Place) × Agrees fp v o place
compare-strings fp v o tv to =
    let s = v.varchar_bytes in
    let t = o.varchar_bytes in
    let (c, p) =
      placed string_lt s t (string_lt-irreflexive s) (string_lt-asymmetric s t)
        (string_lt-connected s t) in
    let eq : string_eq s t ≡ is_same c =
      string_eq-order s t ∙ (λ i. not (p.forward i) && not (p.backward i)) ∙ same_or c in
    (
      c,
      record {
        less = ordered-varchar v o _ _ _ tv to ∙ said p.forward;
        greater = ordered-varchar v o _ _ _ tv to ∙ said p.backward;
        at_most = ordered-varchar v o _ _ _ tv to ∙ not_said p.backward;
        at_least = ordered-varchar v o _ _ _ tv to ∙ not_said p.forward;
        equals = equated-varchar v o _ _ _ _ tv to ∙ said eq;
        differs = equated-varchar v o _ _ _ _ tv to ∙ not_said eq;
        reversed = ordered-varchar o v _ _ _ to tv ∙ said p.backward;
        comes_before = (
          λ e. inr (tv, string_lt-Lex s t (p.forward ∙ ap is_before e)),
          λ d. elim d [
            | inl (k, _) ↦ absurd cc
            | inr (_, l) ↦ is_before-eq c (sym p.forward ∙ Lex-string_lt s t l)
          ],
        );
        comes_behind = (
          λ e. inr (to, string_lt-Lex t s (p.backward ∙ ap is_behind e)),
          λ d. elim d [
            | inl (k, _) ↦ absurd cc
            | inr (_, l) ↦ is_behind-eq c (sym p.backward ∙ Lex-string_lt t s l)
          ],
        );
        same_data = (
          λ e. inr (tv, p.equal.0 e),
          λ d. elim d [ inl (k, _) ↦ absurd cc | inr (_, e) ↦ p.equal.1 e ],
        );
      },
    )

-- Two INTEGER values, or two VARCHAR values, stand in one of three places to each other: `before`
-- exactly when the first is the smaller `int32_t` or the lexicographically smaller string, `behind`
-- exactly when the second is, `same` exactly when the data are equal. All six comparisons give the
-- answers of that place, `<` in both directions, and the order is transitive.
pub compare-Agrees :
    (fp : Floats) (v o : Value)
    → v.bits < u32_mod
    → o.bits < u32_mod
    → (v.type_id ≡ integer) ⊎ (v.type_id ≡ varchar)
    → v.type_id ≡ o.type_id
    → ((place : Place) × Agrees fp v o place)
      × ((w : Value) → Precedes v o → Precedes o w → Precedes v w)
compare-Agrees fp v o wv wo (inl t) same_type =
    (compare-integers fp v o wv wo t (sym same_type ∙ t), λ w. Precedes-transitive v o w same_type)
compare-Agrees fp v o wv wo (inr t) same_type =
    (compare-strings fp v o t (sym same_type ∙ t), λ w. Precedes-transitive v o w same_type)
