-- ===== src/Values/Arithmetic.antt =====
-- The integer arithmetic of `Value` is that of the integers, up to the bounds of `int32_t`.
use one_base.Base.{
  ℕ, suc, ◌+◌, ◌-◌, ◌*◌, ◌/◌, ◌%◌, ◌≤◌, ◌<◌, ◌≡◌, ◌≢◌, inl, inr, refl, sym, ◌∙◌, ◌==◌, ==→eq,
  if◌then◌else◌, Bool, true, false, not, ◌&&◌, arith, Bool-cases, u32_mod, ltb, ℤ, pos, negsuc,
  pos_part, neg_part, ◌+ℤ◌, ◌-ℤ◌, ◌*ℤ◌, signed, pattern, quotient, remainder, fits_i32,
}
use native.Mathlib.Nat.{add-mul, div-add-mod', mod-lt, div-le_self, le_trans}
use one_base.Values.{
  integer, Value, word_value, Result, ok, thrown, undefined, division_by_zero, Floats,
  integer_result, eq_bool, calculated, add, subtract, multiply, divide, modulo,
}

-- The sign bit of a 32-bit pattern, and the distance of its `int32_t` from zero.
abbrev pub sign : ℕ → Bool
sign x = not (ltb x 2147483648)

abbrev pub distance : ℕ → ℕ
distance x = if sign x then u32_mod - x else x

-- The sum, the difference and the product of two patterns, as a register of 32 bits has them.
abbrev pub sum_bits : ℕ → ℕ → ℕ
sum_bits x y = (x + y) % u32_mod

abbrev pub difference_bits : ℕ → ℕ → ℕ
difference_bits x y = (x + (u32_mod - y)) % u32_mod

abbrev pub product_bits : ℕ → ℕ → ℕ
product_bits x y = (x * y) % u32_mod

-- The overflow flag: two equal signs give the other one; a difference takes over the sign of what
-- was taken away from a number of the other sign; a product lies too far from zero.
abbrev pub sum_overflows : ℕ → ℕ → Bool
sum_overflows x y = eq_bool (sign x) (sign y) && not (eq_bool (sign (sum_bits x y)) (sign x))

abbrev pub difference_overflows : ℕ → ℕ → Bool
difference_overflows x y =
    not (eq_bool (sign x) (sign y)) && not (eq_bool (sign (difference_bits x y)) (sign x))

abbrev pub product_overflows : ℕ → ℕ → Bool
product_overflows x y =
    if eq_bool (sign x) (sign y)
    then ltb 2147483647 (distance x * distance y)
    else ltb 2147483648 (distance x * distance y)

-- The INTEGER value of a pattern, and undefined where the overflow flag is set.
abbrev pub register : ℕ → Bool → Result Value
register bits overflows = if overflows then undefined else ok (word_value integer bits)

result-sum :
    (x y : ℕ)
    → x < u32_mod
    → y < u32_mod
    → integer_result (signed x +ℤ signed y) ≡ register (sum_bits x y) (sum_overflows x y)
unfolding integer_result ◌+ℤ◌ signed pattern
result-sum x y wx wy = ground (arith, wx, wy)

result-difference :
    (x y : ℕ)
    → x < u32_mod
    → y < u32_mod
    → integer_result (signed x -ℤ signed y)
      ≡ register (difference_bits x y) (difference_overflows x y)
unfolding integer_result ◌-ℤ◌ signed pattern
result-difference x y wx wy = ground (arith, wx, wy)

-- A product and its complement.
times : (x d y : ℕ) → x + suc d ≡ u32_mod → x * y + suc d * y ≡ 4294967296 * y
times x d y e = sym (add-mul x (suc d) y) ∙ (λ i. e i * y)

product-pos_pos :
    (x y : ℕ)
    → integer_result (pos x *ℤ pos y) ≡ register (product_bits x y) (ltb 2147483647 (x * y))
unfolding integer_result ◌*ℤ◌ pattern
product-pos_pos x y = ground arith

product-neg_pos :
    (x d y : ℕ)
    → x + suc d ≡ u32_mod
    → integer_result (negsuc d *ℤ pos y) ≡ register (product_bits x y) (ltb 2147483648 (suc d * y))
unfolding integer_result ◌*ℤ◌ pattern
product-neg_pos x d y e = ground (arith, times x d y e)

product-pos_neg :
    (x y d : ℕ)
    → y + suc d ≡ u32_mod
    → integer_result (pos x *ℤ negsuc d) ≡ register (product_bits x y) (ltb 2147483648 (x * suc d))
unfolding integer_result ◌*ℤ◌ pattern
product-pos_neg x y d e = ground (arith, times y d x e)

product-neg_neg :
    (x c y d : ℕ)
    → x + suc c ≡ u32_mod
    → y + suc d ≡ u32_mod
    → integer_result (negsuc c *ℤ negsuc d)
      ≡ register (product_bits x y) (ltb 2147483647 (suc c * suc d))
unfolding integer_result ◌*ℤ◌ pattern
product-neg_neg x c y d e f = ground (arith, times x c y e, times y d (suc c) f)

signed-pos : (x : ℕ) → sign x ≡ false → signed x ≡ pos x
unfolding signed
signed-pos x h = ground (arith, h)

signed-neg : (x : ℕ) → sign x ≡ true → signed x ≡ negsuc (4294967295 - x)
unfolding signed
signed-neg x h = ground (arith, h)

complement : (x : ℕ) → x < u32_mod → sign x ≡ true → suc (4294967295 - x) ≡ distance x
complement x wx h = ground (arith, wx, h)

result-product :
    (x y : ℕ)
    → x < u32_mod
    → y < u32_mod
    → integer_result (signed x *ℤ signed y) ≡ register (product_bits x y) (product_overflows x y)
result-product x y wx wy = elim (Bool-cases (sign x)) [
  | inr s ↦ elim (Bool-cases (sign y)) [
    | inr t ↦ rw (signed-pos x s, signed-pos y t) (product-pos_pos x y ∙ rw (s, t) refl)
    | inl t ↦
        let e = complement y wy t in
        rw (signed-pos x s, signed-neg y t)
          (product-pos_neg x y (4294967295 - y) (omega (arith, wy))
            ∙ (λ i. register (product_bits x y) (ltb 2147483648 (x * e i)))
            ∙ rw (s, t) refl)
  ]
  | inl s ↦
      let e = complement x wx s in
      elim (Bool-cases (sign y)) [
        | inr t ↦
            rw (signed-neg x s, signed-pos y t)
              (product-neg_pos x (4294967295 - x) y (omega (arith, wx))
                ∙ (λ i. register (product_bits x y) (ltb 2147483648 (e i * y)))
                ∙ rw (s, t) refl)
        | inl t ↦
            let f = complement y wy t in
            rw (signed-neg x s, signed-neg y t)
              (product-neg_neg x (4294967295 - x) y (4294967295 - y) (omega (arith, wx))
                  (omega (arith, wy))
                ∙ (λ i. register (product_bits x y) (ltb 2147483647 (e i * f i)))
                ∙ rw (s, t) refl)
      ]
]

calculated-integer :
    (i : ℤ → ℤ → ℤ) (f : ℕ → ℕ → ℕ) (v o : Value)
    → v.type_id ≡ integer
    → o.type_id ≡ integer
    → calculated i f v o ≡ integer_result (i (signed v.bits) (signed o.bits))
unfolding calculated
calculated-integer i f v o h k = rw (h, k) refl

-- On INTEGER values, Add, Subtract and Multiply give what a 32-bit register holds afterwards, and
-- are undefined exactly where its overflow flag is set: for a sum, where two equal signs give the
-- other sign; for a difference, where the signs differ and the result has not the first one; for a
-- product, where the distances from zero multiply to more than 2^31 - 1, or more than 2^31 at
-- different signs.
pub arithmetic-Wraps :
    (fp : Floats) (v o : Value)
    → v.bits < u32_mod
    → o.bits < u32_mod
    → v.type_id ≡ integer
    → o.type_id ≡ integer
    → (add fp v o ≡ register (sum_bits v.bits o.bits) (sum_overflows v.bits o.bits))
      × (subtract fp v o
          ≡ register (difference_bits v.bits o.bits) (difference_overflows v.bits o.bits))
      × (multiply fp v o ≡ register (product_bits v.bits o.bits) (product_overflows v.bits o.bits))
arithmetic-Wraps fp v o wv wo h k = (
  calculated-integer ◌+ℤ◌ fp.add_float v o h k ∙ result-sum v.bits o.bits wv wo,
  calculated-integer ◌-ℤ◌ fp.subtract_float v o h k ∙ result-difference v.bits o.bits wv wo,
  calculated-integer ◌*ℤ◌ fp.multiply_float v o h k ∙ result-product v.bits o.bits wv wo,
)

signed-pattern : (z : ℤ) → fits_i32 z ≡ true → signed (pattern z) ≡ z
unfolding signed pattern
signed-pattern (pos n) h = ground arith
signed-pattern (negsuc n) h = ground arith

abbrev pub magnitude : ℤ → ℕ
magnitude z = pos_part z + neg_part z

abbrev pub is_negative : ℤ → Bool
is_negative z = ltb 0 (neg_part z)

-- `q` and `r` are quotient and remainder of `a` by `b`, rounded towards zero.
pub record Truncated (a b q r : ℤ) : Type 0 where
  pub whole : magnitude a ≡ magnitude q * magnitude b + magnitude r
  pub small : magnitude r < magnitude b
  pub negative_q : is_negative q ≡ true → is_negative a ≢ is_negative b
  pub positive_q : 0 < pos_part q → is_negative a ≡ is_negative b
  pub negative_r : is_negative r ≡ true → is_negative a ≡ true
  pub positive_r : 0 < pos_part r → is_negative a ≡ false

magnitude-quotient : (a b : ℤ) → magnitude (quotient a b) ≡ magnitude a / magnitude b
unfolding quotient
magnitude-quotient (pos a) (pos b) = ground arith
magnitude-quotient (pos a) (negsuc b) = ground arith
magnitude-quotient (negsuc a) (pos b) = ground arith
magnitude-quotient (negsuc a) (negsuc b) = ground arith

magnitude-remainder : (a b : ℤ) → magnitude (remainder a b) ≡ magnitude a % magnitude b
unfolding remainder
magnitude-remainder (pos a) b = ground arith
magnitude-remainder (negsuc a) b = ground arith

-- The signs of quotient and remainder.
negative-quotient : (a b : ℤ) → is_negative (quotient a b) ≡ true → is_negative a ≢ is_negative b
unfolding quotient
negative-quotient (pos a) (pos b) h = ground arith
negative-quotient (pos a) (negsuc b) h = ground arith
negative-quotient (negsuc a) (pos b) h = ground arith
negative-quotient (negsuc a) (negsuc b) h = ground arith

positive-quotient : (a b : ℤ) → 0 < pos_part (quotient a b) → is_negative a ≡ is_negative b
unfolding quotient
positive-quotient (pos a) (pos b) h = ground arith
positive-quotient (pos a) (negsuc b) h = ground arith
positive-quotient (negsuc a) (pos b) h = ground arith
positive-quotient (negsuc a) (negsuc b) h = ground arith

negative-remainder : (a b : ℤ) → is_negative (remainder a b) ≡ true → is_negative a ≡ true
unfolding remainder
negative-remainder (pos a) b h = ground arith
negative-remainder (negsuc a) b h = ground arith

positive-remainder : (a b : ℤ) → 0 < pos_part (remainder a b) → is_negative a ≡ false
unfolding remainder
positive-remainder (pos a) b h = ground arith
positive-remainder (negsuc a) b h = ground arith

quotient-Truncated : (a b : ℤ) → 0 < magnitude b → Truncated a b (quotient a b) (remainder a b)
quotient-Truncated a b h = record {
  whole =
      rw (magnitude-quotient a b, magnitude-remainder a b)
        (sym (div-add-mod' (magnitude a) (magnitude b)));
  small = rw (magnitude-remainder a b) (mod-lt (magnitude a) h);
  negative_q = negative-quotient a b;
  positive_q = positive-quotient a b;
  negative_r = negative-remainder a b;
  positive_r = positive-remainder a b;
}

magnitude-signed : (x : ℕ) → x < u32_mod → magnitude (signed x) ≤ 2147483648
unfolding signed
magnitude-signed x h = ground arith

positive-signed : (x : ℕ) → x < u32_mod → pos_part (signed x) < 2147483648
unfolding signed
positive-signed x h = ground arith

signed-nonzero : (x : ℕ) → x ≢ 0 → x < u32_mod → 0 < magnitude (signed x)
unfolding signed
signed-nonzero x h k = ground arith

signed-lowest : (x : ℕ) → x < u32_mod → magnitude (signed x) ≡ 2147483648 → x ≡ 2147483648
unfolding signed
signed-lowest x h k = ground arith

signed-minus_one :
    (x : ℕ)
    → x < u32_mod
    → magnitude (signed x) ≡ 1
    → is_negative (signed x) ≡ true
    → x ≡ 4294967295
unfolding signed
signed-minus_one x h k l = ground arith

signed-lowest-negative : (x : ℕ) → x ≡ 2147483648 → is_negative (signed x) ≡ true
unfolding signed
signed-lowest-negative x h = ground arith

beyond :
    (z : ℤ)
    → fits_i32 z ≡ false
    → magnitude z ≤ 2147483648
    → (pos_part z ≡ 2147483648) × (neg_part z ≡ 0)
beyond (pos n) h k = ground arith
beyond (negsuc n) h k = ground arith

-- The quotient of two patterns leaves the range only for the least integer by -1.
quotient-overflows :
    (x y : ℕ)
    → x < u32_mod
    → y < u32_mod
    → y ≢ 0
    → fits_i32 (quotient (signed x) (signed y)) ≡ false
    → (x ≡ 2147483648) × (y ≡ 4294967295)
quotient-overflows x y wx wy nonzero out =
    let a = signed x in
    let b = signed y in
    let t = quotient-Truncated a b (signed-nonzero y nonzero wy) in
    let bounded : magnitude (quotient a b) ≤ 2147483648 =
      rw (magnitude-quotient a b)
        (le_trans (div-le_self (magnitude a) (magnitude b)) (magnitude-signed x wx)) in
    let (top, none_below) = beyond (quotient a b) out bounded in
    let largest : magnitude (quotient a b) ≡ 2147483648 = omega (arith, top, none_below) in
    let whole : magnitude a ≡ 2147483648 * magnitude b + magnitude (remainder a b) =
      t.whole ∙ (λ i. largest i * magnitude b + magnitude (remainder a b)) in
    let some_b = signed-nonzero y nonzero wy in
    let small_a = magnitude-signed x wx in
    let one : magnitude b ≡ 1 = omega (arith, whole, some_b, small_a) in
    let lowest : x ≡ 2147483648 = signed-lowest x wx (omega (arith, whole, some_b, small_a)) in
    let signs = t.positive_q (omega (arith, top)) in
    (lowest, signed-minus_one y wy one (sym signs ∙ signed-lowest-negative x lowest))

-- The ways that Divide and Modulo of two INTEGER values end.
pub data Divides (fp : Floats) (v o : Value) : Type 0 where
  by_zero :
      o.bits ≡ 0
      → divide fp v o ≡ thrown division_by_zero
      → modulo v o ≡ thrown division_by_zero
      → Divides fp v o
  too_large :
      v.bits ≡ 2147483648
      → o.bits ≡ 4294967295
      → divide fp v o ≡ undefined
      → modulo v o ≡ undefined
      → Divides fp v o
  returns :
      (q r : Value)
      → divide fp v o ≡ ok q
      → modulo v o ≡ ok r
      → q.type_id ≡ integer
      → r.type_id ≡ integer
      → Truncated (signed v.bits) (signed o.bits) (signed q.bits) (signed r.bits)
      → Divides fp v o

divide-zero :
    (fp : Floats) (v o : Value)
    → v.type_id ≡ integer
    → o.type_id ≡ integer
    → (o.bits == 0) ≡ true
    → (divide fp v o ≡ thrown division_by_zero) × (modulo v o ≡ thrown division_by_zero)
unfolding divide modulo
divide-zero fp v o h k zero = (rw (h, k, zero) refl, rw (h, k, zero) refl)

divide-nonzero :
    (fp : Floats) (v o : Value)
    → v.type_id ≡ integer
    → o.type_id ≡ integer
    → (o.bits == 0) ≡ false
    → divide fp v o ≡ integer_result (quotient (signed v.bits) (signed o.bits))
unfolding divide
divide-nonzero fp v o h k nonzero = rw (h, k, nonzero) refl

modulo-nonzero :
    (v o : Value)
    → v.type_id ≡ integer
    → o.type_id ≡ integer
    → (o.bits == 0) ≡ false
    → modulo v o ≡ (
        if fits_i32 (quotient (signed v.bits) (signed o.bits))
        then integer_result (remainder (signed v.bits) (signed o.bits))
        else undefined)
unfolding modulo
modulo-nonzero v o h k nonzero = rw (h, k, nonzero) refl

small-fits : (z : ℤ) → magnitude z < 2147483648 → fits_i32 z ≡ true
small-fits (pos n) h = ground arith
small-fits (negsuc n) h = ground arith

integer_result-fits :
    (z : ℤ) → fits_i32 z ≡ true → integer_result z ≡ ok (word_value integer (pattern z))
unfolding integer_result
integer_result-fits z h = rw (h) refl

integer_result-overflows : (z : ℤ) → fits_i32 z ≡ false → integer_result z ≡ undefined
unfolding integer_result
integer_result-overflows z h = rw (h) refl

-- Divide and Modulo of two INTEGER values throw `Division by zero` exactly for a divisor 0, are
-- undefined only for the least `int32_t` by -1, and otherwise return the quotient and the remainder
-- of the integers, rounded towards zero, with the remainder's sign that of the dividend.
pub divide-Divides :
    (fp : Floats) (v o : Value)
    → v.type_id ≡ integer
    → o.type_id ≡ integer
    → v.bits < u32_mod
    → o.bits < u32_mod
    → Divides fp v o
divide-Divides fp v o h k wv wo = elim (Bool-cases (o.bits == 0)) [
  | inl zero ↦
      let (left, right) = divide-zero fp v o h k zero in by_zero (==→eq _ _ zero) left right
  | inr nonzero ↦
      let a = signed v.bits in
      let b = signed o.bits in
      let ne : o.bits ≢ 0 = ground arith in
      let t = quotient-Truncated a b (signed-nonzero o.bits ne wo) in
      let called = divide-nonzero fp v o h k nonzero in
      let rest = modulo-nonzero v o h k nonzero in
      elim (Bool-cases (fits_i32 (quotient a b))) [
        | inr out ↦
            let (lowest, minus_one) = quotient-overflows v.bits o.bits wv wo ne out in
            too_large lowest minus_one (called ∙ integer_result-overflows (quotient a b) out)
              (rest ∙ rw (out) refl)
        | inl held ↦
            let bound = magnitude-signed o.bits wo in
            let small = t.small in
            let held_r : fits_i32 (remainder a b) ≡ true =
              small-fits (remainder a b) (omega (arith, bound, small)) in
            returns (word_value integer (pattern (quotient a b)))
              (word_value integer (pattern (remainder a b)))
              (called ∙ integer_result-fits (quotient a b) held)
              (rest ∙ rw (held) (integer_result-fits (remainder a b) held_r)) refl refl
              (rw (signed-pattern (quotient a b) held, signed-pattern (remainder a b) held_r) t)
      ]
]
