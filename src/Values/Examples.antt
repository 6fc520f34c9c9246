-- ===== src/Values/Examples.antt =====
-- Concrete values for the theorems on `Value`, and tests.
use one_base.Base.{
  ◌+◌, ◌*◌, ◌/◌, ◌≡◌, inl, refl, true, false, arith, [], ◌∷◌, ltb, leb, ◌==◌, signed, pattern,
  quotient, remainder, ◌+ℤ◌, ◌-ℤ◌, ◌*ℤ◌,
}
use one_base.Values.{
  integer, Value, word_value, boolean_value, varchar_value, null_value, ok, thrown, undefined,
  type_mismatch, unsupported_type, Floats, add, subtract, multiply, divide, modulo, ordered,
  equated, compare_less_than, compare_equals, string_lt, string_eq, logical_and, logical_or,
  logical_not, is_coercable_to, get_type_size, calculated, integer_result, serialize_to,
  deserialize_from,
}
use one_base.Values.Compare.{Place, Precedes, Agrees, compare-Agrees}
use one_base.Values.Arithmetic.{Divides, arithmetic-Wraps, divide-Divides}
use one_base.Values.Binary.{Written, stored_varchar, serialize_to-Written}

-- Operations on patterns; the comparisons are those of floats that are not negative.
abbrev floats : Floats
floats = record {
  float_lt = ltb;
  float_le = leb;
  float_eq = ◌==◌;
  add_float = ◌+◌;
  subtract_float = λ a b. a;
  multiply_float = ◌*◌;
  divide_float = ◌/◌;
}

-- 7, and the patterns of -2, of -1 and of the least integer.
abbrev seven : Value
seven = word_value integer 7

abbrev minus_two : Value
minus_two = word_value integer 4294967294

abbrev minus_one : Value
minus_one = word_value integer 4294967295

abbrev lowest : Value
lowest = word_value integer 2147483648

abbrev word : Value
word = varchar_value (79 ∷ 110 ∷ 101 ∷ [])

program : Unit {0}
unfolding ordered equated string_lt string_eq calculated integer_result divide modulo logical_and
    logical_or logical_not is_coercable_to get_type_size serialize_to deserialize_from signed
    pattern quotient remainder ◌+ℤ◌ ◌-ℤ◌ ◌*ℤ◌
program = tt

compare-Agrees_example :
    ((place : Place) × Agrees floats minus_two seven place)
    × ((w : Value) → Precedes minus_two seven → Precedes seven w → Precedes minus_two w)
compare-Agrees_example =
    compare-Agrees floats minus_two seven (omega arith) (omega arith) (inl refl) refl

arithmetic-Wraps_example :
    (add floats seven minus_two ≡ ok (word_value integer 5))
    × (subtract floats seven minus_two ≡ ok (word_value integer 9))
    × (multiply floats seven minus_two ≡ ok (word_value integer 4294967282))
unfolding program
arithmetic-Wraps_example =
    arithmetic-Wraps floats seven minus_two (omega arith) (omega arith) refl refl

divide-Divides_example : Divides floats lowest minus_one
divide-Divides_example =
    divide-Divides floats lowest minus_one refl refl (omega arith) (omega arith)

serialize_to-Written_example : Written word (λ _. 0) 8
serialize_to-Written_example =
    serialize_to-Written word (stored_varchar (79 ∷ 110 ∷ 101 ∷ []) (omega arith)) (λ _. 0) 8

less : compare_less_than floats minus_two seven ≡ ok (boolean_value true)
unfolding program
less = refl

less_string : compare_less_than floats word (varchar_value (79 ∷ [])) ≡ ok (boolean_value false)
unfolding program
less_string = refl

no_order :
    compare_less_than floats (boolean_value true) (boolean_value false) ≡ thrown unsupported_type
unfolding program
no_order = refl

mixed : compare_equals floats seven word ≡ thrown type_mismatch
unfolding program
mixed = refl

quotient_up : divide floats minus_two (word_value integer 4294967293) ≡ ok (word_value integer 0)
unfolding program
quotient_up = refl

remainder_negative : modulo minus_two seven ≡ ok (word_value integer 4294967294)
unfolding program
remainder_negative = refl

overflow : subtract floats lowest seven ≡ undefined
unfolding program
overflow = refl

-- NULL is not seen by the comparisons: it is compared as 0.
null_as_zero :
    compare_equals floats (null_value integer) (word_value integer 0) ≡ ok (boolean_value true)
unfolding program
null_as_zero = refl
