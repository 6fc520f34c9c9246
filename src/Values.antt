-- ===== src/Values.antt =====
-- `Value` and `Type` (src/type/value.cpp, type.cpp): typed values, comparison, arithmetic, logic
-- and the binary form.
use one_base.Base.{
  ℕ, zero, suc, ◌+◌, ◌%◌, Bool, true, false, not, ◌&&◌, ◌||◌, List, [], ◌∷◌, ltb, leb, ◌==◌,
  if◌then◌else◌, u32_mod, length, take, update, ℤ, ◌+ℤ◌, ◌-ℤ◌, ◌*ℤ◌, ltb_ℤ, quotient, remainder,
  signed, pattern, fits_i32,
}
use one_base.Storage.Slots.{run}
use one_base.Storage.Bytes.{read_u32, write_u32, write_bytes}
mod Compare
mod Arithmetic
pub mod Binary
mod Examples

pub data TypeId : Type 0 where
  invalid boolean integer float varchar : TypeId

abbrev pub same_type : TypeId → TypeId → Bool
same_type invalid invalid = true
same_type boolean boolean = true
same_type integer integer = true
same_type float float = true
same_type varchar varchar = true
same_type _ _ = false

-- `bits` is the 32-bit pattern of the union (a Boolean is 1 or 0), `varchar_bytes` the
-- `std::string`.
pub record Value : Type 0 where
  pub type_id : TypeId
  pub bits : ℕ
  pub varchar_bytes : List ℕ
  pub is_null : Bool

-- The exceptions (`std::logic_error`), by what they say.
pub data Error : Type 0 where
  type_mismatch unsupported_type division_by_zero : Error

-- `undefined` is undefined behaviour: a signed overflow, or a `bool` that is neither 0 nor 1.
pub data Result {ℓ} (A : Type ℓ) : Type ℓ where
  ok : A → Result A
  thrown : Error → Result A
  undefined : Result A

-- `Value()` and `Value(type)`.
abbrev pub null_value : TypeId → Value
null_value t = record { type_id = t; bits = 0; varchar_bytes = []; is_null = true }

-- `Value(type, i)` and `Value(type, f)`, from the pattern of `i` or `f`.
abbrev pub word_value : TypeId → ℕ → Value
word_value t w = record { type_id = t; bits = w; varchar_bytes = []; is_null = false }

-- `Value(TypeId::BOOLEAN, b)`.
abbrev pub boolean_value : Bool → Value
boolean_value b = word_value boolean (if b then 1 else 0)

-- `Value(TypeId::VARCHAR, s)`.
abbrev pub varchar_value : List ℕ → Value
varchar_value s = record { type_id = varchar; bits = 0; varchar_bytes = s; is_null = false }

-- The member `boolean_`.
abbrev pub truth : Value → Bool
truth v = not (v.bits == 0)

-- `operator<` of `std::string`: lexicographic, by bytes.
unfoldable pub string_lt : List ℕ → List ℕ → Bool
string_lt [] [] = false
string_lt [] (y ∷ ys) = true
string_lt (x ∷ xs) [] = false
string_lt (x ∷ xs) (y ∷ ys) =
    let rest = string_lt xs ys in if ltb x y then true else (x == y && rest)

-- `operator==` of `std::string`.
unfoldable pub string_eq : List ℕ → List ℕ → Bool
string_eq [] [] = true
string_eq [] (y ∷ ys) = false
string_eq (x ∷ xs) [] = false
string_eq (x ∷ xs) (y ∷ ys) = let rest = string_eq xs ys in x == y && rest

-- IEEE arithmetic on the patterns of `float`.
pub record Floats : Type 0 where
  pub float_lt : ℕ → ℕ → Bool
  pub float_le : ℕ → ℕ → Bool
  pub float_eq : ℕ → ℕ → Bool
  pub add_float : ℕ → ℕ → ℕ
  pub subtract_float : ℕ → ℕ → ℕ
  pub multiply_float : ℕ → ℕ → ℕ
  pub divide_float : ℕ → ℕ → ℕ

-- The switch that the four ordered comparisons share, with the operator at each type.
unfoldable pub ordered :
    (ℤ → ℤ → Bool) → (ℕ → ℕ → Bool) → (List ℕ → List ℕ → Bool) → Value → Value → Result Value
ordered on_int on_float on_string v o = elim (same_type v.type_id o.type_id) [
  | false ↦ thrown type_mismatch
  | true ↦ elim v.type_id [
    | integer ↦ ok (boolean_value (on_int (signed v.bits) (signed o.bits)))
    | float ↦ ok (boolean_value (on_float v.bits o.bits))
    | varchar ↦ ok (boolean_value (on_string v.varchar_bytes o.varchar_bytes))
    | boolean ↦ thrown unsupported_type
    | invalid ↦ thrown unsupported_type
  ]
]

-- The switch of the two others.
unfoldable pub equated :
    (ℤ → ℤ → Bool)
    → (ℕ → ℕ → Bool)
    → (Bool → Bool → Bool)
    → (List ℕ → List ℕ → Bool)
    → Value
    → Value
    → Result Value
equated on_int on_float on_bool on_string v o = elim (same_type v.type_id o.type_id) [
  | false ↦ thrown type_mismatch
  | true ↦ elim v.type_id [
    | integer ↦ ok (boolean_value (on_int (signed v.bits) (signed o.bits)))
    | float ↦ ok (boolean_value (on_float v.bits o.bits))
    | boolean ↦ ok (boolean_value (on_bool (truth v) (truth o)))
    | varchar ↦ ok (boolean_value (on_string v.varchar_bytes o.varchar_bytes))
    | invalid ↦ thrown unsupported_type
  ]
]

abbrev pub eq_ℤ : ℤ → ℤ → Bool
eq_ℤ a b = not (ltb_ℤ a b) && not (ltb_ℤ b a)

abbrev pub eq_bool : Bool → Bool → Bool
eq_bool a b = if a then b else not b

-- An `int32_t` result; an overflow of a signed type is undefined.
unfoldable pub integer_result : ℤ → Result Value
integer_result z = if fits_i32 z then ok (word_value integer (pattern z)) else undefined

-- The switch that `Add`, `Subtract` and `Multiply` share.
unfoldable pub calculated : (ℤ → ℤ → ℤ) → (ℕ → ℕ → ℕ) → Value → Value → Result Value
unfolding integer_result
calculated on_int on_float v o = elim (same_type v.type_id o.type_id) [
  | false ↦ thrown type_mismatch
  | true ↦ elim v.type_id [
    | integer ↦ integer_result (on_int (signed v.bits) (signed o.bits))
    | float ↦ ok (word_value float (on_float v.bits o.bits))
    | boolean ↦ thrown unsupported_type
    | varchar ↦ thrown unsupported_type
    | invalid ↦ thrown unsupported_type
  ]
]

module _ (fp : Floats) where
  -- `CompareLessThan`.
  abbrev pub compare_less_than : Value → Value → Result Value
  compare_less_than = ordered ltb_ℤ fp.float_lt string_lt

  -- `CompareGreaterThan`.
  abbrev pub compare_greater_than : Value → Value → Result Value
  compare_greater_than = ordered (λ a b. ltb_ℤ b a) (λ a b. fp.float_lt b a) (λ a b. string_lt b a)

  -- `CompareLessThanOrEqual`.
  abbrev pub compare_less_than_or_equal : Value → Value → Result Value
  compare_less_than_or_equal =
      ordered (λ a b. not (ltb_ℤ b a)) fp.float_le (λ a b. not (string_lt b a))

  -- `CompareGreaterThanOrEqual`.
  abbrev pub compare_greater_than_or_equal : Value → Value → Result Value
  compare_greater_than_or_equal =
      ordered (λ a b. not (ltb_ℤ a b)) (λ a b. fp.float_le b a) (λ a b. not (string_lt a b))

  -- `CompareEquals`.
  abbrev pub compare_equals : Value → Value → Result Value
  compare_equals = equated eq_ℤ fp.float_eq eq_bool string_eq

  -- `CompareNotEquals`.
  abbrev pub compare_not_equals : Value → Value → Result Value
  compare_not_equals =
      equated (λ a b. not (eq_ℤ a b)) (λ a b. not (fp.float_eq a b)) (λ a b. not (eq_bool a b))
        (λ a b. not (string_eq a b))

  -- `Add`.
  abbrev pub add : Value → Value → Result Value
  add = calculated ◌+ℤ◌ fp.add_float

  -- `Subtract`.
  abbrev pub subtract : Value → Value → Result Value
  subtract = calculated ◌-ℤ◌ fp.subtract_float

  -- `Multiply`.
  abbrev pub multiply : Value → Value → Result Value
  multiply = calculated ◌*ℤ◌ fp.multiply_float

  -- `Divide`.
  unfoldable pub divide : Value → Value → Result Value
  unfolding integer_result
  divide v o = elim (same_type v.type_id o.type_id) [
    | false ↦ thrown type_mismatch
    | true ↦ elim v.type_id [
      | integer ↦
          if o.bits == 0
          then thrown division_by_zero
          else integer_result (quotient (signed v.bits) (signed o.bits))
      | float ↦
          if fp.float_eq o.bits 0
          then thrown division_by_zero
          else ok (word_value float (fp.divide_float v.bits o.bits))
      | boolean ↦ thrown unsupported_type
      | varchar ↦ thrown unsupported_type
      | invalid ↦ thrown unsupported_type
    ]
  ]

-- `Modulo`; the remainder is undefined where the quotient overflows.
unfoldable pub modulo : Value → Value → Result Value
unfolding integer_result
modulo v o = elim (same_type v.type_id o.type_id) [
  | false ↦ thrown type_mismatch
  | true ↦ elim v.type_id [
    | integer ↦
        if o.bits == 0
        then thrown division_by_zero
        else if fits_i32 (quotient (signed v.bits) (signed o.bits))
        then integer_result (remainder (signed v.bits) (signed o.bits))
        else undefined
    | float ↦ thrown unsupported_type
    | boolean ↦ thrown unsupported_type
    | varchar ↦ thrown unsupported_type
    | invalid ↦ thrown unsupported_type
  ]
]

-- `And`, `LogicalAnd`.
unfoldable pub logical_and : Value → Value → Result Value
logical_and v o =
    if same_type v.type_id boolean && same_type o.type_id boolean
    then ok (boolean_value (truth v && truth o))
    else thrown type_mismatch

-- `Or`, `LogicalOr`.
unfoldable pub logical_or : Value → Value → Result Value
logical_or v o =
    if same_type v.type_id boolean && same_type o.type_id boolean
    then ok (boolean_value (truth v || truth o))
    else thrown type_mismatch

-- `Not`.
unfoldable pub logical_not : Value → Result Value
logical_not v =
    if same_type v.type_id boolean then ok (boolean_value (not (truth v))) else thrown type_mismatch

-- `GetSerializedSize`; sums of `uint32_t` wrap.
unfoldable pub serialized_size : Value → Result ℕ
serialized_size v = elim v.type_id [
  | boolean ↦ ok 1
  | integer ↦ ok 4
  | float ↦ ok 4
  | varchar ↦ ok ((4 + length v.varchar_bytes % u32_mod) % u32_mod)
  | invalid ↦ thrown unsupported_type
]

-- `SerializeTo(storage)`, on the memory around the address `storage`.
unfoldable pub serialize_to : Value → (ℕ → ℕ) → ℕ → Result (ℕ → ℕ)
unfolding take
serialize_to v memory storage = elim v.type_id [
  | boolean ↦ ok (update memory storage (if truth v then 1 else 0))
  | integer ↦ ok (write_u32 memory storage v.bits)
  | float ↦ ok (write_u32 memory storage v.bits)
  | varchar ↦
      let len = length v.varchar_bytes % u32_mod in
      ok (write_bytes (write_u32 memory storage len) (storage + 4) (take len v.varchar_bytes))
  | invalid ↦ thrown unsupported_type
]

-- `DeserializeFrom(storage, type)`.
unfoldable pub deserialize_from : (ℕ → ℕ) → ℕ → TypeId → Result Value
deserialize_from memory storage t = elim t [
  | boolean ↦
      if memory storage == 0
      then ok (boolean_value false)
      else if memory storage == 1
      then ok (boolean_value true)
      else undefined
  | integer ↦ ok (word_value integer (read_u32 memory storage))
  | float ↦ ok (word_value float (read_u32 memory storage))
  | varchar ↦ ok (varchar_value (run (storage + 4) (read_u32 memory storage) memory))
  | invalid ↦ thrown unsupported_type
]

-- `Type::GetTypeSize`.
unfoldable pub get_type_size : TypeId → Result ℕ
get_type_size boolean = ok 1
get_type_size integer = ok 4
get_type_size float = ok 4
get_type_size varchar = ok 0
get_type_size invalid = thrown unsupported_type

-- `Type::IsCoercableTo`.
unfoldable pub is_coercable_to : TypeId → TypeId → Bool
is_coercable_to from to =
    if same_type from to
    then true
    else if same_type from integer && same_type to float
    then true
    else false
