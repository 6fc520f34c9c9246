-- ===== src/Tuples.antt =====
-- `Tuple` (src/storage/table/tuple.cpp): a row as values and as the bytes of its values one after
-- the other.
use one_base.Base.{
  ℕ, suc, zero, ◌+◌, ◌<◌, Bool, true, false, Option, none, some, List, [], ◌∷◌, ltb, ◌==◌,
  if◌then◌else◌, length, get_elem?,
}
use one_base.Rid.{Rid}
use one_base.Storage.Bytes.{write_bytes}
use one_base.Storage.Slots.{run}
use one_base.Values.{
  TypeId, invalid, Value, null_value, Result, ok, thrown, undefined, serialized_size, serialize_to,
  deserialize_from,
}
use one_base.Catalog.Schema.{Schema, Column, get_column}
mod Layout
mod Columns
mod Examples

-- `data_`, a `std::vector<char>`.
pub record Bytes : Type 0 where
  pub size : ℕ
  pub byte : ℕ → ℕ

-- `resize`: new bytes are 0.
abbrev pub resize : Bytes → ℕ → Bytes
resize d n = record { size = n; byte = λ i. if ltb i d.size then d.byte i else 0 }

pub record Tuple : Type 0 where
  pub rid : Rid
  pub contents : Bytes
  pub values : List Value

-- `INVALID_PAGE_ID` and slot 0, as `RID()` makes it.
abbrev pub no_rid : Rid
no_rid = record { page_id = 4294967295; slot_num = 0 }

-- `Tuple()`.
abbrev pub empty_tuple : Tuple
empty_tuple = record { rid = no_rid; contents = record { size = 0; byte = λ _. 0 }; values = [] }

-- One turn of the loop of the constructor.
unfoldable pub append_value : Bytes → Value → Result Bytes
append_value d v = elim (serialized_size v) [
  | thrown e ↦ thrown e
  | undefined ↦ undefined
  | ok n ↦ elim (serialize_to v (resize d (d.size + n)).byte d.size) [
    | thrown e ↦ thrown e
    | undefined ↦ undefined
    | ok memory ↦ ok (record { size = d.size + n; byte = memory })
  ]
]

-- The loop.
unfoldable pub append_values : Bytes → List Value → Result Bytes
append_values d [] = ok d
append_values d (v ∷ vs) = elim (append_value d v) [
  | thrown e ↦ thrown e
  | undefined ↦ undefined
  | ok next ↦ append_values next vs
]

-- `Tuple(values)`.
unfoldable pub new_tuple : List Value → Result Tuple
unfolding append_value append_values
new_tuple vs = elim (append_values (record { size = 0; byte = λ _. 0 }) vs) [
  | thrown e ↦ thrown e
  | undefined ↦ undefined
  | ok d ↦ ok (record { rid = no_rid; contents = d; values = vs })
]

-- `GetValue(column_idx)`.
unfoldable pub value_at : Tuple → ℕ → Value
value_at t column_idx = elim (get_elem? t.values column_idx) [
  | none ↦ null_value invalid
  | some v ↦ v
]

-- `GetValue(schema, column_idx)`; a column that the schema does not have is undefined.
unfoldable pub get_value : Tuple → Schema → ℕ → Result Value
get_value t schema column_idx = elim (get_elem? t.values column_idx) [
  | some v ↦ ok v
  | none ↦ elim (get_column schema column_idx) [
    | none ↦ undefined
    | some column ↦ deserialize_from t.contents.byte column.offset column.type_id
  ]
]

-- `SerializeTo(dest)`.
unfoldable pub copy_to : Tuple → (ℕ → ℕ) → ℕ → (ℕ → ℕ)
copy_to t memory dest = write_bytes memory dest (run 0 t.contents.size t.contents.byte)

-- `DeserializeFrom(src, size)`.
unfoldable pub read_from : Tuple → (ℕ → ℕ) → ℕ → ℕ → Tuple
read_from t memory src size = record t {
  contents = record { size = size; byte = λ i. if ltb i size then memory (src + i) else 0 };
}
