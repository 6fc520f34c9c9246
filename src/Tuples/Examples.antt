-- ===== src/Tuples/Examples.antt =====
-- Concrete tuples for the theorems on tuples, and tests.
use one_base.Base.{ℕ, ◌+◌, ◌*◌, ◌≡◌, refl, true, arith, List, [], ◌∷◌, some, get_elem?, All}
use one_base.Values.{
  boolean, integer, float, varchar, string_eq, Value, word_value, boolean_value, varchar_value,
}
use one_base.Values.Binary.{IsStored, stored_boolean, stored_integer, stored_float, stored_varchar}
use one_base.Catalog.Schema.{
  Column, new_column, new_schema, get_column, get_column_idx, set_offsets, column_idx_from,
}
use one_base.Tuples.Layout.{Lays, new_tuple-Lays, position}
use one_base.Tuples.Columns.{
  ReadsColumn, schema-offset, get_value-ReadsColumn, text_before, floats_before,
}

abbrev name : List ℕ
name = 79 ∷ 110 ∷ 101 ∷ []

-- A Boolean, 7 and a string, and their columns.
abbrev row : List Value
row = boolean_value true ∷ word_value integer 7 ∷ varchar_value name ∷ []

abbrev columns : List Column
columns = new_column [] boolean 0 ∷ new_column name integer 0 ∷ new_column [] varchar 32 ∷ []

row-IsStored : All IsStored row
row-IsStored =
    (stored_boolean true, (stored_integer 7 (omega arith), (stored_varchar name (omega arith), tt)))

-- The pattern of 1.0, then 7.
abbrev measured : List Value
measured = word_value float 1065353216 ∷ word_value integer 7 ∷ []

abbrev measured_columns : List Column
measured_columns = new_column name float 0 ∷ new_column [] integer 0 ∷ []

measured-IsStored : All IsStored measured
measured-IsStored = (stored_float 1065353216 (omega arith), (stored_integer 7 (omega arith), tt))

new_tuple-Lays_example : Lays row
new_tuple-Lays_example = new_tuple-Lays row row-IsStored

get_value-ReadsColumn_example : ReadsColumn columns row 1 (word_value integer 7)
unfolding get_elem?
get_value-ReadsColumn_example =
    get_value-ReadsColumn columns row 1 (word_value integer 7) row-IsStored
      (([], 0, refl), ((name, 0, refl), (([], 32, refl), tt))) (omega arith) refl refl

-- Behind a FLOAT the offset of the schema is 8, and the value stands at 4.
schema-offset_example :
    (column : Column) × (get_column (new_schema measured_columns) 1 ≡ some column)
    × (column.type_id ≡ integer)
    × (column.offset + text_before measured 1 ≡ position measured 1 + 4 * floats_before measured 1)
unfolding get_elem?
schema-offset_example =
    schema-offset measured_columns measured 1 (word_value integer 7) measured-IsStored
      ((name, 0, refl), (([], 0, refl), tt)) (omega arith) refl

second_column : get_column_idx (new_schema columns) name ≡ 1
unfolding get_column_idx new_schema set_offsets column_idx_from new_column string_eq
second_column = refl
