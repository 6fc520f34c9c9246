-- ===== src/Tuples/Columns.antt =====
-- The offsets that a schema gives to its columns against the places of the values in a tuple.
use one_base.Base.{
  ℕ, suc, zero, ◌+◌, ◌*◌, ◌%◌, ◌<◌, ◌≡◌, refl, sym, ap, ◌∙◌, some, List, [], ◌∷◌, arith, length,
  u32_mod, All, get_elem?, get_elem?-nil, get_elem?-zero, get_elem?-suc,
}
use one_base.Values.{
  TypeId, invalid, boolean, integer, float, varchar, Value, ok, deserialize_from, serialized_size,
}
use one_base.Values.Binary.{IsStored, stored_boolean, stored_integer, stored_float, stored_varchar}
use one_base.Catalog.Schema.{Column, Schema, new_column, set_offsets, new_schema, width, get_column}
use one_base.Tuples.{Tuple, get_value, new_tuple}
use one_base.Tuples.Layout.{footprint, position, new_tuple-Lays}

-- Every column was made by the constructor, with the type of the value at its place.
abbrev pub Describes : List Column → List Value → Type 0
Describes [] [] = Unit
Describes [] (v ∷ vs) = ⊥
Describes (c ∷ cs) [] = ⊥
Describes (c ∷ cs) (v ∷ vs) =
    ((name : List ℕ) × (len : ℕ) × (c ≡ new_column name v.type_id len)) × Describes cs vs

abbrev pub type_width : TypeId → ℕ
type_width boolean = 1
type_width integer = 4
type_width float = 8
type_width varchar = 4
type_width invalid = 0

-- The widths of the columns together, and of those before an index.
abbrev pub widths : List Value → ℕ
widths [] = 0
widths (v ∷ vs) = type_width v.type_id + widths vs

abbrev pub widths_before : List Value → ℕ → ℕ
widths_before [] i = 0
widths_before (v ∷ vs) zero = 0
widths_before (v ∷ vs) (suc i) = type_width v.type_id + widths_before vs i

-- The FLOAT values before an index.
abbrev pub floats_before : List Value → ℕ → ℕ
floats_before [] i = 0
floats_before (v ∷ vs) zero = 0
floats_before (v ∷ vs) (suc i) = (elim v.type_id [ float ↦ 1 | _ ↦ 0 ]) + floats_before vs i

-- The bytes of the strings before an index.
abbrev pub text_before : List Value → ℕ → ℕ
text_before [] i = 0
text_before (v ∷ vs) zero = 0
text_before (v ∷ vs) (suc i) =
    (elim v.type_id [ varchar ↦ length v.varchar_bytes | _ ↦ 0 ]) + text_before vs i

new_column-type : (name : List ℕ) (t : TypeId) (len : ℕ) → (new_column name t len).type_id ≡ t
unfolding new_column
new_column-type name invalid len = refl
new_column-type name boolean len = refl
new_column-type name integer len = refl
new_column-type name float len = refl
new_column-type name varchar len = refl

new_column-width :
    (name : List ℕ) (t : TypeId) (len : ℕ) → width (new_column name t len) ≡ type_width t
unfolding new_column
new_column-width name invalid len = refl
new_column-width name boolean len = refl
new_column-width name integer len = refl
new_column-width name float len = refl
new_column-width name varchar len = refl

footprint-width :
    (v : Value)
    → IsStored v
    → footprint v + 4 * (elim v.type_id [ float ↦ 1 | _ ↦ 0 ])
      ≡ type_width v.type_id + (elim v.type_id [ varchar ↦ length v.varchar_bytes | _ ↦ 0 ])
unfolding serialized_size
footprint-width v (stored_boolean b) = refl
footprint-width v (stored_integer w bound) = refl
footprint-width v (stored_float w bound) = refl
footprint-width v (stored_varchar s bound) = omega (arith, bound)

-- Against the place of a value, the widths before it count 4 bytes too many for every FLOAT and
-- leave out the bytes of the strings.
widths-position :
    (vs : List Value) (i : ℕ)
    → All IsStored vs
    → widths_before vs i + text_before vs i ≡ position vs i + 4 * floats_before vs i
widths-position [] i stored = refl
widths-position (v ∷ vs) zero stored = refl
widths-position (v ∷ vs) (suc i) (first, stored) =
    let here = footprint-width v first in
    let rest = widths-position vs i stored in omega (arith, here, rest)

-- A schema has a column for the value at an index, of the value's type, behind the widths before
-- it.
record Placed (s : List Column × ℕ) (start : ℕ) (vs : List Value) (i : ℕ) (v : Value) : Type 0 where
  column : Column
  present : get_elem? s.0 i ≡ some column
  offset_lem : column.offset ≡ start + widths_before vs i
  typed : column.type_id ≡ v.type_id

set_offsets-Placed :
    (start : ℕ) (cs : List Column) (vs : List Value) (i : ℕ) (v : Value)
    → Describes cs vs
    → start + widths vs < u32_mod
    → get_elem? vs i ≡ some v
    → Placed (set_offsets start cs) start vs i v
unfolding set_offsets get_elem?
set_offsets-Placed start [] [] i v d bound e = absurd (get_elem?-nil i e)
set_offsets-Placed start [] (w ∷ vs) i v d bound e = absurd d
set_offsets-Placed start (c ∷ cs) [] i v d bound e = absurd d
set_offsets-Placed start (c ∷ cs) (w ∷ vs) zero v ((name, len, made), d) bound e =
    let same : w ≡ v = get_elem?-zero vs e in
    record {
      column = record c { offset = start };
      present = refl;
      offset_lem = omega arith;
      typed =
          ap (λ x. x.type_id) made ∙ new_column-type name w.type_id len ∙ ap (λ x. x.type_id) same;
    }
set_offsets-Placed start (c ∷ cs) (w ∷ vs) (suc i) v ((name, len, made), d) bound e =
    let wide : width c ≡ type_width w.type_id =
      ap (λ x. width x) made ∙ new_column-width name w.type_id len in
    let next : (start + width c) % u32_mod ≡ start + type_width w.type_id =
      omega (arith, wide, bound) in
    let rest =
      set_offsets-Placed ((start + width c) % u32_mod) cs vs i v d (omega (arith, next, bound))
        (sym (get_elem?-suc w vs i) ∙ e) in
    let offset_rest = rest.offset_lem in
    record {
      column = rest.column;
      present = rest.present;
      offset_lem = omega (arith, next, offset_rest);
      typed = rest.typed;
    }

-- What a tuple that holds the bytes alone, without the values, gives for a column of the schema.
pub record ReadsColumn (columns : List Column) (vs : List Value) (i : ℕ) (v : Value) : Type 0 where
  pub tuple : Tuple
  pub returned : new_tuple vs ≡ ok tuple
  pub read : get_value (record tuple { values = [] }) (new_schema columns) i ≡ ok v

new_schema-columns :
    (columns : List Column) → (new_schema columns).columns ≡ (set_offsets 0 columns).0
unfolding new_schema
new_schema-columns columns = refl

get_value-bytes :
    (t : Tuple) (s : Schema) (i : ℕ) (c : Column)
    → t.values ≡ []
    → get_elem? s.columns i ≡ some c
    → get_value t s i ≡ deserialize_from t.contents.byte c.offset c.type_id
unfolding get_value get_elem?
get_value-bytes t s i c h k = rw (get_value, h, k) refl

-- For the schema of columns of the values' types, with offsets below 2^32, the offset of the column
-- at an index is the place of its value plus 4 for each FLOAT before it less the bytes of the
-- strings before it.
pub schema-offset :
    (columns : List Column) (vs : List Value) (i : ℕ) (v : Value)
    → All IsStored vs
    → Describes columns vs
    → widths vs < u32_mod
    → get_elem? vs i ≡ some v
    → (column : Column) × (get_column (new_schema columns) i ≡ some column)
      × (column.type_id ≡ v.type_id)
      × (column.offset + text_before vs i ≡ position vs i + 4 * floats_before vs i)
schema-offset columns vs i v stored d bound e =
    let p = set_offsets-Placed 0 columns vs i v d (omega (arith, bound)) e in
    let place = widths-position vs i stored in
    let offset = p.offset_lem in
    (
      p.column,
      (λ t. get_elem? (new_schema-columns columns t) i) ∙ p.present,
      p.typed,
      omega (arith, place, offset),
    )

-- A tuple made of values with a binary form, read back as bytes alone through the schema of columns
-- of their types, gives the value at an index, when every FLOAT before it is made up for by 4 bytes
-- of strings before it; so in particular when there are neither.
pub get_value-ReadsColumn :
    (columns : List Column) (vs : List Value) (i : ℕ) (v : Value)
    → All IsStored vs
    → Describes columns vs
    → widths vs < u32_mod
    → get_elem? vs i ≡ some v
    → text_before vs i ≡ 4 * floats_before vs i
    → ReadsColumn columns vs i v
get_value-ReadsColumn columns vs i v stored d bound e balanced =
    let l = new_tuple-Lays vs stored in
    let (c, present, typed, offset) = schema-offset columns vs i v stored d bound e in
    let place : c.offset ≡ 0 + position vs i = omega (arith, offset, balanced) in
    record {
      tuple = l.tuple;
      returned = l.returned;
      read =
          get_value-bytes (record l.tuple { values = [] }) (new_schema columns) i c refl present
          ∙ (λ t. deserialize_from l.tuple.contents.byte (place t) (typed t))
          ∙ l.readable i v e;
    }
