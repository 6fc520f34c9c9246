-- ===== src/Catalog/Schema.antt =====
-- `Column` and `Schema` (src/include/onebase/catalog/column.h, schema.h): the columns of a table
-- with the offsets of their data.
use one_base.Base.{
  ℕ, ◌+◌, ◌%◌, Bool, not, Option, List, [], ◌∷◌, ◌==◌, if◌then◌else◌, u32_mod, get_elem?,
}
use one_base.Values.{TypeId, boolean, integer, float, varchar, same_type, string_eq}

pub record Column : Type 0 where
  pub name : List ℕ
  pub type_id : TypeId
  pub declared_length : ℕ
  pub fixed_length : ℕ
  pub variable_length : ℕ
  pub offset : ℕ

-- `GetFixedLengthFor`.
abbrev pub fixed_length_for : TypeId → ℕ
fixed_length_for boolean = 1
fixed_length_for integer = 4
fixed_length_for float = 8
fixed_length_for _ = 0

-- The constructor of `Column`.
unfoldable pub new_column : List ℕ → TypeId → ℕ → Column
new_column name type_id len =
    if same_type type_id varchar
    then (let long = if len == 0 then 256 else len in
        record {
          name = name;
          type_id = type_id;
          declared_length = long;
          fixed_length = 4;
          variable_length = long;
          offset = 0;
        })
    else record {
      name = name;
      type_id = type_id;
      declared_length = len;
      fixed_length = fixed_length_for type_id;
      variable_length = 0;
      offset = 0;
    }

abbrev pub is_inlined : Column → Bool
is_inlined c = not (same_type c.type_id varchar)

pub record Schema : Type 0 where
  pub columns : List Column
  pub tuple_length : ℕ

-- What one turn of the loop adds to the offset.
abbrev pub width : Column → ℕ
width c = if is_inlined c then c.fixed_length else 4

-- The loop of the constructor of `Schema`, from an offset on: the columns with their offsets, and
-- the offset behind them.
unfoldable pub set_offsets : ℕ → List Column → List Column × ℕ
set_offsets offset [] = ([], offset)
set_offsets offset (c ∷ cs) =
    let (rest, end) = set_offsets ((offset + width c) % u32_mod) cs in
    (record c { offset = offset } ∷ rest, end)

-- The constructor of `Schema`.
unfoldable pub new_schema : List Column → Schema
unfolding set_offsets
new_schema columns =
    let (placed, end) = set_offsets 0 columns in record { columns = placed; tuple_length = end }

-- `GetColumn`; an index out of range is undefined.
abbrev pub get_column : Schema → ℕ → Option Column
get_column s idx = get_elem? s.columns idx

-- The loop of `GetColumnIdx`, from the index `i` on.
unfoldable pub column_idx_from : ℕ → List ℕ → List Column → ℕ
column_idx_from i name [] = 4294967295
column_idx_from i name (c ∷ cs) =
    let rest = column_idx_from (i + 1) name cs in if string_eq c.name name then i else rest

-- `GetColumnIdx`; `UINT32_MAX` when no column has the name.
unfoldable pub get_column_idx : Schema → List ℕ → ℕ
unfolding column_idx_from
get_column_idx s name = column_idx_from 0 name s.columns
