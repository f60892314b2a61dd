-- ===== src/Schema.antt =====
-- include/record/schema.hpp and src/record/schema.cpp: the fields of a table.
pub mod Fields
use mudopdbmigration.Prelude.{
  ℕ, Bool, true, false, Option, none, some, List, [], ◌∷◌, ◌++◌, update, out_of_range, Result, ok,
  err, ◌>>=◌, ◌>>◌,
}

-- `Type` of the source.
pub data FieldType : Type 0 where
  integer varchar : FieldType

pub record FieldInfo : Type 0 where
  pub kind : FieldType
  pub width : ℕ

pub record Schema : Type 0 where
  pub fields : List (List ℕ)
  pub info : List ℕ → Option FieldInfo

-- The constructor.
abbrev pub empty_schema : Schema
empty_schema = record { fields = []; info = λ _. none }

unfoldable pub add_field : Schema → List ℕ → FieldType → ℕ → Schema
unfolding update
add_field sch fldname kind width = record {
  fields = sch.fields ++ (fldname ∷ []);
  info = update sch.info fldname (some (record { kind = kind; width = width }));
}

unfoldable pub add_int_field : Schema → List ℕ → Schema
unfolding add_field
add_int_field sch fldname = add_field sch fldname integer 0

unfoldable pub add_string_field : Schema → List ℕ → ℕ → Schema
unfolding add_field
add_string_field sch fldname width = add_field sch fldname varchar width

unfoldable pub has_field : Schema → List ℕ → Bool
has_field sch fldname = elim (sch.info fldname) [ none ↦ false | some _ ↦ true ]

-- `info_.at(fldname).type` and `info_.at(fldname).length`
unfoldable pub field_type : Schema → List ℕ → Result FieldType
field_type sch fldname = elim (sch.info fldname) [ none ↦ err out_of_range | some i ↦ ok i.kind ]

unfoldable pub field_length : Schema → List ℕ → Result ℕ
field_length sch fldname = elim (sch.info fldname) [ none ↦ err out_of_range | some i ↦ ok i.width ]

-- `add`
unfoldable pub add_from : Schema → List ℕ → Schema → Result Schema
unfolding field_type field_length add_field
add_from sch fldname other = do
  fldtype ← field_type other fldname
  fldlen ← field_length other fldname
  ok (add_field sch fldname fldtype fldlen)

-- `add_all`
unfoldable pub add_each : Schema → List (List ℕ) → Schema → Result Schema
unfolding add_from
add_each sch [] other = ok sch
add_each sch (fldname ∷ rest) other = do sch' ← add_from sch fldname other; add_each sch' rest other

unfoldable pub add_all : Schema → Schema → Result Schema
unfolding add_each
add_all sch other = add_each sch other.fields other
