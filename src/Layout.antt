-- ===== src/Layout.antt =====
-- include/record/layout.hpp and src/record/layout.cpp: where the fields of a record stand in its
-- slot. Sizes are added in `size_t` and wrap.
pub mod Slots
use mudopdbmigration.Page.{size_mod, max_length}
use mudopdbmigration.Prelude.{
  ℕ, ◌+◌, ◌%◌, Option, none, some, List, [], ◌∷◌, update, out_of_range, Result, ok, err, ◌>>=◌,
  ◌>>◌,
}
use mudopdbmigration.Schema.{Schema, integer, varchar, field_type, field_length}

pub record Layout : Type 0 where
  pub schema : Schema
  pub offsets : List ℕ → Option ℕ
  pub slotsize : ℕ

unfoldable pub length_in_bytes : Schema → List ℕ → Result ℕ
unfolding field_type field_length max_length
length_in_bytes sch fldname = do
  fldtype ← field_type sch fldname
  elim fldtype [
    | integer ↦ ok 4
    | varchar ↦ do width ← field_length sch fldname; ok (max_length width)
  ]

-- The loop of the first constructor.
unfoldable pub place_fields : Schema → List (List ℕ) → (List ℕ → Option ℕ) → ℕ → Result Layout
unfolding length_in_bytes update
place_fields sch [] offsets slotsize =
    ok (record { schema = sch; offsets = offsets; slotsize = slotsize })
place_fields sch (fldname ∷ rest) offsets slotsize = do
  size ← length_in_bytes sch fldname
  place_fields sch rest (update offsets fldname (some slotsize)) ((slotsize + size) % size_mod)

unfoldable pub layout_of : Schema → Result Layout
unfolding place_fields
layout_of sch = place_fields sch sch.fields (λ _. none) 4

-- The second constructor.
abbrev pub stored_layout : Schema → (List ℕ → Option ℕ) → ℕ → Layout
stored_layout sch offsets slotsize = record { schema = sch; offsets = offsets; slotsize = slotsize }

-- `offsets_.at(fldname)`
unfoldable pub offset : Layout → List ℕ → Result ℕ
offset lay fldname = elim (lay.offsets fldname) [ none ↦ err out_of_range | some o ↦ ok o ]
