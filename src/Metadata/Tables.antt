-- ===== src/Metadata/Tables.antt =====
-- include/metadata/tablemgr.hpp and src/metadata/tablemgr.cpp: the tables and their fields. The
-- loops over the records take fuel.
use mudopdbmigration.Prelude.{
  ℕ, zero, suc, Bool, true, false, Option, none, some, List, [], ◌∷◌, ◌==◌, if◌then◌else◌, bytes_eq,
  update, no_table, unknown_type, out_of_fuel, Result, ok, err,
}
use mudopdbmigration.Exec.{Exec, pure, throw, ◌>>=◌, ◌>>◌}
use mudopdbmigration.Page.{int32_of_size, size_of_int32}
use mudopdbmigration.Schema.{
  Schema, FieldType, integer, varchar, empty_schema, add_string_field, add_int_field, add_field,
  field_type, field_length,
}
use mudopdbmigration.Layout.{Layout, layout_of, offset, stored_layout}
use mudopdbmigration.TableScan.{
  TableScan, insert, set_string, set_int, get_string, get_int, close, next,
}
use mudopdbmigration.Transaction.{Tx, size}
use mudopdbmigration.Metadata.Names.{
  tblcat_name, fldcat_name, tblname_name, slotsize_name, fldname_name, type_name, length_name,
  offset_name,
}
use mudopdbmigration.Metadata.Scanning.{Rounds, with_scan, computed}

-- `MAX_NAME`
abbrev pub max_name : ℕ
max_name = 16

unfoldable pub build_tcat_layout : Result Layout
unfolding layout_of add_string_field add_int_field
build_tcat_layout =
    layout_of (add_int_field (add_string_field empty_schema tblname_name max_name) slotsize_name)

unfoldable pub build_fcat_layout : Result Layout
unfolding layout_of add_string_field add_int_field
build_fcat_layout =
    let names =
      add_string_field (add_string_field empty_schema tblname_name max_name) fldname_name
        max_name in
    layout_of
      (add_int_field (add_int_field (add_int_field names type_name) length_name) offset_name)

pub record TableMgr : Type 0 where
  pub tcat_layout : Layout
  pub fcat_layout : Layout

-- `static_cast<int32_t>` of a `record::Type`, and back
unfoldable pub type_code : FieldType → ℕ
type_code integer = 4
type_code varchar = 12

unfoldable pub type_of_code : ℕ → Result FieldType
type_of_code code =
    if code == 4 then ok integer else if code == 12 then ok varchar else err unknown_type

module _ (k : Rounds) where
  abbrev pub insert_record : Exec TableScan (Unit {0})
  insert_record = insert k.waits k.slots k.blocks

  -- The loop over the fields of the schema.
  unfoldable pub insert_fields :
      List ℕ → Schema → Layout → List (List ℕ) → Exec TableScan (Unit {0})
  unfolding insert set_string set_int type_code field_type field_length offset int32_of_size
  insert_fields tblname sch layout [] = pure tt
  insert_fields tblname sch layout (fldname ∷ rest) = do
    insert_record
    set_string tblname_name tblname
    set_string fldname_name fldname
    kind ← computed (field_type sch fldname)
    set_int type_name (type_code kind)
    width ← computed (field_length sch fldname)
    set_int length_name (int32_of_size width)
    off ← computed (offset layout fldname)
    set_int offset_name (int32_of_size off)
    insert_fields tblname sch layout rest

  unfoldable pub create_table : TableMgr → List ℕ → Schema → Tx (Unit {0})
  unfolding layout_of with_scan insert set_string set_int close insert_fields int32_of_size
  create_table mgr tblname sch = do
    layout ← computed (layout_of sch)
    with_scan k tblcat_name mgr.tcat_layout (do
      insert_record
      set_string tblname_name tblname
      set_int slotsize_name (int32_of_size layout.slotsize)
      close)
    with_scan k fldcat_name mgr.fcat_layout (do insert_fields tblname sch layout sch.fields; close)

  unfoldable pub new_table_mgr : Bool → Tx TableMgr
  unfolding build_tcat_layout build_fcat_layout create_table
  new_table_mgr is_new = do
    tcat ← computed build_tcat_layout
    fcat ← computed build_fcat_layout
    let mgr : TableMgr = record { tcat_layout = tcat; fcat_layout = fcat }
    elim is_new [
      | false ↦ pure mgr
      | true ↦ do
        create_table mgr tblcat_name tcat.schema
        create_table mgr fldcat_name fcat.schema
        pure mgr
    ]

  abbrev pub next_record : Exec TableScan Bool
  next_record = next k.waits k.slots k.blocks

  -- The loop over `tblcat`.
  unfoldable pub find_slotsize : List ℕ → ℕ → Exec TableScan (Option ℕ)
  unfolding next get_string get_int size_of_int32
  find_slotsize tblname zero = throw out_of_fuel
  find_slotsize tblname (suc fuel) = do
    more ← next_record
    elim more [
      | false ↦ pure none
      | true ↦ do
        name ← get_string tblname_name
        elim (bytes_eq name tblname) [
          | true ↦ do size ← get_int slotsize_name; pure (some (size_of_int32 size))
          | false ↦ find_slotsize tblname fuel
        ]
    ]

  -- The loop over `fldcat`.
  unfoldable pub read_fields :
      List ℕ → ℕ → Schema → (List ℕ → Option ℕ) → Exec TableScan (Schema × (List ℕ → Option ℕ))
  unfolding next get_string get_int size_of_int32 update add_field type_of_code
  read_fields tblname zero sch offsets = throw out_of_fuel
  read_fields tblname (suc fuel) sch offsets = do
    more ← next_record
    elim more [
      | false ↦ pure (sch, offsets)
      | true ↦ do
        name ← get_string tblname_name
        elim (bytes_eq name tblname) [
          | true ↦ do
            fldname ← get_string fldname_name
            fldtype ← get_int type_name
            fldlen ← get_int length_name
            fldoffset ← get_int offset_name
            t ← computed (type_of_code fldtype)
            read_fields tblname fuel (add_field sch fldname t (size_of_int32 fldlen))
                (update offsets fldname (some (size_of_int32 fldoffset)))
          | false ↦ read_fields tblname fuel sch offsets
        ]
    ]

  unfoldable pub get_layout : TableMgr → List ℕ → Tx Layout
  unfolding with_scan find_slotsize read_fields close
  get_layout mgr tblname = do
    size ←
        with_scan k tblcat_name mgr.tcat_layout
          (do found ← find_slotsize tblname k.records; close; pure found)
    (sch, offsets) ←
        with_scan k fldcat_name mgr.fcat_layout
          (do read ← read_fields tblname k.records empty_schema (λ _. none); close; pure read)
    elim size [ some slotsize ↦ pure (stored_layout sch offsets slotsize) | none ↦ throw no_table ]
