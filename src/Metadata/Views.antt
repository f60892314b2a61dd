-- ===== src/Metadata/Views.antt =====
-- include/metadata/viewmgr.hpp and src/metadata/viewmgr.cpp: the views and their definitions.
use mudopdbmigration.Prelude.{
  ℕ, zero, suc, Bool, true, false, Option, none, some, List, bytes_eq, out_of_fuel,
}
use mudopdbmigration.Exec.{Exec, pure, throw, ◌>>=◌, ◌>>◌}
use mudopdbmigration.Schema.{empty_schema, add_string_field}
use mudopdbmigration.TableScan.{TableScan, insert, set_string, get_string, close, next}
use mudopdbmigration.Transaction.{Tx}
use mudopdbmigration.Metadata.Names.{viewcat_name, viewname_name, viewdef_name}
use mudopdbmigration.Metadata.Scanning.{Rounds, with_scan}
use mudopdbmigration.Metadata.Tables.{
  TableMgr, max_name, create_table, get_layout, insert_record, next_record,
}

-- `MAX_VIEWDEF`
abbrev pub max_viewdef : ℕ
max_viewdef = 100

module _ (k : Rounds) (tbl_mgr : TableMgr) where
  -- The constructor, which keeps the table manager.
  unfoldable pub new_view_mgr : Bool → Tx (Unit {0})
  unfolding create_table add_string_field
  new_view_mgr false = pure tt
  new_view_mgr true = create_table k tbl_mgr viewcat_name (
      add_string_field (add_string_field empty_schema viewname_name max_name) viewdef_name
        max_viewdef)

  unfoldable pub create_view : List ℕ → List ℕ → Tx (Unit {0})
  unfolding get_layout with_scan insert set_string close
  create_view vname vdef = do
    layout ← get_layout k tbl_mgr viewcat_name
    with_scan k viewcat_name layout
        (do insert_record k; set_string viewname_name vname; set_string viewdef_name vdef; close)

  -- The loop over `viewcat`.
  unfoldable pub find_view : List ℕ → ℕ → Exec TableScan (Option (List ℕ))
  unfolding next get_string close
  find_view vname zero = throw out_of_fuel
  find_view vname (suc fuel) = do
    more ← next_record k
    elim more [
      | false ↦ do close; pure none
      | true ↦ do
        name ← get_string viewname_name
        elim (bytes_eq name vname) [
          | true ↦ do result ← get_string viewdef_name; close; pure (some result)
          | false ↦ find_view vname fuel
        ]
    ]

  unfoldable pub get_view_def : List ℕ → Tx (Option (List ℕ))
  unfolding get_layout with_scan find_view
  get_view_def vname = do
    layout ← get_layout k tbl_mgr viewcat_name
    with_scan k viewcat_name layout (find_view vname k.records)
