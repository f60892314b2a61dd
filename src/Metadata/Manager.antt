-- ===== src/Metadata/Manager.antt =====
-- include/metadata/metadatamgr.hpp and src/metadata/metadatamgr.cpp: the managers of tables, views
-- and statistics together. The state has the transaction of the call.
use mudopdbmigration.Prelude.{ℕ, Bool, Option, List, Result, ok, err}
use mudopdbmigration.Exec.{Exec, ◌>>=◌, ◌>>◌}
use mudopdbmigration.Schema.{Schema}
use mudopdbmigration.Layout.{Layout}
use mudopdbmigration.Plan.{StatInfo}
use mudopdbmigration.Transaction.{Transaction, Tx}
use mudopdbmigration.Metadata.Scanning.{Rounds}
use mudopdbmigration.Metadata.Tables
use mudopdbmigration.Metadata.Tables.{TableMgr, new_table_mgr}
use mudopdbmigration.Metadata.Views
use mudopdbmigration.Metadata.Views.{new_view_mgr}
use mudopdbmigration.Metadata.Stats
use mudopdbmigration.Metadata.Stats.{StatMgr, new_stat_mgr, with_tx}

pub record MetadataMgr : Type 0 where
  pub tblmgr : TableMgr
  pub statmgr : StatMgr

abbrev pub managed : TableMgr → Result (Unit {0}) × StatMgr → Result MetadataMgr × Transaction
managed mgr (ok _, s) = (ok (record { tblmgr = mgr; statmgr = s }), s.tx)
managed mgr (err e, s) = (err e, s.tx)

module _ (k : Rounds) where
  unfoldable pub new_metadata_mgr : Bool → Tx MetadataMgr
  unfolding new_table_mgr new_view_mgr new_stat_mgr
  new_metadata_mgr is_new = do
    mgr ← new_table_mgr k is_new
    new_view_mgr k mgr is_new
    λ tx. managed mgr (new_stat_mgr k mgr tx)

  -- The methods pass the call on to the manager.
  abbrev pub on_tables : {A : Type 0} → (TableMgr → Tx A) → Exec MetadataMgr A
  on_tables method m =
      let (r, s) = with_tx (method m.tblmgr) m.statmgr in (r, record m { statmgr = s })

  unfoldable pub create_table : List ℕ → Schema → Exec MetadataMgr (Unit {0})
  unfolding Tables.create_table
  create_table tblname sch = on_tables λ mgr. Tables.create_table k mgr tblname sch

  unfoldable pub get_layout : List ℕ → Exec MetadataMgr Layout
  unfolding Tables.get_layout
  get_layout tblname = on_tables λ mgr. Tables.get_layout k mgr tblname

  unfoldable pub create_view : List ℕ → List ℕ → Exec MetadataMgr (Unit {0})
  unfolding Views.create_view
  create_view viewname viewdef = on_tables λ mgr. Views.create_view k mgr viewname viewdef

  unfoldable pub get_view_def : List ℕ → Exec MetadataMgr (Option (List ℕ))
  unfolding Views.get_view_def
  get_view_def viewname = on_tables λ mgr. Views.get_view_def k mgr viewname

  unfoldable pub get_stat_info : List ℕ → Layout → Exec MetadataMgr StatInfo
  unfolding Stats.get_stat_info
  get_stat_info tblname layout m =
      let (r, s) = Stats.get_stat_info k m.tblmgr tblname layout m.statmgr in
      (r, record m { statmgr = s })
