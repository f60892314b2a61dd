-- ===== src/Metadata/Stats.antt =====
-- include/metadata/statmgr.hpp and src/metadata/statmgr.cpp: the statistics of the tables, which are
-- computed again after a hundred calls. The loops over the records take fuel.
pub mod Cache
use mudopdbmigration.Prelude.{
  ℕ, zero, suc, ◌+◌, ◌%◌, true, false, Option, none, some, List, ltb, if◌then◌else◌, update,
  out_of_fuel, Result, ok,
}
use mudopdbmigration.Exec.{Exec, continue, pure, throw, gets, ◌>>=◌, ◌>>◌}
use mudopdbmigration.Page.{size_mod, size_of_int32}
use mudopdbmigration.Layout.{Layout}
use mudopdbmigration.Plan.{StatInfo}
use mudopdbmigration.Rid.{Rid}
use mudopdbmigration.TableScan.{TableScan, new_table_scan, on_tx, get_string, close, next, get_rid}
use mudopdbmigration.Transaction.{Transaction, Tx}
use mudopdbmigration.Metadata.Names.{tblcat_name, tblname_name}
use mudopdbmigration.Metadata.Scanning.{Rounds, with_scan}
use mudopdbmigration.Metadata.Tables.{TableMgr, get_layout, next_record}

-- `StatMgr` but for its table manager, with the transaction of the call.
pub record StatMgr : Type 0 where
  pub tablestats : List ℕ → Option StatInfo
  pub numcalls : ℕ
  pub tx : Transaction

-- A key that is there keeps its value.
unfoldable pub emplace_stats :
    (List ℕ → Option StatInfo) → List ℕ → StatInfo → List ℕ → Option StatInfo
unfolding update
emplace_stats stats tblname si = elim (stats tblname) [
  | some _ ↦ stats
  | none ↦ update stats tblname (some si)
]

-- The map and the scan of `tblcat`, while the statistics are computed again.
pub record Refreshing : Type 0 where
  pub stats : List ℕ → Option StatInfo
  pub scan : TableScan

abbrev pub in_scan : {A : Type 0} → Exec TableScan A → Exec Refreshing A
in_scan m s = let (r, sc) = m s.scan in (r, record s { scan = sc })

abbrev pub with_tx : {A : Type 0} → Tx A → Exec StatMgr A
with_tx m s = let (r, tx) = m s.tx in (r, record s { tx = tx })

abbrev pub put_stats : List ℕ → StatInfo → Exec Refreshing (Unit {0})
put_stats tblname si s = (ok tt, record s { stats = emplace_stats s.stats tblname si })

abbrev pub keep_stats : List ℕ → StatInfo → Exec StatMgr (Unit {0})
keep_stats tblname si s = (ok tt, record s { tablestats = emplace_stats s.tablestats tblname si })

abbrev pub after_block : ℕ → Option Rid → ℕ
after_block numblocks none = numblocks
after_block numblocks (some rid) = (size_of_int32 rid.blknum + 1) % size_mod

module _ (k : Rounds) (tbl_mgr : TableMgr) where
  unfoldable pub count_records : ℕ → ℕ → ℕ → Exec TableScan StatInfo
  unfolding next get_rid size_of_int32
  count_records zero num_recs numblocks = throw out_of_fuel
  count_records (suc fuel) num_recs numblocks = do
    more ← next_record k
    elim more [
      | false ↦ pure (record { num_blocks = numblocks; num_recs = num_recs })
      | true ↦ do
        rid ← get_rid
        count_records fuel ((num_recs + 1) % size_mod) (after_block numblocks rid)
    ]

  unfoldable pub calc_table_stats : List ℕ → Layout → Tx StatInfo
  unfolding with_scan count_records close
  calc_table_stats tblname layout =
      with_scan k tblname layout (do si ← count_records k.records 0 0; close; pure si)

  -- The loop over `tblcat`.
  unfoldable pub refresh_tables : ℕ → Exec Refreshing (Unit {0})
  unfolding next get_string get_layout calc_table_stats emplace_stats
  refresh_tables zero = throw out_of_fuel
  refresh_tables (suc fuel) = do
    more ← in_scan (next_record k)
    elim more [
      | false ↦ pure tt
      | true ↦ do
        tblname ← in_scan (get_string tblname_name)
        layout ← in_scan (on_tx (get_layout k tbl_mgr tblname))
        si ← in_scan (on_tx (calc_table_stats tblname layout))
        put_stats tblname si
        refresh_tables fuel
    ]

  abbrev pub leave_refresh : ℕ → Result (Unit {0}) × Refreshing → Result (Unit {0}) × StatMgr
  leave_refresh numcalls (r, s) =
      (r, record { tablestats = s.stats; numcalls = numcalls; tx = s.scan.tx })

  abbrev pub start_refresh :
      (List ℕ → Option StatInfo) → Result (Unit {0}) × TableScan → Result (Unit {0}) × Refreshing
  start_refresh stats (r, sc) = (r, record { stats = stats; scan = sc })

  -- The scan of `tblcat` in `refresh_statistics`.
  unfoldable pub refresh_from : Layout → Exec StatMgr (Unit {0})
  unfolding new_table_scan refresh_tables close
  refresh_from tcatlayout s = leave_refresh s.numcalls (
      continue
        (start_refresh s.tablestats (new_table_scan k.waits k.slots s.tx tblcat_name tcatlayout))
        (λ _. do refresh_tables k.records; in_scan close))

  abbrev pub cleared : Exec StatMgr (Unit {0})
  cleared s = (ok tt, record s { tablestats = λ _. none; numcalls = 0 })

  unfoldable pub refresh_statistics : Exec StatMgr (Unit {0})
  unfolding get_layout refresh_from
  refresh_statistics = do
    cleared
    tcatlayout ← with_tx (get_layout k tbl_mgr tblcat_name)
    refresh_from tcatlayout

  unfoldable pub new_stat_mgr : Transaction → Result (Unit {0}) × StatMgr
  unfolding refresh_statistics
  new_stat_mgr tx = refresh_statistics (record { tablestats = λ _. none; numcalls = 0; tx = tx })

  abbrev pub counted : Exec StatMgr ℕ
  counted s = let n = (s.numcalls + 1) % size_mod in (ok n, record s { numcalls = n })

  -- The answer from the map, or from the table itself.
  unfoldable pub look_up : List ℕ → Layout → Exec StatMgr StatInfo
  unfolding calc_table_stats emplace_stats
  look_up tblname layout s = elim (s.tablestats tblname) [
    | some si ↦ (ok si, s)
    | none ↦
        continue (with_tx (calc_table_stats tblname layout) s)
          λ si. do keep_stats tblname si; pure si
  ]

  unfoldable pub get_stat_info : List ℕ → Layout → Exec StatMgr StatInfo
  unfolding refresh_statistics look_up
  get_stat_info tblname layout = do
    numcalls ← counted
    if ltb 100 numcalls then refresh_statistics else pure tt
    look_up tblname layout
