-- ===== src/Examples/Updates.antt =====
-- A map of statistics, and the plan of a table.
use mudopdbmigration.Prelude.{
  ℕ, ◌+◌, ◌*◌, ◌≤◌, ◌<◌, ◌≡◌, refl, ◌⊎◌, Option, none, some, List, [], arith, bytes_eq, update, ok,
}
use mudopdbmigration.Examples.Scans.{id}
use mudopdbmigration.Examples.Transactions.{tx}
use mudopdbmigration.Layout.{Layout, layout_of, stored_layout, place_fields}
use mudopdbmigration.Schema.{empty_schema}
use mudopdbmigration.Plan
use mudopdbmigration.Plan.{Plan, table_plan, StatInfo, records_output, schema}
use mudopdbmigration.Materialize.Cost.{materialize_blocks_accessed}
use mudopdbmigration.Materialize.Cost.Bounds.{materialize_blocks_accessed-bounds}
use mudopdbmigration.Metadata.Scanning.{Rounds}
use mudopdbmigration.Metadata.Tables.{TableMgr}
use mudopdbmigration.Metadata.Stats.{StatMgr, get_stat_info, look_up}
use mudopdbmigration.Metadata.Stats.Cache.{get_stat_info-numcalls, get_stat_info-again}

abbrev no_layout : Layout
no_layout = stored_layout empty_schema (λ _. none) 4

abbrev plan : Plan
plan = table_plan id no_layout (record { num_blocks = 2; num_recs = 9 })

laid : layout_of (Plan.schema plan) ≡ ok no_layout
unfolding layout_of place_fields Plan.schema
laid = refl

nine : records_output plan ≡ 9
unfolding records_output
nine = refl

materialize_blocks_accessed-bounds_example :
    (blocks : ℕ) × (materialize_blocks_accessed 16 plan ≡ ok blocks)
    × (records_output plan ≤ blocks * 4)
    × (blocks * 4 < records_output plan + 4)
materialize_blocks_accessed-bounds_example =
    materialize_blocks_accessed-bounds 16 plan no_layout laid (omega arith) (omega (arith, nine))

abbrev rounds : Rounds
rounds = record { waits = []; slots = 9; blocks = 2; records = 9 }

abbrev manager : TableMgr
manager = record { tcat_layout = no_layout; fcat_layout = no_layout }

abbrev known : StatInfo
known = record { num_blocks = 2; num_recs = 9 }

abbrev stats : ℕ → StatMgr
stats n = record { tablestats = update (λ _. none) id (some known); numcalls = n; tx = tx }

get_stat_info-numcalls_example :
    ((get_stat_info rounds manager id no_layout (stats 100)).1.numcalls ≤ 100)
    × (((stats 100).numcalls < 100)
        ⊎ ((old : List ℕ → Option StatInfo)
            → get_stat_info rounds manager id no_layout (record (stats 100) { tablestats = old })
              ≡ get_stat_info rounds manager id no_layout (stats 100)))
get_stat_info-numcalls_example =
    get_stat_info-numcalls rounds manager id no_layout (stats 100) (omega arith)

first_answer : get_stat_info rounds manager id no_layout (stats 7) ≡ (ok known, stats 8)
unfolding get_stat_info look_up update bytes_eq
first_answer = refl

get_stat_info-again_example :
    get_stat_info rounds manager id no_layout (stats 8) ≡ (ok known, stats 9)
get_stat_info-again_example =
    get_stat_info-again rounds manager id no_layout no_layout (stats 7) (stats 8) known first_answer
      (omega arith)
