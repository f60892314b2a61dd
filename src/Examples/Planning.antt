-- ===== src/Examples/Planning.antt =====
-- The planners of two tables, one of them listed twice.
use mudopdbmigration.Schema.{empty_schema}
use mudopdbmigration.Prelude.{ℕ, none, List, [], ◌∷◌}
use mudopdbmigration.Plan.{table_plan}
use mudopdbmigration.Layout.{stored_layout}
use mudopdbmigration.Optimiser.{TablePlanner, join_planners}
use mudopdbmigration.Optimiser.Choice.{Reads, reads_all}
use mudopdbmigration.Optimiser.Tables.{join_planners-Reads}

abbrev planner : List ℕ → ℕ → TablePlanner
planner tblname recs = record {
  mypred = [];
  myplan =
      table_plan tblname (stored_layout empty_schema (λ _. none) 8)
        (record { num_blocks = 2; num_recs = recs });
}

abbrev planners : List TablePlanner
planners = planner (116 ∷ []) 9 ∷ planner (117 ∷ []) 4 ∷ planner (116 ∷ []) 9 ∷ []

join_planners-Reads_example :
    Reads (116 ∷ []) (reads_all (116 ∷ []) planners) (join_planners planners)
join_planners-Reads_example = join_planners-Reads (116 ∷ []) planners
