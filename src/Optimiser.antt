-- ===== src/Optimiser.antt =====
-- include/opt/tableplanner.hpp, src/opt/tableplanner.cpp, include/opt/heuristicqueryplanner.hpp and
-- src/opt/heuristicqueryplanner.cpp: the join order that the heuristic planner chooses.
pub mod Choice
pub mod Tables
use mudopdbmigration.Prelude.{
  ℕ, zero, suc, ◌+◌, Option, none, some, List, [], ◌∷◌, ltb, if◌then◌else◌, length, no_plan,
  out_of_fuel, Result, ok, err, ◌>>=◌, ◌>>◌,
}
use mudopdbmigration.Schema.{Schema}
use mudopdbmigration.Query.Predicate
use mudopdbmigration.Query.Predicate.{Predicate, select_sub_pred, join_sub_pred}
use mudopdbmigration.Parse.Data.{QueryData}
use mudopdbmigration.Plan
use mudopdbmigration.Plan.{
  Plan, Catalog, select_plan, schema, records_output, new_table_plan, new_product_plan,
  new_project_plan,
}

pub record TablePlanner : Type 0 where
  pub mypred : Predicate
  pub myplan : Plan

unfoldable pub new_table_planner : Catalog → Predicate → List ℕ → Result TablePlanner
unfolding new_table_plan
new_table_planner mdm pred tblname = do
  p ← new_table_plan mdm tblname
  ok (record { mypred = pred; myplan = p })

-- A selection on a plan, where there is a predicate for it.
abbrev pub select_if : Plan → Option Predicate → Plan
select_if p none = p
select_if p (some pred) = select_plan p pred

unfoldable pub add_select_pred : TablePlanner → Plan → Plan
unfolding select_sub_pred schema
add_select_pred tp p = select_if p (select_sub_pred tp.mypred (schema tp.myplan))

unfoldable pub add_join_pred : TablePlanner → Plan → Schema → Result Plan
unfolding join_sub_pred schema
add_join_pred tp p currsch = do
  joinpred ← join_sub_pred tp.mypred currsch (schema tp.myplan)
  ok (select_if p joinpred)

unfoldable pub make_select_plan : TablePlanner → Plan
unfolding add_select_pred
make_select_plan tp = add_select_pred tp tp.myplan

unfoldable pub make_product_plan : TablePlanner → Plan → Result Plan
unfolding add_select_pred new_product_plan
make_product_plan tp current = new_product_plan current (add_select_pred tp tp.myplan)

-- `return nullptr` where no predicate joins the two
abbrev pub join_if : Option Predicate → Result (Option Plan) → Result (Option Plan)
join_if none joined = ok none
join_if (some _) joined = joined

unfoldable pub make_join_plan : TablePlanner → Plan → Result (Option Plan)
unfolding join_sub_pred make_product_plan add_join_pred schema
make_join_plan tp current = do
  joinpred ← join_sub_pred tp.mypred (schema tp.myplan) (schema current)
  join_if joinpred
      (do p ← make_product_plan tp current; q ← add_join_pred tp p (schema current); ok (some q))

-- The best plan so far and its position, and a new plan at position `idx`.
unfoldable pub better : ℕ → Option Plan → Option (ℕ × Plan) → Option (ℕ × Plan)
unfolding records_output
better idx none best = best
better idx (some p) none = some (idx, p)
better idx (some p) (some (k, q)) =
    if ltb (records_output p) (records_output q) then some (idx, p) else some (k, q)

-- The loop that the three `get_lowest_…_plan` share.
unfoldable pub choose :
    (TablePlanner → Result (Option Plan))
    → ℕ
    → List TablePlanner
    → Option (ℕ × Plan)
    → Result (Option (ℕ × Plan))
unfolding better
choose make idx [] best = ok best
choose make idx (tp ∷ rest) best = do p ← make tp; choose make (idx + 1) rest (better idx p best)

unfoldable pub erase_at : ℕ → List TablePlanner → List TablePlanner
erase_at idx [] = []
erase_at zero (tp ∷ rest) = rest
erase_at (suc idx) (tp ∷ rest) = tp ∷ erase_at idx rest

-- The best plan is taken, and its planner erased.
unfoldable pub taken : List TablePlanner → Option (ℕ × Plan) → Option Plan × List TablePlanner
unfolding erase_at
taken tps none = (none, tps)
taken tps (some (idx, p)) = (some p, erase_at idx tps)

unfoldable pub get_lowest :
    (TablePlanner → Result (Option Plan))
    → List TablePlanner
    → Result (Option Plan × List TablePlanner)
unfolding choose taken
get_lowest make tps = do best ← choose make 0 tps none; ok (taken tps best)

unfoldable pub get_lowest_select_plan : List TablePlanner → Result (Option Plan × List TablePlanner)
unfolding get_lowest make_select_plan
get_lowest_select_plan tps = get_lowest (λ tp. ok (some (make_select_plan tp))) tps

unfoldable pub get_lowest_join_plan :
    Plan → List TablePlanner → Result (Option Plan × List TablePlanner)
unfolding get_lowest make_join_plan
get_lowest_join_plan current tps = get_lowest (λ tp. make_join_plan tp current) tps

abbrev pub found : Result Plan → Result (Option Plan)
found r = do p ← r; ok (some p)

unfoldable pub get_lowest_product_plan :
    Plan → List TablePlanner → Result (Option Plan × List TablePlanner)
unfolding get_lowest make_product_plan
get_lowest_product_plan current tps = get_lowest (λ tp. found (make_product_plan tp current)) tps

abbrev pub or_product :
    Plan → Option Plan → List TablePlanner → Result (Option Plan × List TablePlanner)
or_product current (some p) tps = ok (some p, tps)
or_product current none tps = get_lowest_product_plan current tps

-- One round: a join if there is one, and a product otherwise.
unfoldable pub extend : Plan → List TablePlanner → Result (Option Plan × List TablePlanner)
unfolding get_lowest_join_plan get_lowest_product_plan
extend current tps = do (p, tps') ← get_lowest_join_plan current tps; or_product current p tps'

-- The loop over the planners that are left takes fuel.
unfoldable pub join_all : ℕ → Option Plan → List TablePlanner → Result (Option Plan)
unfolding extend
join_all fuel current [] = ok current
join_all fuel none (tp ∷ rest) = err no_plan
join_all zero (some p) (tp ∷ rest) = err out_of_fuel
join_all (suc fuel) (some p) (tp ∷ rest) = do
  (next, tps) ← extend p (tp ∷ rest)
  join_all fuel next tps

unfoldable pub new_planners : Catalog → Predicate → List (List ℕ) → Result (List TablePlanner)
unfolding new_table_planner
new_planners mdm pred [] = ok []
new_planners mdm pred (tblname ∷ rest) = do
  tp ← new_table_planner mdm pred tblname
  tps ← new_planners mdm pred rest
  ok (tp ∷ tps)

abbrev pub or_no_plan : Option Plan → Result Plan
or_no_plan none = err no_plan
or_no_plan (some p) = ok p

-- The choice of the first plan, and the loop.
unfoldable pub join_planners : List TablePlanner → Result Plan
unfolding get_lowest_select_plan join_all
join_planners tps = do
  (first, rest) ← get_lowest_select_plan tps
  p ← join_all (length tps) first rest
  or_no_plan p

-- `HeuristicQueryPlanner::create_plan`
unfoldable pub create_plan : Catalog → QueryData → Result Plan
unfolding new_planners join_planners new_project_plan
create_plan mdm query_data = do
  tps ← new_planners mdm query_data.pred query_data.tables
  p ← join_planners tps
  new_project_plan p query_data.fields
