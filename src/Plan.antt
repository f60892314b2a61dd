-- ===== src/Plan.antt =====
-- include/plan/*plan.hpp, src/plan/*plan.cpp, src/metadata/statinfo.cpp and
-- src/plan/basicqueryplanner.cpp: plans and their cost estimates, in `size_t`. What the metadata
-- manager answers is an argument, and `open` is left out.
use Prim.Native.Nat.{min}
use mudopdbmigration.Prelude.{
  ℕ, zero, suc, ◌+◌, ◌*◌, ◌/◌, ◌%◌, true, false, Option, none, some, List, [], ◌∷◌, ◌==◌,
  if◌then◌else◌, undefined, out_of_fuel, Result, ok, err, ◌>>=◌,
}
use mudopdbmigration.Page.{size_mod}
use mudopdbmigration.Schema.{Schema, add_from, add_all, has_field, empty_schema}
use mudopdbmigration.Layout.{Layout}
use mudopdbmigration.Query.Predicate.{
  Predicate, reduction_factor, equates_with_constant, equates_with_field,
}
use mudopdbmigration.Parse.Data.{QueryData}
use mudopdbmigration.Parse.Parser
use mudopdbmigration.Parse.Parser.{parse, Parser, field_list, query}

pub record StatInfo : Type 0 where
  pub num_blocks : ℕ
  pub num_recs : ℕ

-- `StatInfo::distinct_values`
unfoldable pub stat_distinct_values : StatInfo → ℕ
stat_distinct_values si = (1 + si.num_recs / 3) % size_mod

-- The answers of the metadata manager, by table name.
pub record Catalog : Type 0 where
  pub layout : List ℕ → Result Layout
  pub stat_info : List ℕ → Layout → Result StatInfo
  pub view_def : List ℕ → Result (Option (List ℕ))

-- The subclasses of `Plan`.
pub data Plan : Type 0 where
  table_plan : List ℕ → Layout → StatInfo → Plan
  select_plan : Plan → Predicate → Plan
  project_plan : Plan → Schema → Plan
  product_plan : Plan → Plan → Schema → Plan

unfoldable pub schema : Plan → Schema
schema (table_plan tblname layout si) = layout.schema
schema (select_plan p pred) = schema p
schema (project_plan p sch) = sch
schema (product_plan p1 p2 sch) = sch

unfoldable pub distinct_values : Plan → List ℕ → ℕ
unfolding stat_distinct_values equates_with_constant equates_with_field has_field schema
distinct_values (table_plan tblname layout si) fldname = stat_distinct_values si
distinct_values (select_plan p pred) fldname = elim (equates_with_constant pred fldname) [
  | some _ ↦ 1
  | none ↦ elim (equates_with_field pred fldname) [
    | some fldname2 ↦ min (distinct_values p fldname) (distinct_values p fldname2)
    | none ↦ distinct_values p fldname
  ]
]
distinct_values (project_plan p sch) fldname = distinct_values p fldname
distinct_values (product_plan p1 p2 sch) fldname = elim (has_field (schema p1) fldname) [
  | true ↦ distinct_values p1 fldname
  | false ↦ distinct_values p2 fldname
]

-- The quotient by the reduction factor, unless that is zero.
abbrev pub reduced : ℕ → ℕ → ℕ
reduced n rf = if rf == 0 then n else n / rf

unfoldable pub records_output : Plan → ℕ
unfolding reduction_factor distinct_values
records_output (table_plan tblname layout si) = si.num_recs
records_output (select_plan p pred) =
    reduced (records_output p) (reduction_factor pred (distinct_values p))
records_output (project_plan p sch) = records_output p
records_output (product_plan p1 p2 sch) = records_output p1 * records_output p2 % size_mod

unfoldable pub blocks_accessed : Plan → ℕ
unfolding records_output
blocks_accessed (table_plan tblname layout si) = si.num_blocks
blocks_accessed (select_plan p pred) = blocks_accessed p
blocks_accessed (project_plan p sch) = blocks_accessed p
blocks_accessed (product_plan p1 p2 sch) =
    (blocks_accessed p1 + records_output p1 * blocks_accessed p2) % size_mod

unfoldable pub new_table_plan : Catalog → List ℕ → Result Plan
new_table_plan mdm tblname = do
  layout ← mdm.layout tblname
  si ← mdm.stat_info tblname layout
  ok (table_plan tblname layout si)

unfoldable pub new_product_plan : Plan → Plan → Result Plan
unfolding add_all schema
new_product_plan p1 p2 = do
  sch ← add_all empty_schema (schema p1)
  sch' ← add_all sch (schema p2)
  ok (product_plan p1 p2 sch')

-- The loop of the constructor of `ProjectPlan`.
unfoldable pub add_fields : Schema → List (List ℕ) → Schema → Result Schema
unfolding add_from
add_fields sch [] other = ok sch
add_fields sch (fldname ∷ rest) other = do
  sch' ← add_from sch fldname other
  add_fields sch' rest other

unfoldable pub new_project_plan : Plan → List (List ℕ) → Result Plan
unfolding add_fields schema
new_project_plan p field_list = do
  sch ← add_fields empty_schema field_list (schema p)
  ok (project_plan p sch)

-- The plan of a table, or that of the query that defines a view.
unfoldable pub plan_of : Catalog → (QueryData → Result Plan) → List ℕ → Result Plan
unfolding new_table_plan parse
plan_of mdm create tblname = do
  viewdef ← mdm.view_def tblname
  elim viewdef [
    | none ↦ new_table_plan mdm tblname
    | some text ↦ do viewdata ← parse Parser.query text; create viewdata
  ]

unfoldable pub plans_of : Catalog → (QueryData → Result Plan) → List (List ℕ) → Result (List Plan)
unfolding plan_of
plans_of mdm create [] = ok []
plans_of mdm create (tblname ∷ rest) = do
  p ← plan_of mdm create tblname
  ps ← plans_of mdm create rest
  ok (p ∷ ps)

unfoldable pub product_of : Plan → List Plan → Result Plan
unfolding new_product_plan
product_of p [] = ok p
product_of p (q ∷ rest) = do p' ← new_product_plan p q; product_of p' rest

-- `plans[0]`, undefined where there is no table
abbrev pub product_of_all : List Plan → Result Plan
product_of_all [] = err undefined
product_of_all (p ∷ rest) = product_of p rest

-- `BasicQueryPlanner::create_plan`. Views may refer to each other, so the recursion takes fuel.
unfoldable pub create_basic_plan : Catalog → ℕ → QueryData → Result Plan
unfolding plans_of product_of new_project_plan
create_basic_plan mdm zero query_data = err out_of_fuel
create_basic_plan mdm (suc fuel) query_data = do
  plans ← plans_of mdm (create_basic_plan mdm fuel) query_data.tables
  p ← product_of_all plans
  new_project_plan (select_plan p query_data.pred) query_data.fields
