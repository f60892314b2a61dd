-- ===== src/Materialize/Cost.antt =====
-- src/materialize/{materializeplan,sortplan,groupbyplan,mergejoinplan}.cpp: the schemas and the cost
-- estimates of these plans, over the plans that a query is made of. Here `blocksize` is
-- `tx_->block_size()`, and sizes wrap like `size_t`.
use mudopdbmigration.Prelude.{
  ℕ, ◌+◌, ◌-◌, ◌*◌, ◌/◌, ◌%◌, List, [], ◌∷◌, ◌==◌, if◌then◌else◌, undefined, Result, ok, err, ◌>>=◌,
}
pub mod Bounds
use Prim.Native.Nat.{max}
use mudopdbmigration.Page.{size_mod}
use mudopdbmigration.Layout.{layout_of}
use mudopdbmigration.Schema.{Schema, empty_schema, add_from, add_all, add_int_field, has_field}
use mudopdbmigration.Materialize.Aggregate.{AggregationFn, field_name}
use mudopdbmigration.Plan
use mudopdbmigration.Plan.{Plan, schema, distinct_values, records_output}

abbrev pub at_least_one : ℕ → ℕ
at_least_one n = if n == 0 then 1 else n

-- The quotient rounded up, and undefined for a divisor of zero.
unfoldable pub blocks_for : ℕ → ℕ → ℕ
blocks_for numrecs rpb = (numrecs + rpb - 1) % size_mod / rpb

-- A layout without a byte divides by zero.
abbrev pub records_per_block : ℕ → ℕ → Result ℕ
records_per_block blocksize slotsize =
    if slotsize == 0 then err undefined else ok (at_least_one (blocksize / slotsize))

-- `MaterializePlan::blocks_accessed`
unfoldable pub materialize_blocks_accessed : ℕ → Plan → Result ℕ
unfolding schema records_output layout_of blocks_for
materialize_blocks_accessed blocksize srcplan = do
  layout ← layout_of (schema srcplan)
  rpb ← records_per_block blocksize layout.slotsize
  ok (blocks_for (records_output srcplan) rpb)

-- `MaterializePlan`'s other methods, which ask the plan below
unfoldable pub materialize_records_output : Plan → ℕ
unfolding records_output
materialize_records_output srcplan = records_output srcplan

unfoldable pub materialize_distinct_values : Plan → List ℕ → ℕ
unfolding distinct_values
materialize_distinct_values srcplan fldname = distinct_values srcplan fldname

-- `SortPlan`
unfoldable pub sort_blocks_accessed : ℕ → Plan → Result ℕ
unfolding materialize_blocks_accessed
sort_blocks_accessed blocksize p = materialize_blocks_accessed blocksize p

unfoldable pub sort_records_output : Plan → ℕ
unfolding records_output
sort_records_output p = records_output p

unfoldable pub sort_distinct_values : Plan → List ℕ → ℕ
unfolding distinct_values
sort_distinct_values p fldname = distinct_values p fldname

unfoldable pub sort_schema : Plan → Schema
unfolding schema
sort_schema p = schema p

-- `GroupByPlan`'s constructor
unfoldable pub add_group_fields : Schema → List (List ℕ) → Schema → Result Schema
unfolding add_from
add_group_fields sch [] other = ok sch
add_group_fields sch (fldname ∷ rest) other = do
  sch' ← add_from sch fldname other
  add_group_fields sch' rest other

unfoldable pub add_aggregates : Schema → List AggregationFn → Schema
unfolding add_int_field field_name
add_aggregates sch [] = sch
add_aggregates sch (f ∷ fs) = add_aggregates (add_int_field sch (field_name f)) fs

unfoldable pub group_by_schema : Plan → List (List ℕ) → List AggregationFn → Result Schema
unfolding add_group_fields add_aggregates sort_schema
group_by_schema p groupfields fns = do
  sch ← add_group_fields empty_schema groupfields (sort_schema p)
  ok (add_aggregates sch fns)

unfoldable pub group_by_blocks_accessed : ℕ → Plan → Result ℕ
unfolding sort_blocks_accessed
group_by_blocks_accessed blocksize p = sort_blocks_accessed blocksize p

unfoldable pub count_groups : Plan → List (List ℕ) → ℕ → ℕ
unfolding sort_distinct_values
count_groups p [] numgroups = numgroups
count_groups p (fldname ∷ rest) numgroups =
    count_groups p rest (numgroups * sort_distinct_values p fldname % size_mod)

unfoldable pub group_by_records_output : Plan → List (List ℕ) → ℕ
unfolding count_groups
group_by_records_output p groupfields = count_groups p groupfields 1

unfoldable pub group_by_distinct_values : Plan → List (List ℕ) → List ℕ → ℕ
unfolding group_by_records_output sort_distinct_values sort_schema has_field
group_by_distinct_values p groupfields fldname =
    if has_field (sort_schema p) fldname
    then sort_distinct_values p fldname
    else group_by_records_output p groupfields

-- `MergeJoinPlan`
unfoldable pub merge_join_schema : Plan → Plan → Result Schema
unfolding add_all sort_schema
merge_join_schema p1 p2 = do
  sch ← add_all empty_schema (sort_schema p1)
  add_all sch (sort_schema p2)

unfoldable pub merge_join_blocks_accessed : ℕ → Plan → Plan → Result ℕ
unfolding sort_blocks_accessed
merge_join_blocks_accessed blocksize p1 p2 = do
  blocks1 ← sort_blocks_accessed blocksize p1
  blocks2 ← sort_blocks_accessed blocksize p2
  ok ((blocks1 + blocks2) % size_mod)

unfoldable pub merge_join_records_output : Plan → Plan → List ℕ → List ℕ → ℕ
unfolding sort_distinct_values sort_records_output
merge_join_records_output p1 p2 fldname1 fldname2 =
    sort_records_output p1
    * sort_records_output p2
    % size_mod
    / at_least_one (max (sort_distinct_values p1 fldname1) (sort_distinct_values p2 fldname2))

unfoldable pub merge_join_distinct_values : Plan → Plan → List ℕ → ℕ
unfolding sort_distinct_values sort_schema has_field
merge_join_distinct_values p1 p2 fldname =
    if has_field (sort_schema p1) fldname
    then sort_distinct_values p1 fldname
    else sort_distinct_values p2 fldname
