-- ===== src/Materialize/GroupBy.antt =====
-- include/materialize/groupbyscan.hpp and src/materialize/groupbyscan.cpp: the groups of a sorted
-- scan. The loop over the records of a group takes fuel.
pub mod Groups
pub mod Values
pub mod Keys
pub mod Totals
pub mod Summary
use mudopdbmigration.Constant.{as_int, as_string, Constant}
use mudopdbmigration.Prelude.{
  ℕ, zero, suc, Bool, true, false, ◌||◌, Option, none, some, List, [], ◌∷◌, if◌then◌else◌, bytes_eq,
  no_field, not_int, not_string, no_group_field, no_aggregate, out_of_fuel, Result, ok, err, ◌>>=◌,
  ◌>>◌,
}
use mudopdbmigration.Query.Scan.{Row, Scan}
use mudopdbmigration.Materialize.Aggregate.{
  AggregationFn, process_first, process_next, field_name, value, GroupValue, new_group_value,
  group_get_val, group_value_ne,
}

pub record GroupByScan (S : Type 0) : Type 0 where
  pub s : S
  pub groupfields : List (List ℕ)
  pub aggfns : List AggregationFn
  pub groupval : Option GroupValue
  pub moregroups : Bool

-- `for (auto& f : aggfns_)`
unfoldable pub each_fn :
    (AggregationFn → Result AggregationFn) → List AggregationFn → Result (List AggregationFn)
each_fn process [] = ok []
each_fn process (f ∷ fs) = do f' ← process f; fs' ← each_fn process fs; ok (f' ∷ fs')

-- `std::find(groupfields_.begin(), groupfields_.end(), fldname) != groupfields_.end()`
unfoldable pub is_group_field : List (List ℕ) → List ℕ → Bool
is_group_field [] fldname = false
is_group_field (f ∷ fields) fldname = bytes_eq f fldname || is_group_field fields fldname

unfoldable pub aggregate_val : List AggregationFn → List ℕ → Result Constant
aggregate_val [] fldname = err no_field
aggregate_val (f ∷ fs) fldname =
    if bytes_eq (field_name f) fldname
    then elim (value f) [ some v ↦ ok v | none ↦ err no_aggregate ]
    else aggregate_val fs fldname

unfoldable pub is_aggregate : List AggregationFn → List ℕ → Bool
is_aggregate [] fldname = false
is_aggregate (f ∷ fs) fldname = bytes_eq (field_name f) fldname || is_aggregate fs fldname

abbrev pub key_val : Option GroupValue → List ℕ → Result Constant
key_val none fldname = err no_group_field
key_val (some vals) fldname = elim (group_get_val vals fldname) [
  | some v ↦ ok v
  | none ↦ err no_group_field
]

unfoldable pub group_row :
    List (List ℕ) → Option GroupValue → List AggregationFn → List ℕ → Result Constant
group_row groupfields groupval aggfns fldname =
    if is_group_field groupfields fldname
    then key_val groupval fldname
    else aggregate_val aggfns fldname

module _ {S : Type 0} (scan : Scan S) where
  unfoldable pub group_before_first : GroupByScan S → Result (GroupByScan S)
  group_before_first g = do
    a ← scan.before_first g.s
    (more, a') ← scan.next a
    ok (record g { s = a'; moregroups = more })

  unfoldable pub new_group_by_scan : S → List (List ℕ) → List AggregationFn → Result (GroupByScan S)
  unfolding group_before_first
  new_group_by_scan a groupfields aggfns = group_before_first (record {
    s = a;
    groupfields = groupfields;
    aggfns = aggfns;
    groupval = none;
    moregroups = false;
  })

  -- `while (s_->next())`: whether another group follows, the scan and the functions.
  unfoldable pub gather :
      List (List ℕ)
      → GroupValue
      → ℕ
      → S
      → List AggregationFn
      → Result (Bool × S × List AggregationFn)
  gather fields vals zero a fns = err out_of_fuel
  gather fields vals (suc fuel) a fns = do
    (more, a') ← scan.next a
    elim more [
      | false ↦ ok (false, a', fns)
      | true ↦ do
        gv ← new_group_value (scan.get_val a') fields
        elim (group_value_ne vals gv) [
          | true ↦ ok (true, a', fns)
          | false ↦ do
            fns' ← each_fn (process_next (scan.get_val a')) fns
            gather fields vals fuel a' fns'
        ]
    ]

  unfoldable pub group_next : ℕ → GroupByScan S → Result (Bool × GroupByScan S)
  group_next fuel g = elim g.moregroups [
    | false ↦ ok (false, g)
    | true ↦ do
      fns ← each_fn (process_first (scan.get_val g.s)) g.aggfns
      vals ← new_group_value (scan.get_val g.s) g.groupfields
      (more, a, fns') ← gather g.groupfields vals fuel g.s fns
      ok (true, record g { s = a; aggfns = fns'; groupval = some vals; moregroups = more })
  ]

  unfoldable pub group_close : GroupByScan S → Result (GroupByScan S)
  group_close g = do a ← scan.close g.s; ok (record g { s = a })

  unfoldable pub group_by_get_val : GroupByScan S → List ℕ → Result Constant
  unfolding group_row
  group_by_get_val g fldname = group_row g.groupfields g.groupval g.aggfns fldname

  unfoldable pub group_by_get_int : GroupByScan S → List ℕ → Result ℕ
  unfolding group_by_get_val
  group_by_get_int g fldname = do
    v ← group_by_get_val g fldname
    elim (as_int v) [ some i ↦ ok i | none ↦ err not_int ]

  unfoldable pub group_by_get_string : GroupByScan S → List ℕ → Result (List ℕ)
  unfolding group_by_get_val
  group_by_get_string g fldname = do
    v ← group_by_get_val g fldname
    elim (as_string v) [ some s ↦ ok s | none ↦ err not_string ]

  unfoldable pub group_by_has_field : GroupByScan S → List ℕ → Bool
  group_by_has_field g fldname =
      is_group_field g.groupfields fldname || is_aggregate g.aggfns fldname

  unfoldable pub group_by_scan : ℕ → Scan (GroupByScan S)
  unfolding group_by_get_val
  group_by_scan fuel = record {
    before_first = group_before_first;
    next = group_next fuel;
    get_int = group_by_get_int;
    get_string = group_by_get_string;
    get_val = group_by_get_val;
    has_field = group_by_has_field;
    close = group_close;
  }
