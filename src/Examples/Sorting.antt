-- ===== src/Examples/Sorting.antt =====
-- Two sorted lists of rows for a sort scan, and rows in groups.
use mudopdbmigration.Materialize.Compare.{compare_fields, comes_first}
use mudopdbmigration.Prelude.{
  ℕ, ◌^◌, ◌<◌, ◌≡◌, refl, subst, inl, inr, true, false, none, some, List, [], ◌∷◌, ◌++◌, arith,
  bytes_eq, int32_lt, ok, ◌>>=◌,
}
use mudopdbmigration.Constant.{
  Constant, int_val, index, variant_eq, variant_lt, constant_eq, constant_lt, constant_le,
  constant_gt,
}
use mudopdbmigration.Query.Scan.{Row, Runs, drain}
use mudopdbmigration.Examples.Scans.{id, row, Cursor, list_scan, list_next}
use mudopdbmigration.Materialize.Compare.Order.{IsComparable, less}
use mudopdbmigration.Materialize.SortScan.{SortScan, sort_scan, sort_before_first}
use mudopdbmigration.Materialize.SortScan.Merge.{AllComparable}
use mudopdbmigration.Materialize.SortScan.Sides.{GoodSort}
use mudopdbmigration.Materialize.SortScan.Sorted.{IsSorted}
use mudopdbmigration.Materialize.SortScan.Rows.{sort_scan-IsSorted}
use mudopdbmigration.Materialize.Aggregate.{
  AggregationFn, max_fn, new_count_fn, new_max_fn, field_name,
}
use mudopdbmigration.Materialize.GroupBy.{GroupByScan, group_by_scan, group_before_first}
use mudopdbmigration.Materialize.GroupBy.Values.{HasValues}
use mudopdbmigration.Materialize.GroupBy.Summary.{
  Stretches, stretch, no_rows, Summaries, group_by_scan-Summaries,
}
use mudopdbmigration.Materialize.Aggregate.Meaning.{over_group, over_group-max, IsOneOf, IsAbove}
use mathlib.Core.List.{Perm}

abbrev fields : List (List ℕ)
fields = id ∷ []

abbrev Keyed : Cursor → Type 0
Keyed s = AllComparable fields s.0 × AllComparable fields s.1

keyed_end :
    (all rest : List Row) (r : Row)
    → AllComparable fields all
    → rest ≡ []
    → (s' : Cursor) × (list_next all rest r ≡ ok (false, s')) × Keyed s' × (s'.0 ≡ all)
keyed_end all rest r g e = ((all, [], r), rw e refl, (g, tt), refl)

keyed_row :
    (all rest : List Row) (r r' : Row) (rs : List Row)
    → AllComparable fields all
    → AllComparable fields rest
    → rest ≡ r' ∷ rs
    → (s' : Cursor) × (list_next all rest r ≡ ok (true, s'))
      × Keyed s'
      × (s'.1 ≡ rs)
      × (s'.0 ≡ all)
      × (s'.2 ≡ r')
keyed_row all rest r r' rs g h e =
    ((all, rs, r'), rw e refl, (g, (subst (AllComparable fields) e h).1), refl, refl, refl)

abbrev keyed_runs : Runs Keyed list_scan
keyed_runs = record {
  names = λ f. bytes_eq f id;
  all = λ s. s.0;
  rest = λ s. s.1;
  fields = λ s g f. refl;
  reset = λ s g. ((s.0, s.0, s.2), refl, (g.0, g.0), refl, refl);
  at_end = λ s g e. keyed_end s.0 s.1 s.2 g.0 e;
  at_row = λ s r rs g e. keyed_row s.0 s.1 s.2 r rs g.0 g.1 e;
}

keys : (a : Cursor) → Keyed a → AllComparable fields (keyed_runs.rest a)
keys a g = g.1

row_id : (n : ℕ) → row n id ≡ ok (int_val n)
unfolding bytes_eq
row_id n = refl

row-IsComparable : (n : ℕ) → n < 2 ^ 32 → IsComparable fields (row n)
unfolding bytes_eq
row-IsComparable n h = ((int_val n, refl, h), tt)

abbrev pair : ℕ → ℕ → Cursor
pair m n = (row m ∷ row n ∷ [], row n ∷ [], row m)

pair-IsComparable : (m n : ℕ) → m < 2 ^ 32 → n < 2 ^ 32 → AllComparable fields (row m ∷ row n ∷ [])
pair-IsComparable m n h k = (row-IsComparable m h, (row-IsComparable n k, tt))

abbrev two_runs : SortScan Cursor
two_runs = record {
  s1 = some (pair 2 8);
  s2 = some (pair 5 9);
  currentidx = none;
  hasmore1 = true;
  hasmore2 = true;
  saved1 = none;
  saved2 = none;
}

two_runs-GoodSort : GoodSort keyed_runs fields keys two_runs
two_runs-GoodSort =
    let c = pair-IsComparable 2 8 (omega arith) (omega arith) in
    let d = pair-IsComparable 5 9 (omega arith) (omega arith) in
    record { first = ((c, c.1), c); second = ((d, d.1), d); run = tt }

IsSorted-2_8 : IsSorted fields (row 2 ∷ row 8 ∷ [])
unfolding less comes_first compare_fields int32_lt bytes_eq constant_gt constant_lt constant_le
    variant_lt index variant_eq constant_eq
IsSorted-2_8 = ((refl, tt), (tt, tt))

IsSorted-5_9 : IsSorted fields (row 5 ∷ row 9 ∷ [])
unfolding less comes_first compare_fields int32_lt bytes_eq constant_gt constant_lt constant_le
    variant_lt index variant_eq constant_eq
IsSorted-5_9 = ((refl, tt), (tt, tt))

sort_scan-IsSorted_example :
    (out : List Row) × ((do
      s' ← sort_before_first list_scan two_runs
      drain (sort_scan list_scan fields) 5 s')
      ≡ ok (some out))
    × IsSorted fields out
    × Perm out ((row 2 ∷ row 8 ∷ []) ++ (row 5 ∷ row 9 ∷ []))
sort_scan-IsSorted_example =
    sort_scan-IsSorted keyed_runs fields keys two_runs 5 two_runs-GoodSort IsSorted-2_8 IsSorted-5_9
      (omega arith)

abbrev functions : List AggregationFn
functions = new_count_fn id ∷ new_max_fn id ∷ []

abbrev grouping : GroupByScan Cursor
grouping = record {
  s = (row 5 ∷ row 5 ∷ row 8 ∷ [], [], row 8);
  groupfields = fields;
  aggfns = functions;
  groupval = none;
  moregroups = false;
}

abbrev groups : List (Row × List Row)
groups = (row 5, row 5 ∷ []) ∷ (row 8, []) ∷ []

keyed : (n : ℕ) → HasValues fields (row n)
keyed n = ((int_val n, row_id n), tt)

grouping-Stretches : Stretches fields functions (row 5 ∷ row 5 ∷ row 8 ∷ []) groups
unfolding new_count_fn new_max_fn
grouping-Stretches =
    let five = row_id 5 in
    let eight = row_id 8 in
    stretch (row 5) (row 5 ∷ []) (row 8 ∷ []) ((row 8, []) ∷ []) (keyed 5)
      (((int_val 5, five, five), tt), tt)
      (keyed 8, (id, inl refl, (int_val 5, int_val 8, five, eight, λ e. cc)))
      (
        omega arith,
        ((int_val 5 ∷ int_val 5 ∷ [], (five, omega arith, (five, omega arith, tt))), tt),
      )
      (stretch (row 8) [] [] [] (keyed 8) tt tt
        (omega arith, ((int_val 8 ∷ [], (eight, omega arith, tt)), tt)) no_rows)

group_by_scan-Summaries_example :
    (outs : List Row) × ((do
      g' ← group_before_first list_scan grouping
      drain (group_by_scan list_scan 4) 3 g')
      ≡ ok (some outs))
    × Summaries fields functions groups outs
unfolding new_count_fn new_max_fn field_name
group_by_scan-Summaries_example =
    let c : AllComparable fields (row 5 ∷ row 5 ∷ row 8 ∷ []) = (
      row-IsComparable 5 (omega arith),
      (row-IsComparable 5 (omega arith), (row-IsComparable 8 (omega arith), tt)),
    ) in
    group_by_scan-Summaries keyed_runs grouping groups 4 3 (c, tt) (((λ e. cc), tt), (tt, tt))
      ((λ h. elim h [ inl e ↦ cc | inr z ↦ z ]), ((λ h. elim h [ inl e ↦ cc | inr z ↦ z ]), tt))
      grouping-Stretches (omega arith) (omega arith)

over_group-max_example :
    (m : Constant) × (over_group (row 5) (row 8 ∷ []) (max_fn id none) ≡ ok (max_fn id (some m)))
    × IsOneOf m (int_val 5 ∷ int_val 8 ∷ [])
    × IsAbove m (int_val 5 ∷ int_val 8 ∷ [])
over_group-max_example =
    over_group-max id none (row 5) (row 8 ∷ []) (int_val 5 ∷ int_val 8 ∷ [])
      (row_id 5, omega arith, (row_id 8, omega arith, tt))
