-- ===== src/Materialize/MergeJoin.antt =====
-- include/materialize/mergejoinscan.hpp and src/materialize/mergejoinscan.cpp: the join of two
-- sorted scans on a field of each. The loop takes fuel.
use mudopdbmigration.Prelude.{
  ℕ, zero, suc, Bool, true, false, ◌&&◌, ◌||◌, Option, none, some, List, if◌then◌else◌, out_of_fuel,
  Result, ok, err, ◌>>=◌,
}
use mudopdbmigration.Query.Scan.{Scan}
use mudopdbmigration.Query.Update.{UpdateScan}
use mudopdbmigration.Constant.{Constant, constant_eq, constant_lt, constant_gt}
use mudopdbmigration.Materialize.SortScan.{
  SortScan, sort_before_first, sort_next, sort_get_val, sort_get_int, sort_get_string,
  sort_has_field, sort_close, save_position, restore_position,
}

pub record MergeJoinScan (S1 S2 : Type 0) : Type 0 where
  pub s1 : S1
  pub s2 : SortScan S2
  pub fldname1 : List ℕ
  pub fldname2 : List ℕ
  pub joinval : Option Constant

unfoldable pub new_merge_join_scan :
    {S1 S2 : Type 0} → S1 → SortScan S2 → List ℕ → List ℕ → MergeJoinScan S1 S2
new_merge_join_scan a b fldname1 fldname2 = record {
  s1 = a;
  s2 = b;
  fldname1 = fldname1;
  fldname2 = fldname2;
  joinval = none;
}

-- `joinval_.has_value()`, `hasmore`, and whether the value of the scan is the join value
abbrev pub at_join_value : Option Constant → Bool → Result Constant → Result Bool
at_join_value none more val = ok false
at_join_value (some j) false val = ok false
at_join_value (some j) true val = do v ← val; ok (constant_eq v j)

-- `fields` are those by which the second scan is sorted.
module _ {S1 S2 : Type 0} (scan1 : Scan S1) (scan2 : Scan S2) (updates : UpdateScan S2)
    (fields : List (List ℕ)) where
  unfoldable pub join_before_first : MergeJoinScan S1 S2 → Result (MergeJoinScan S1 S2)
  unfolding sort_before_first
  join_before_first j = do
    a ← scan1.before_first j.s1
    b ← sort_before_first scan2 j.s2
    ok (record j { s1 = a; s2 = b })

  -- `while (hasmore1 && hasmore2)`
  unfoldable pub find_match :
      ℕ → Bool → Bool → MergeJoinScan S1 S2 → Result (Bool × MergeJoinScan S1 S2)
  unfolding sort_next sort_get_val save_position
  find_match zero more1 more2 j = err out_of_fuel
  find_match (suc fuel) more1 more2 j = elim (more1 && more2) [
    | false ↦ ok (false, j)
    | true ↦ do
      v1 ← scan1.get_val j.s1 j.fldname1
      v2 ← sort_get_val scan2 j.s2 j.fldname2
      elim (constant_lt v1 v2) [
        | true ↦ do
          (more1', a) ← scan1.next j.s1
          find_match fuel more1' more2 (record j { s1 = a })
        | false ↦ elim (constant_gt v1 v2) [
          | true ↦ do
            (more2', b) ← sort_next scan2 fields j.s2
            find_match fuel more1 more2' (record j { s2 = b })
          | false ↦ do
            b ← save_position scan2 updates j.s2
            v ← sort_get_val scan2 b j.fldname2
            ok (true, record j { s2 = b; joinval = some v })
        ]
      ]
  ]

  unfoldable pub join_next : ℕ → MergeJoinScan S1 S2 → Result (Bool × MergeJoinScan S1 S2)
  unfolding sort_next sort_get_val restore_position find_match
  join_next fuel j = do
    (more2, b) ← sort_next scan2 fields j.s2
    again2 ← at_join_value j.joinval more2 (sort_get_val scan2 b j.fldname2)
    if again2 then ok (true, record j { s2 = b }) else (do
      (more1, a) ← scan1.next j.s1
      again1 ← at_join_value j.joinval more1 (scan1.get_val a j.fldname1)
      if again1
          then (do b' ← restore_position scan2 updates b; ok (true, record j { s1 = a; s2 = b' }))
          else find_match fuel more1 more2 (record j { s1 = a; s2 = b }))

  unfoldable pub join_get_int : MergeJoinScan S1 S2 → List ℕ → Result ℕ
  unfolding sort_get_int
  join_get_int j fldname =
      if scan1.has_field j.s1 fldname
      then scan1.get_int j.s1 fldname
      else sort_get_int scan2 j.s2 fldname

  unfoldable pub join_get_string : MergeJoinScan S1 S2 → List ℕ → Result (List ℕ)
  unfolding sort_get_string
  join_get_string j fldname =
      if scan1.has_field j.s1 fldname
      then scan1.get_string j.s1 fldname
      else sort_get_string scan2 j.s2 fldname

  unfoldable pub join_get_val : MergeJoinScan S1 S2 → List ℕ → Result Constant
  unfolding sort_get_val
  join_get_val j fldname =
      if scan1.has_field j.s1 fldname
      then scan1.get_val j.s1 fldname
      else sort_get_val scan2 j.s2 fldname

  unfoldable pub join_has_field : MergeJoinScan S1 S2 → List ℕ → Bool
  join_has_field j fldname = scan1.has_field j.s1 fldname || sort_has_field scan2 j.s2 fldname

  unfoldable pub join_close : MergeJoinScan S1 S2 → Result (MergeJoinScan S1 S2)
  unfolding sort_close
  join_close j = do
    a ← scan1.close j.s1
    b ← sort_close scan2 j.s2
    ok (record j { s1 = a; s2 = b })

  unfoldable pub merge_join_scan : ℕ → Scan (MergeJoinScan S1 S2)
  merge_join_scan fuel = record {
    before_first = join_before_first;
    next = join_next fuel;
    get_int = join_get_int;
    get_string = join_get_string;
    get_val = join_get_val;
    has_field = join_has_field;
    close = join_close;
  }
