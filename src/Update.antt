-- ===== src/Update.antt =====
-- src/plan/basicupdateplanner.cpp: the statements that change a table, over the interface of scans
-- that can be updated. `open_table` is `TablePlan(tx, name, mdm_).open()`. The loops take fuel.
pub mod Dispatch
use mudopdbmigration.Prelude.{
  ℕ, zero, suc, ◌+◌, ◌%◌, true, false, some, List, [], ◌∷◌, out_of_fuel, Result, ok, err, ◌>>=◌,
  ◌>>◌,
}
use mudopdbmigration.Constant.{Constant}
use mudopdbmigration.Parse.Data.{InsertData, DeleteData, ModifyData}
use mudopdbmigration.Query.Scan.{Scan}
use mudopdbmigration.Query.Select.{select_next}
use mudopdbmigration.Query.Update.{UpdateScan, select_updates}
use mudopdbmigration.Query.Predicate.{Predicate, Expression, evaluate}
use mudopdbmigration.Page.{size_mod}

module _ {S : Type 0} (scan : Scan S) (updates : UpdateScan S) where
  -- `while (us->next())` of `execute_delete`: the number of records deleted
  unfoldable pub delete_all : Predicate → ℕ → ℕ → S → ℕ → Result (ℕ × S)
  unfolding select_next select_updates
  delete_all pred fuel zero s count = err out_of_fuel
  delete_all pred fuel (suc rounds) s count = do
    (more, s1) ← select_next scan pred fuel s
    elim more [
      | false ↦ ok (count, s1)
      | true ↦ do
        s2 ← (select_updates (some updates)).delete_record s1
        delete_all pred fuel rounds s2 ((count + 1) % size_mod)
    ]

  -- `while (us->next())` of `execute_modify`: the number of records changed
  unfoldable pub modify_all : Predicate → List ℕ → Expression → ℕ → ℕ → S → ℕ → Result (ℕ × S)
  unfolding select_next select_updates evaluate
  modify_all pred target value fuel zero s count = err out_of_fuel
  modify_all pred target value fuel (suc rounds) s count = do
    (more, s1) ← select_next scan pred fuel s
    elim more [
      | false ↦ ok (count, s1)
      | true ↦ do
        val ← evaluate value (scan.get_val s1)
        s2 ← (select_updates (some updates)).set_val s1 target val
        modify_all pred target value fuel rounds s2 ((count + 1) % size_mod)
    ]

  -- The loop over the fields, which takes the values in turn while there are any.
  unfoldable pub set_values : List (List ℕ) → List Constant → S → Result S
  set_values [] vals s = ok s
  set_values (fldname ∷ flds) [] s = set_values flds [] s
  set_values (fldname ∷ flds) (val ∷ vals) s = do
    s' ← updates.set_val s fldname val
    set_values flds vals s'

  module _ (open_table : List ℕ → Result S) where
    unfoldable pub execute_delete : ℕ → ℕ → DeleteData → Result (ℕ × S)
    unfolding delete_all
    execute_delete fuel rounds stmt = do
      s ← open_table stmt.table_name
      (count, s1) ← delete_all stmt.pred fuel rounds s 0
      s2 ← scan.close s1
      ok (count, s2)

    unfoldable pub execute_modify : ℕ → ℕ → ModifyData → Result (ℕ × S)
    unfolding modify_all
    execute_modify fuel rounds stmt = do
      s ← open_table stmt.table_name
      (count, s1) ← modify_all stmt.pred stmt.target_field stmt.new_value fuel rounds s 0
      s2 ← scan.close s1
      ok (count, s2)

    unfoldable pub execute_insert : InsertData → Result (ℕ × S)
    unfolding set_values
    execute_insert stmt = do
      s ← open_table stmt.table_name
      s1 ← updates.insert s
      s2 ← set_values stmt.fields stmt.vals s1
      s3 ← scan.close s2
      ok (1, s3)
