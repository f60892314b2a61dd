-- ===== src/Metadata/Scanning.antt =====
-- A local `record::TableScan` of a function, over the transaction that the function is given. Its
-- destructor does nothing, and the transaction keeps what the scan did to it.
use mudopdbmigration.Prelude.{ℕ, List, Result}
use mudopdbmigration.Exec.{Exec, continue}
use mudopdbmigration.Layout.{Layout}
use mudopdbmigration.TableScan.{TableScan, Waits, new_table_scan}
use mudopdbmigration.Transaction.{Transaction, Tx}

-- The waits of each `pin`, the fuel of the search in a block, that of the loop over the blocks and
-- that of a loop over the records.
pub record Rounds : Type 0 where
  pub waits : Waits
  pub slots : ℕ
  pub blocks : ℕ
  pub records : ℕ

abbrev pub leave_scan : {A : Type 0} → Result A × TableScan → Result A × Transaction
leave_scan (r, s) = (r, s.tx)

unfoldable pub with_scan : {A : Type 0} → Rounds → List ℕ → Layout → Exec TableScan A → Tx A
unfolding new_table_scan
with_scan k tblname layout body tx =
    leave_scan (continue (new_table_scan k.waits k.slots tx tblname layout) (λ _. body))

-- A value that is computed without the transaction.
abbrev pub computed : {S A : Type 0} → Result A → Exec S A
computed r = λ s. (r, s)
