-- ===== src/Query/Update.antt =====
-- include/query/updatescan.hpp, and the methods of src/query/selectscan.cpp that pass an update on to
-- the scan below.
use mudopdbmigration.Prelude.{ℕ, Option, none, some, List, Result, ok}
use mudopdbmigration.Constant.{Constant}
use mudopdbmigration.Rid.{Rid}

-- The virtual methods that `UpdateScan` adds, over the state of a scan.
pub record UpdateScan (S : Type 0) : Type 0 where
  pub set_val : S → List ℕ → Constant → Result S
  pub set_int : S → List ℕ → ℕ → Result S
  pub set_string : S → List ℕ → List ℕ → Result S
  pub insert : S → Result S
  pub delete_record : S → Result S
  pub get_rid : S → Result (Option Rid)
  pub move_to_rid : S → Rid → Result S

-- `if (us) …`
abbrev pub when_updatable :
    {S : Type 0} → Option (UpdateScan S) → (UpdateScan S → S → Result S) → S → Result S
when_updatable none method s = ok s
when_updatable (some us) method s = method us s

abbrev pub rid_below : {S : Type 0} → Option (UpdateScan S) → S → Result (Option Rid)
rid_below none s = ok none
rid_below (some us) s = us.get_rid s

-- The updates of a selection. The argument is the scan below, where it is an `UpdateScan`.
unfoldable pub select_updates : {S : Type 0} → Option (UpdateScan S) → UpdateScan S
select_updates below = record {
  set_val = λ s fldname val. when_updatable below (λ us s'. us.set_val s' fldname val) s;
  set_int = λ s fldname val. when_updatable below (λ us s'. us.set_int s' fldname val) s;
  set_string = λ s fldname val. when_updatable below (λ us s'. us.set_string s' fldname val) s;
  insert = λ s. when_updatable below (λ us s'. us.insert s') s;
  delete_record = λ s. when_updatable below (λ us s'. us.delete_record s') s;
  get_rid = λ s. rid_below below s;
  move_to_rid = λ s rid. when_updatable below (λ us s'. us.move_to_rid s' rid) s;
}
