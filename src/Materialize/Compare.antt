-- ===== src/Materialize/Compare.antt =====
-- include/materialize/recordcomparator.hpp and src/materialize/recordcomparator.cpp: records compared
-- field by field.
pub mod Order
use mudopdbmigration.Page.{int32_mod}
use mudopdbmigration.Prelude.{
  ℕ, ◌-◌, Bool, List, [], ◌∷◌, if◌then◌else◌, int32_lt, Result, ok, ◌>>=◌, ◌>>◌,
}
use mudopdbmigration.Constant.{Constant, constant_lt, constant_gt}
use mudopdbmigration.Query.Scan.{Row}

-- 1, -1 or 0 as an `int`
unfoldable pub compare_fields : List (List ℕ) → Row → Row → Result ℕ
unfolding constant_gt constant_lt
compare_fields [] r1 r2 = ok 0
compare_fields (fldname ∷ rest) r1 r2 = do
  val1 ← r1 fldname
  val2 ← r2 fldname
  if constant_gt val1 val2
      then ok 1
      else if constant_lt val1 val2
      then ok (int32_mod - 1)
      else compare_fields rest r1 r2

-- `compare(…) < 0`
unfoldable pub comes_first : List (List ℕ) → Row → Row → Result Bool
unfolding compare_fields
comes_first fields r1 r2 = do c ← compare_fields fields r1 r2; ok (int32_lt c 0)
