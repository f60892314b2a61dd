-- ===== src/Constant.antt =====
-- include/query/constant.hpp and src/query/constant.cpp: an SQL value. An `int` is its bit pattern.
pub mod Order
use mudopdbmigration.Prelude.{
  ℕ, Bool, true, false, ◌||◌, not, Option, none, some, List, ltb, ◌==◌, if◌then◌else◌, bytes_eq,
  int32_lt, bytes_lt,
}

pub data Constant : Type 0 where
  int_val : ℕ → Constant
  string_val : List ℕ → Constant

unfoldable pub as_int : Constant → Option ℕ
as_int (int_val i) = some i
as_int (string_val _) = none

unfoldable pub as_string : Constant → Option (List ℕ)
as_string (int_val _) = none
as_string (string_val s) = some s

-- `value_.index()`
unfoldable pub index : Constant → ℕ
index (int_val _) = 0
index (string_val _) = 1

-- The operators that `std::variant` gives.
unfoldable pub variant_eq : Constant → Constant → Bool
variant_eq (int_val i) (int_val j) = i == j
variant_eq (string_val s) (string_val t) = bytes_eq s t
variant_eq _ _ = false

unfoldable pub variant_lt : Constant → Constant → Bool
variant_lt (int_val i) (int_val j) = int32_lt i j
variant_lt (string_val s) (string_val t) = bytes_lt s t
variant_lt (int_val _) (string_val _) = true
variant_lt (string_val _) (int_val _) = false

-- `operator==`, `!=`, `<`, `<=`, `>` and `>=`
unfoldable pub constant_eq : Constant → Constant → Bool
unfolding variant_eq
constant_eq a b = variant_eq a b

unfoldable pub constant_ne : Constant → Constant → Bool
unfolding variant_eq
constant_ne a b = not (variant_eq a b)

unfoldable pub constant_lt : Constant → Constant → Bool
unfolding index variant_lt
constant_lt a b = if index a == index b then variant_lt a b else ltb (index a) (index b)

unfoldable pub constant_le : Constant → Constant → Bool
unfolding constant_lt constant_eq
constant_le a b = constant_lt a b || constant_eq a b

unfoldable pub constant_gt : Constant → Constant → Bool
unfolding constant_le
constant_gt a b = not (constant_le a b)

unfoldable pub constant_ge : Constant → Constant → Bool
unfolding constant_lt
constant_ge a b = not (constant_lt a b)
