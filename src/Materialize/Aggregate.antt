-- ===== src/Materialize/Aggregate.antt =====
-- src/materialize/aggregates.cpp: the aggregation functions and the values that a group shares.
pub mod Meaning
use mudopdbmigration.Constant.{int_val, constant_eq, Constant, constant_gt}
use mudopdbmigration.Prelude.{
  ℕ, ◌+◌, ◌%◌, ◌^◌, Bool, true, false, ◌&&◌, not, Option, none, some, List, [], ◌∷◌, ◌++◌, ◌==◌,
  if◌then◌else◌, bytes_eq, length, Result, ok, ◌>>=◌, ◌>>◌,
}
use mudopdbmigration.Page.{int32_mod}
use mudopdbmigration.Query.Scan.{Row}

-- The two classes that implement `AggregationFn`.
pub data AggregationFn : Type 0 where
  count_fn : List ℕ → ℕ → AggregationFn
  max_fn : List ℕ → Option Constant → AggregationFn

unfoldable pub new_count_fn : List ℕ → AggregationFn
new_count_fn fldname = count_fn fldname 0

unfoldable pub new_max_fn : List ℕ → AggregationFn
new_max_fn fldname = max_fn fldname none

-- Both methods only read the current record of the scan.
unfoldable pub process_first : Row → AggregationFn → Result AggregationFn
process_first r (count_fn fldname count) = ok (count_fn fldname 1)
process_first r (max_fn fldname val) = do v ← r fldname; ok (max_fn fldname (some v))

abbrev pub larger_of : Constant → Option Constant → Option Constant
larger_of newval none = none
larger_of newval (some val) = some (if constant_gt newval val then newval else val)

-- A `size_t` wraps.
unfoldable pub process_next : Row → AggregationFn → Result AggregationFn
process_next r (count_fn fldname count) = ok (count_fn fldname ((count + 1) % 2 ^ 64))
process_next r (max_fn fldname val) = do
  newval ← r fldname
  ok (max_fn fldname (larger_of newval val))

unfoldable pub field_name : AggregationFn → List ℕ
field_name (count_fn fldname count) =
    (b'c' ∷ b'o' ∷ b'u' ∷ b'n' ∷ b't' ∷ b'o' ∷ b'f' ∷ []) ++ fldname
field_name (max_fn fldname val) = (b'm' ∷ b'a' ∷ b'x' ∷ b'o' ∷ b'f' ∷ []) ++ fldname

unfoldable pub value : AggregationFn → Option Constant
value (count_fn fldname count) = some (int_val (count % int32_mod))
value (max_fn fldname val) = val

-- The entries of the map, with different keys.
abbrev pub GroupValue : Type 0
GroupValue = List (List ℕ × Constant)

unfoldable pub group_get_val : GroupValue → List ℕ → Option Constant
group_get_val [] fldname = none
group_get_val ((f, v) ∷ vals) fldname =
    if bytes_eq f fldname then some v else group_get_val vals fldname

-- A key that is there keeps its value.
unfoldable pub emplace : GroupValue → List ℕ → Constant → GroupValue
unfolding group_get_val
emplace vals fldname v = elim (group_get_val vals fldname) [
  | none ↦ (fldname, v) ∷ vals
  | some _ ↦ vals
]

unfoldable pub fill : Row → List (List ℕ) → GroupValue → Result GroupValue
unfolding emplace
fill r [] vals = ok vals
fill r (f ∷ fields) vals = do v ← r f; fill r fields (emplace vals f v)

unfoldable pub new_group_value : Row → List (List ℕ) → Result GroupValue
unfolding fill
new_group_value r fields = fill r fields []

abbrev pub holds : Option Constant → Constant → Bool
holds none v = false
holds (some w) v = constant_eq v w

unfoldable pub included : GroupValue → GroupValue → Bool
unfolding group_get_val
included [] other = true
included ((f, v) ∷ vals) other = holds (group_get_val other f) v && included vals other

-- Two maps are equal if they have as many entries and those of the one are in the other.
unfoldable pub group_value_eq : GroupValue → GroupValue → Bool
unfolding included
group_value_eq vals other = length vals == length other && included vals other

unfoldable pub group_value_ne : GroupValue → GroupValue → Bool
unfolding group_value_eq
group_value_ne vals other = not (group_value_eq vals other)
