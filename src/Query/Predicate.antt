-- ===== src/Query/Predicate.antt =====
-- include/query/{expression,term,predicate}.hpp and src/query/{expression,term,predicate}.cpp.
pub mod Meaning
pub mod Parts
use mudopdbmigration.Page.{size_mod}
use Prim.Native.Nat.{max}
use mudopdbmigration.Prelude.{
  ℕ, ◌-◌, ◌*◌, ◌%◌, Bool, true, false, ◌&&◌, not, Option, none, some, List, [], ◌∷◌, ◌++◌,
  if◌then◌else◌, bytes_eq, no_value, Result, ok, err, ◌>>=◌, ◌>>◌,
}
use mudopdbmigration.Schema.{Schema, empty_schema, has_field, add_all}
use mudopdbmigration.Constant.{Constant, constant_eq}
use mudopdbmigration.Query.Scan.{Row}

pub record Expression : Type 0 where
  pub val : Option Constant
  pub fldname : Option (List ℕ)

unfoldable pub with_constant : Constant → Expression
with_constant val = record { val = some val; fldname = none }

-- `Expression::with_string`
unfoldable pub with_field : List ℕ → Expression
with_field fldname = record { val = none; fldname = some fldname }

-- The scan is read by `get_val` only.
unfoldable pub evaluate : Expression → Row → Result Constant
evaluate e row = elim e.val [
  | some c ↦ ok c
  | none ↦ elim e.fldname [ none ↦ err no_value | some f ↦ row f ]
]

abbrev pub as_constant : Expression → Option Constant
as_constant e = e.val

abbrev pub as_field_name : Expression → Option (List ℕ)
as_field_name e = e.fldname

unfoldable pub expression_applies_to : Expression → Schema → Bool
unfolding has_field
expression_applies_to e sch = elim e.val [
  | some _ ↦ true
  | none ↦ elim e.fldname [ none ↦ false | some f ↦ has_field sch f ]
]

pub record Term : Type 0 where
  pub lhs : Expression
  pub rhs : Expression

unfoldable pub term_is_satisfied : Term → Row → Result Bool
unfolding evaluate constant_eq
term_is_satisfied t row = do
  lhsval ← evaluate t.lhs row
  rhsval ← evaluate t.rhs row
  ok (constant_eq lhsval rhsval)

unfoldable pub term_applies_to : Term → Schema → Bool
unfolding expression_applies_to
term_applies_to t sch = expression_applies_to t.lhs sch && expression_applies_to t.rhs sch

-- What the second `if` of `Term::equates_with_constant` goes on with.
abbrev equates_right : Term → List ℕ → Option Constant
equates_right t fldname = elim t.rhs.fldname [
  | none ↦ none
  | some rhs_name ↦ if not (bytes_eq rhs_name fldname) then none else t.lhs.val
]

unfoldable pub term_equates_with_constant : Term → List ℕ → Option Constant
term_equates_with_constant t fldname = elim t.lhs.fldname [
  | none ↦ equates_right t fldname
  | some lhs_name ↦
      if not (bytes_eq lhs_name fldname)
      then none
      else elim t.rhs.val [ some c ↦ some c | none ↦ equates_right t fldname ]
]

unfoldable pub term_equates_with_field : Term → List ℕ → Option (List ℕ)
term_equates_with_field t fldname = elim t.lhs.fldname [
  | none ↦ none
  | some lhs_name ↦ elim t.rhs.fldname [
    | none ↦ none
    | some rhs_name ↦
        if bytes_eq lhs_name fldname
        then some rhs_name
        else if bytes_eq rhs_name fldname
        then some lhs_name
        else none
  ]
]

abbrev constants_agree : Option Constant → Option Constant → Bool
constants_agree none none = true
constants_agree (some a) (some b) = constant_eq a b
constants_agree _ _ = false

-- The plan is read by `distinct_values` only.
unfoldable pub term_reduction_factor : Term → (List ℕ → ℕ) → ℕ
unfolding constant_eq
term_reduction_factor t distinct_values = elim t.lhs.fldname [
  | some l ↦ elim t.rhs.fldname [
    | some r ↦ max (distinct_values l) (distinct_values r)
    | none ↦ distinct_values l
  ]
  | none ↦ elim t.rhs.fldname [
    | some r ↦ distinct_values r
    | none ↦ if constants_agree t.lhs.val t.rhs.val then 1 else size_mod - 1
  ]
]

-- A predicate is the list of its terms.
abbrev pub Predicate : Type 0
Predicate = List Term

abbrev pub with_term : Term → Predicate
with_term t = t ∷ []

unfoldable pub conjoin_with : Predicate → Predicate → Predicate
conjoin_with pred other = pred ++ other

unfoldable pub is_satisfied : Predicate → Row → Result Bool
unfolding term_is_satisfied
is_satisfied [] row = ok true
is_satisfied (t ∷ rest) row =
    let others = is_satisfied rest row in
    (do b ← term_is_satisfied t row; elim b [ true ↦ others | false ↦ ok false ])

-- `factor *= …`, in `size_t`
unfoldable pub multiply_factors : ℕ → Predicate → (List ℕ → ℕ) → ℕ
unfolding term_reduction_factor
multiply_factors factor [] distinct_values = factor
multiply_factors factor (t ∷ rest) distinct_values =
    multiply_factors (factor * term_reduction_factor t distinct_values % size_mod) rest
      distinct_values

unfoldable pub reduction_factor : Predicate → (List ℕ → ℕ) → ℕ
unfolding multiply_factors
reduction_factor pred distinct_values = multiply_factors 1 pred distinct_values

-- The terms that pass a test, in order.
unfoldable pub keep : (Term → Bool) → Predicate → Predicate
keep test [] = []
keep test (t ∷ rest) = if test t then t ∷ keep test rest else keep test rest

-- A predicate without terms counts as none.
abbrev pub unless_empty : Predicate → Option Predicate
unless_empty [] = none
unless_empty (t ∷ rest) = some (t ∷ rest)

unfoldable pub select_sub_pred : Predicate → Schema → Option Predicate
unfolding keep term_applies_to
select_sub_pred pred sch = unless_empty (keep (λ t. term_applies_to t sch) pred)

unfoldable pub join_sub_pred : Predicate → Schema → Schema → Result (Option Predicate)
unfolding keep term_applies_to add_all
join_sub_pred pred sch1 sch2 = do
  half ← add_all empty_schema sch1
  newsch ← add_all half sch2
  ok (
      unless_empty (
        keep
          (λ t.
            not (term_applies_to t sch1)
            && not (term_applies_to t sch2)
            && term_applies_to t newsch)
          pred))

unfoldable pub equates_with_constant : Predicate → List ℕ → Option Constant
unfolding term_equates_with_constant
equates_with_constant [] fldname = none
equates_with_constant (t ∷ rest) fldname = elim (term_equates_with_constant t fldname) [
  | some c ↦ some c
  | none ↦ equates_with_constant rest fldname
]

unfoldable pub equates_with_field : Predicate → List ℕ → Option (List ℕ)
unfolding term_equates_with_field
equates_with_field [] fldname = none
equates_with_field (t ∷ rest) fldname = elim (term_equates_with_field t fldname) [
  | some s ↦ some s
  | none ↦ equates_with_field rest fldname
]
