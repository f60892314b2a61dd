-- ===== src/Query/Text.antt =====
-- The `to_string` of src/query/constant.cpp, expression.cpp, term.cpp and predicate.cpp.
use mudopdbmigration.Page.{is_negative}
use mudopdbmigration.Prelude.{
  ℕ, zero, suc, ◌+◌, ◌-◌, ◌/◌, ◌%◌, ◌^◌, none, some, List, [], ◌∷◌, ◌++◌, ltb, if◌then◌else◌,
}
use mudopdbmigration.Constant.{Constant, int_val, string_val}
use mudopdbmigration.Query.Predicate.{Expression, Term, Predicate}

-- The decimal digits of a number that has at most as many as there are rounds.
unfoldable pub digits : ℕ → ℕ → List ℕ
digits zero n = []
digits (suc rounds) n =
    let front = digits rounds (n / 10) in
    if ltb n 10 then (b'0' + n) ∷ [] else front ++ (b'0' + n % 10) ∷ []

-- `std::to_string` of an `int`
unfoldable pub to_string : ℕ → List ℕ
unfolding digits
to_string i = if is_negative i then b'-' ∷ digits 10 (2 ^ 32 - i) else digits 10 i

unfoldable pub constant_to_string : Constant → List ℕ
unfolding to_string
constant_to_string (int_val i) = to_string i
constant_to_string (string_val s) = s

unfoldable pub expression_to_string : Expression → List ℕ
unfolding constant_to_string
expression_to_string e = elim e.val [
  | some c ↦ constant_to_string c
  | none ↦ elim e.fldname [ none ↦ [] | some f ↦ f ]
]

unfoldable pub term_to_string : Term → List ℕ
unfolding expression_to_string
term_to_string t = expression_to_string t.lhs ++ b'=' ∷ expression_to_string t.rhs

-- `" and "`
abbrev pub and_text : List ℕ
and_text = b' ' ∷ b'a' ∷ b'n' ∷ b'd' ∷ b' ' ∷ []

unfoldable pub predicate_to_string : Predicate → List ℕ
unfolding term_to_string
predicate_to_string [] = []
predicate_to_string (t ∷ []) = term_to_string t
predicate_to_string (t ∷ u ∷ rest) =
    term_to_string t ++ (and_text ++ predicate_to_string (u ∷ rest))
