-- ===== src/Examples/Parsing.antt =====
-- A query on one table, and its text.
use mudopdbmigration.Constant.{string_val, int_val}
use mudopdbmigration.Parse.Lexer.Pieces.{IsName}
use mudopdbmigration.Parse.Data.{query_to_string, QueryData}
use mudopdbmigration.Parse.Parser.{parse, Parser, query, update_cmd}
use mudopdbmigration.Parse.Lexer.{to_lower, is_keyword, is_word_char}
use mudopdbmigration.Query.Predicate.{with_constant, with_field, Predicate, Expression}
use mudopdbmigration.Prelude.{
  ℕ, ◌≡◌, refl, ◌≢◌, inl, inr, List, [], ◌∷◌, arith, bytes_eq, out_of_fuel, ok, err,
}
use mudopdbmigration.Parse.Parser
use mudopdbmigration.Parse.Parser.Statements.{parse_terminates}
use mudopdbmigration.Parse.Parser.Printed.{AllPrintable}
use mudopdbmigration.Parse.Parser.Views.{query-query_to_string, query_of_string_constant}

abbrev student : List ℕ
student = b's' ∷ b'i' ∷ b'd' ∷ []

abbrev name : List ℕ
name = b'n' ∷ b'a' ∷ b'm' ∷ b'e' ∷ []

abbrev table : List ℕ
table = b't' ∷ []

student-IsName : IsName student
unfolding is_word_char is_keyword bytes_eq to_lower
student-IsName = ((refl, refl, (refl, refl, (refl, refl, tt))), refl)

name-IsName : IsName name
unfolding is_word_char is_keyword bytes_eq to_lower
name-IsName = ((refl, refl, (refl, refl, (refl, refl, (refl, refl, tt)))), refl)

table-IsName : IsName table
unfolding is_word_char is_keyword bytes_eq to_lower
table-IsName = ((refl, refl, tt), refl)

-- `sid = 42`
abbrev number_42 : Predicate
number_42 = record { lhs = with_field student; rhs = with_constant (int_val 42) } ∷ []

number_42-AllPrintable : AllPrintable number_42
number_42-AllPrintable =
    (inl (student, refl, student-IsName), inr (42, refl, omega arith, λ e. omega arith), tt)

abbrev chosen : QueryData
chosen = record { fields = student ∷ name ∷ []; tables = table ∷ []; pred = number_42 }

query-query_to_string_example : parse Parser.query (query_to_string chosen) ≡ ok chosen
query-query_to_string_example =
    query-query_to_string student (name ∷ []) table [] number_42 (student-IsName, (name-IsName, tt))
      (table-IsName, tt) number_42-AllPrintable

parse_terminates_example :
    (parse Parser.query (query_to_string chosen) ≢ err out_of_fuel)
    × (parse Parser.update_cmd (query_to_string chosen) ≢ err out_of_fuel)
parse_terminates_example = parse_terminates (query_to_string chosen)

abbrev comparing : Expression → QueryData
comparing e = record {
  fields = student ∷ [];
  tables = table ∷ [];
  pred = record { lhs = with_field name; rhs = e } ∷ [];
}

query_of_string_constant_example :
    parse Parser.query (query_to_string (comparing (with_constant (string_val student))))
    ≡ ok (comparing (with_field student))
query_of_string_constant_example =
    query_of_string_constant student [] table [] name student (student-IsName, tt)
      (table-IsName, tt) name-IsName student-IsName
