-- ===== src/Parse/Parser.antt =====
-- include/parse/parser.hpp and src/parse/parser.cpp: recursive descent. Each recursive call costs a
-- unit of fuel; the calls start with more than the characters that are left.
pub mod Terminates
pub mod Tokens
pub mod Rounds
pub mod Statements
pub mod Printed
pub mod Conditions
pub mod Views
use mudopdbmigration.Page.{size_of_int32}
use mudopdbmigration.Prelude.{
  ℕ, zero, suc, Bool, true, false, List, [], ◌∷◌, length, Error, out_of_fuel, Result, ok, err,
}
use mudopdbmigration.Schema.{Schema, empty_schema, add_int_field, add_string_field, add_all}
use mudopdbmigration.Constant.{Constant, int_val, string_val}
use mudopdbmigration.Query.Predicate.{
  Expression, Term, Predicate, with_field, with_constant, with_term, conjoin_with,
}
use mudopdbmigration.Parse.Words.{
  select_word, from_word, where_word, and_word, insert_word, into_word, values_word, delete_word,
  update_word, set_word, create_word, table_word, int_word, varchar_word, view_word, as_word,
  index_word, on_word,
}
use mudopdbmigration.Parse.Lexer.{
  Lexer, eat_id, new_lexer, match_delim, match_string_constant, match_keyword, match_id, eat_delim,
  eat_int_constant, eat_string_constant, eat_keyword,
}
use mudopdbmigration.Parse.Data.{
  QueryData, InsertData, DeleteData, ModifyData, CreateTableData, CreateViewData, CreateIndexData,
  Object, insert_data, delete_data, modify_data, create_table_data, create_view_data,
  create_index_data,
}

abbrev pub Parser {ℓ} : Type ℓ → Type ℓ
Parser A = Lexer → Result (A × Lexer)

module _ {ℓ} {A : Type ℓ} where
  abbrev pub pure : A → Parser A
  pure a lex = ok (a, lex)

  abbrev pub fail : Error → Parser A
  fail e lex = err e

  abbrev pub lift : Result A → Parser A
  lift (ok a) lex = ok (a, lex)
  lift (err e) lex = err e

module _ {ℓ κ} {A : Type ℓ} {B : Type κ} where
  abbrev pub continue : Result (A × Lexer) → (A → Parser B) → Result (B × Lexer)
  continue (ok (a, lex)) next = next a lex
  continue (err e) next = err e

  infixl 5 ◌>>=◌ ◌>>◌
  abbrev pub ◌>>=◌ : Parser A → (A → Parser B) → Parser B
  ◌>>=◌ p next lex = continue (p lex) next

  abbrev pub ◌>>◌ : Parser A → Parser B → Parser B
  ◌>>◌ p q lex = continue (p lex) (λ _. q)

-- `if (lex_.match_…)`
abbrev pub when_matches {ℓ} : {A : Type ℓ} → (Lexer → Bool) → Parser A → Parser A → Parser A
when_matches test p q lex = elim (test lex) [ true ↦ p lex | false ↦ q lex ]

abbrev pub with_fuel {ℓ} : {A : Type ℓ} → (ℕ → Parser A) → Parser A
with_fuel p lex = p (suc (length lex.rest)) lex

unfoldable pub field : Parser (List ℕ)
unfolding eat_id
field = eat_id

unfoldable pub constant : Parser Constant
unfolding match_string_constant eat_string_constant eat_int_constant
constant =
    when_matches match_string_constant (do s ← eat_string_constant; pure (string_val s))
      (do i ← eat_int_constant; pure (int_val i))

unfoldable pub expression : Parser Expression
unfolding match_id field constant with_field with_constant
expression =
    when_matches match_id (do f ← field; pure (with_field f))
      (do c ← constant; pure (with_constant c))

unfoldable pub term : Parser Term
unfolding expression eat_delim
term = do lhs ← expression; eat_delim b'='; rhs ← expression; pure (record { lhs = lhs; rhs = rhs })

unfoldable pub predicate_loop : ℕ → Parser Predicate
unfolding term match_keyword eat_keyword conjoin_with
predicate_loop zero = fail out_of_fuel
predicate_loop (suc fuel) = do
  t ← term
  when_matches (match_keyword and_word)
      (do eat_keyword and_word; rest ← predicate_loop fuel; pure (conjoin_with (with_term t) rest))
      (pure (with_term t))

unfoldable pub predicate : Parser Predicate
unfolding predicate_loop
predicate = with_fuel predicate_loop

-- `select_list`, `table_list`, `field_list` and `const_list`: one or more, with commas.
unfoldable pub list_loop {ℓ} : {A : Type ℓ} → Parser A → ℕ → Parser (List A)
unfolding match_delim eat_delim
list_loop item zero = fail out_of_fuel
list_loop item (suc fuel) = do
  x ← item
  when_matches (match_delim b',') (do eat_delim b','; rest ← list_loop item fuel; pure (x ∷ rest))
      (pure (x ∷ []))

unfoldable pub select_list : Parser (List (List ℕ))
unfolding list_loop field
select_list = with_fuel (list_loop field)

unfoldable pub table_list : Parser (List (List ℕ))
unfolding list_loop eat_id
table_list = with_fuel (list_loop eat_id)

unfoldable pub field_list : Parser (List (List ℕ))
unfolding list_loop field
field_list = with_fuel (list_loop field)

unfoldable pub const_list : Parser (List Constant)
unfolding list_loop constant
const_list = with_fuel (list_loop constant)

-- `Predicate pred; if (lex_.match_keyword("where")) …`
unfoldable pub where_part : Parser Predicate
unfolding match_keyword eat_keyword predicate
where_part =
    when_matches (match_keyword where_word) (do eat_keyword where_word; predicate) (pure [])

unfoldable pub query : Parser QueryData
unfolding eat_keyword select_list table_list where_part
query = do
  eat_keyword select_word
  fields ← select_list
  eat_keyword from_word
  tables ← table_list
  pred ← where_part
  pure (record { fields = fields; tables = tables; pred = pred })

unfoldable pub delete_cmd : Parser DeleteData
unfolding eat_keyword eat_id where_part
delete_cmd = do
  eat_keyword delete_word
  eat_keyword from_word
  tblname ← eat_id
  pred ← where_part
  pure (record { table_name = tblname; pred = pred })

unfoldable pub insert_cmd : Parser InsertData
unfolding eat_keyword eat_id eat_delim field_list const_list
insert_cmd = do
  eat_keyword insert_word
  eat_keyword into_word
  tblname ← eat_id
  eat_delim b'('
  flds ← field_list
  eat_delim b')'
  eat_keyword values_word
  eat_delim b'('
  vals ← const_list
  eat_delim b')'
  pure (record { table_name = tblname; fields = flds; vals = vals })

unfoldable pub modify_cmd : Parser ModifyData
unfolding eat_keyword eat_id eat_delim field expression where_part
modify_cmd = do
  eat_keyword update_word
  tblname ← eat_id
  eat_keyword set_word
  fldname ← field
  eat_delim b'='
  newval ← expression
  pred ← where_part
  pure (record { table_name = tblname; target_field = fldname; new_value = newval; pred = pred })

-- The length of a `varchar` is cast from `int32_t` to `size_t`.
unfoldable pub field_type : List ℕ → Parser Schema
unfolding match_keyword eat_keyword eat_delim eat_int_constant add_int_field add_string_field
    size_of_int32
field_type fldname =
    when_matches (match_keyword int_word)
      (do eat_keyword int_word; pure (add_int_field empty_schema fldname))
      (do
        eat_keyword varchar_word
        eat_delim b'('
        str_len ← eat_int_constant
        eat_delim b')'
        pure (add_string_field empty_schema fldname (size_of_int32 str_len)))

unfoldable pub field_def : Parser Schema
unfolding field field_type
field_def = do fldname ← field; field_type fldname

unfoldable pub field_defs_loop : ℕ → Parser Schema
unfolding field_def match_delim eat_delim add_all
field_defs_loop zero = fail out_of_fuel
field_defs_loop (suc fuel) = do
  schema ← field_def
  when_matches (match_delim b',')
      (do eat_delim b','; schema2 ← field_defs_loop fuel; lift (add_all schema schema2))
      (pure schema)

unfoldable pub field_defs : Parser Schema
unfolding field_defs_loop
field_defs = with_fuel field_defs_loop

unfoldable pub create_table : Parser CreateTableData
unfolding eat_keyword eat_id eat_delim field_defs
create_table = do
  eat_keyword table_word
  tblname ← eat_id
  eat_delim b'('
  sch ← field_defs
  eat_delim b')'
  pure (record { table_name = tblname; new_schema = sch })

unfoldable pub create_view : Parser CreateViewData
unfolding eat_keyword eat_id query
create_view = do
  eat_keyword view_word
  viewname ← eat_id
  eat_keyword as_word
  qd ← query
  pure (record { view_name = viewname; query = qd })

unfoldable pub create_index : Parser CreateIndexData
unfolding eat_keyword eat_id eat_delim field
create_index = do
  eat_keyword index_word
  idxname ← eat_id
  eat_keyword on_word
  tblname ← eat_id
  eat_delim b'('
  fldname ← field
  eat_delim b')'
  pure (record { index_name = idxname; table_name = tblname; field_name = fldname })

unfoldable pub create_cmd : Parser Object
unfolding eat_keyword match_keyword create_table create_view create_index
create_cmd = do
  eat_keyword create_word
  when_matches (match_keyword table_word) (do d ← create_table; pure (create_table_data d))
      (when_matches (match_keyword view_word) (do d ← create_view; pure (create_view_data d))
        (do d ← create_index; pure (create_index_data d)))

unfoldable pub update_cmd : Parser Object
unfolding match_keyword insert_cmd delete_cmd modify_cmd create_cmd
update_cmd =
    when_matches (match_keyword insert_word) (do d ← insert_cmd; pure (insert_data d))
      (when_matches (match_keyword delete_word) (do d ← delete_cmd; pure (delete_data d))
        (when_matches (match_keyword update_word) (do d ← modify_cmd; pure (modify_data d))
          create_cmd))

-- `Parser(s).…()`
abbrev pub value {ℓ} : {A : Type ℓ} → Result (A × Lexer) → Result A
value (ok (a, lex)) = ok a
value (err e) = err e

abbrev pub started {ℓ} : {A : Type ℓ} → Result Lexer → Parser A → Result (A × Lexer)
started (ok lex) p = p lex
started (err e) p = err e

unfoldable pub parse {ℓ} : {A : Type ℓ} → Parser A → List ℕ → Result A
unfolding new_lexer
parse p s = value (started (new_lexer s) p)
