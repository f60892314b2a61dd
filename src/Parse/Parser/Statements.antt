-- ===== src/Parse/Parser/Statements.antt =====
-- No statement makes the parser run out of fuel.
use mudopdbmigration.Parse.Words.{
  values_word, into_word, as_word, varchar_word, on_word, from_word, set_word, create_word,
  delete_word, int_word, table_word, select_word, update_word, insert_word, index_word, view_word,
}
use mudopdbmigration.Prelude.{
  ℕ, zero, suc, ◌<◌, ap, ◌≢◌, List, [], ◌∷◌, arith, length, out_of_fuel, Result, ok, err, ◌>>=◌,
}
use mudopdbmigration.Schema.{Schema, add_from, add_each, add_all}
use mudopdbmigration.Parse.Lexer.{Lexer, next_token, new_lexer, match_keyword}
use mudopdbmigration.Parse.Lexer.Progress.{next_token-Steps, Steps}
use mudopdbmigration.Parse.Parser
use mudopdbmigration.Parse.Parser.{
  Parser, parse, query, update_cmd, started, value, lift, field, select_list, table_list,
  field_list, const_list, delete_cmd, insert_cmd, field_def, field_defs_loop, field_defs,
  create_table, create_view, create_index, create_cmd,
}
use mudopdbmigration.Parse.Parser.Terminates.{
  Ends, Takes, Bounded, ends, then-Ends, then-Takes, then_pure-Takes, pure-Ends, when-Ends,
  when-Takes,
}
use mudopdbmigration.Parse.Parser.Tokens.{
  eat_delim-Takes, eat_keyword-Takes, eat_id-Takes, eat_int_constant-Takes, constant-Takes,
  expression-Takes,
}
use mudopdbmigration.Parse.Parser.Rounds.{
  round, matched_delim, list_loop_lem, with_fuel-Ends, where_part-Ends,
}

query-Ends : Ends Parser.query
unfolding Parser.query Parser.select_list Parser.table_list Parser.field
query-Ends = then-Ends (ends (eat_keyword-Takes select_word)) λ _.
    then-Ends (with_fuel-Ends _ (list_loop_lem eat_id-Takes)) λ _.
      then-Ends (ends (eat_keyword-Takes from_word)) λ _.
        then-Ends (with_fuel-Ends _ (list_loop_lem eat_id-Takes))
          λ _. then-Ends where_part-Ends λ _. pure-Ends _

delete_cmd-Ends : Ends Parser.delete_cmd
unfolding Parser.delete_cmd
delete_cmd-Ends = then-Ends (ends (eat_keyword-Takes delete_word)) λ _.
    then-Ends (ends (eat_keyword-Takes from_word))
      λ _. then-Ends (ends eat_id-Takes) λ _. then-Ends where_part-Ends λ _. pure-Ends _

insert_cmd-Ends : Ends Parser.insert_cmd
unfolding Parser.insert_cmd Parser.field_list Parser.const_list Parser.field
insert_cmd-Ends = then-Ends (ends (eat_keyword-Takes insert_word)) λ _.
    then-Ends (ends (eat_keyword-Takes into_word)) λ _. then-Ends (ends eat_id-Takes) λ _.
      then-Ends (ends (eat_delim-Takes b'(')) λ _.
        then-Ends (with_fuel-Ends _ (list_loop_lem eat_id-Takes)) λ _.
          then-Ends (ends (eat_delim-Takes b')')) λ _.
            then-Ends (ends (eat_keyword-Takes values_word)) λ _.
              then-Ends (ends (eat_delim-Takes b'(')) λ _.
                then-Ends (with_fuel-Ends _ (list_loop_lem constant-Takes))
                  λ _. then-Ends (ends (eat_delim-Takes b')')) λ _. pure-Ends _

modify_cmd-Ends : Ends Parser.modify_cmd
unfolding Parser.modify_cmd Parser.field
modify_cmd-Ends = then-Ends (ends (eat_keyword-Takes update_word)) λ _.
    then-Ends (ends eat_id-Takes) λ _. then-Ends (ends (eat_keyword-Takes set_word)) λ _.
      then-Ends (ends eat_id-Takes) λ _.
        then-Ends (ends (eat_delim-Takes b'='))
          λ _. then-Ends (ends expression-Takes) λ _. then-Ends where_part-Ends λ _. pure-Ends _

field_def-Takes : Takes Parser.field_def
unfolding Parser.field_def Parser.field Parser.field_type
field_def-Takes = then-Takes eat_id-Takes λ fldname.
    when-Takes (match_keyword int_word) (then_pure-Takes _ (eat_keyword-Takes int_word)) (
      then-Takes (eat_keyword-Takes varchar_word) λ _.
        then-Takes (eat_delim-Takes b'(')
          λ _. then-Takes eat_int_constant-Takes λ _. then_pure-Takes _ (eat_delim-Takes b')'))

add_from_lem : (sch : Schema) (f : List ℕ) (other : Schema) → add_from sch f other ≢ err out_of_fuel
unfolding add_from
add_from_lem sch f other = ground arith

then_more :
    (r : Result Schema) (next : Schema → Result Schema)
    → r ≢ err out_of_fuel
    → ((sch : Schema) → next sch ≢ err out_of_fuel)
    → (r >>= next) ≢ err out_of_fuel
then_more (ok sch) next h k = k sch
then_more (err e) next h k = λ q. h (ap (λ x. x) (cc))

pub add_each_lem :
    (sch : Schema) (fs : List (List ℕ)) (other : Schema) → add_each sch fs other ≢ err out_of_fuel
unfolding add_each
add_each_lem sch [] other = λ e. cc
add_each_lem sch (f ∷ fs) other =
    then_more (add_from sch f other) _ (add_from_lem sch f other) λ sch'. add_each_lem sch' fs other

lift-Ends : (r : Result Schema) → r ≢ err out_of_fuel → Ends (Parser.lift r)
unfolding Bounded
lift-Ends (ok sch) h = record { run = λ lex. omega arith }
lift-Ends (err e) h = record { run = λ lex q. h (ap err q) }

field_defs_loop_lem :
    (fuel : ℕ) (lex : Lexer)
    → length lex.rest < fuel
    → Bounded (length lex.rest) (Parser.field_defs_loop fuel lex)
unfolding Parser.field_defs_loop add_all
field_defs_loop_lem zero lex h = absurd (omega arith)
field_defs_loop_lem (suc fuel) lex h =
    round field_def-Takes (matched_delim b',') (eat_delim-Takes b',')
      (λ x r. lift-Ends (add_all x r) (add_each_lem x r.fields r)) (λ x. pure-Ends _) fuel _
      (field_defs_loop_lem fuel) lex h

create_table-Ends : Ends Parser.create_table
unfolding Parser.create_table Parser.field_defs
create_table-Ends = then-Ends (ends (eat_keyword-Takes table_word)) λ _.
    then-Ends (ends eat_id-Takes) λ _. then-Ends (ends (eat_delim-Takes b'(')) λ _.
      then-Ends (with_fuel-Ends _ field_defs_loop_lem)
        λ _. then-Ends (ends (eat_delim-Takes b')')) λ _. pure-Ends _

create_view-Ends : Ends Parser.create_view
unfolding Parser.create_view
create_view-Ends = then-Ends (ends (eat_keyword-Takes view_word)) λ _.
    then-Ends (ends eat_id-Takes)
      λ _. then-Ends (ends (eat_keyword-Takes as_word)) λ _. then-Ends query-Ends λ _. pure-Ends _

create_index-Ends : Ends Parser.create_index
unfolding Parser.create_index Parser.field
create_index-Ends = then-Ends (ends (eat_keyword-Takes index_word)) λ _.
    then-Ends (ends eat_id-Takes) λ _. then-Ends (ends (eat_keyword-Takes on_word)) λ _.
      then-Ends (ends eat_id-Takes) λ _. then-Ends (ends (eat_delim-Takes b'(')) λ _.
        then-Ends (ends eat_id-Takes) λ _. then-Ends (ends (eat_delim-Takes b')')) λ _. pure-Ends _

update_cmd-Ends : Ends Parser.update_cmd
unfolding Parser.update_cmd Parser.create_cmd
update_cmd-Ends =
    when-Ends (match_keyword insert_word) (then-Ends insert_cmd-Ends λ _. pure-Ends _) (
      when-Ends (match_keyword delete_word) (then-Ends delete_cmd-Ends λ _. pure-Ends _) (
        when-Ends (match_keyword update_word) (then-Ends modify_cmd-Ends λ _. pure-Ends _) (
          then-Ends (ends (eat_keyword-Takes create_word)) λ _.
            when-Ends (match_keyword table_word) (then-Ends create_table-Ends λ _. pure-Ends _) (
              when-Ends (match_keyword view_word) (then-Ends create_view-Ends λ _. pure-Ends _)
                (then-Ends create_index-Ends λ _. pure-Ends _)))))

value_lem {ℓ} :
    {A : Type ℓ} (n : ℕ) (r : Result (A × Lexer)) → Bounded n r → value r ≢ err out_of_fuel
unfolding Bounded
value_lem n (ok (a, lex)) h = λ e. cc
value_lem n (err e) h = λ q. h cc

started_lem {ℓ} :
    {A : Type ℓ} (n : ℕ) (r : Result Lexer) (p : Parser A)
    → Steps n r
    → Ends p
    → value (started r p) ≢ err out_of_fuel
started_lem n (ok lex) p h k = value_lem (length lex.rest) (p lex) (k.run lex)
started_lem n (err e) p h k = λ q. h cc

-- On every text the parser of queries and that of update statements end: neither runs out of the
-- fuel that it starts its loops with. So the result is data, an exception, or the undefined behaviour
-- of an integer literal that overflows.
pub parse_terminates :
    (s : List ℕ)
    → (parse Parser.query s ≢ err out_of_fuel) × (parse Parser.update_cmd s ≢ err out_of_fuel)
unfolding parse new_lexer
parse_terminates s = (
  started_lem (length s) (next_token s) Parser.query (next_token-Steps s) query-Ends,
  started_lem (length s) (next_token s) Parser.update_cmd (next_token-Steps s) update_cmd-Ends,
)
