-- ===== src/Parse/Parser/Tokens.antt =====
-- What the parser takes of single tokens, and of the terms that it builds of a few.
use mudopdbmigration.Prelude.{
  ℕ, inl, inr, Option, none, some, List, Bool-cases, length, bad_syntax, Result, ok, err, ◌>>=◌,
}
use mudopdbmigration.Parse.Lexer.{
  Lexer, Token, eat_id, eat_delim, eat_keyword, eat_int_constant, eat_string_constant, match_delim,
  match_keyword, match_id, match_string_constant, int_constant, string_constant, id,
}
use mudopdbmigration.Parse.Lexer.Progress.{Steps, next_token-Steps}
use mudopdbmigration.Parse.Parser
use mudopdbmigration.Parse.Parser.{
  Parser, pure, continue, when_matches, with_fuel, field, constant, expression, term,
  predicate_loop, predicate, list_loop, where_part,
}
use mudopdbmigration.Parse.Parser.Terminates.{Taken, Takes, then-Takes, then_pure-Takes, when-Takes}

token_taken {ℓ} :
    {A : Type ℓ} (n : ℕ) (a : A) (r : Result Lexer)
    → Steps n r
    → Taken n (do lex' ← r; ok (a, lex'))
unfolding Taken
token_taken n a (ok lex) h = h
token_taken n a (err e) h = h

refused {ℓ} : (A : Type ℓ) (n : ℕ) → Taken {A = A} n (err bad_syntax)
unfolding Taken
refused A n = λ e. cc

pub eat_delim-Takes : (d : ℕ) → Takes (eat_delim d)
unfolding eat_delim
eat_delim-Takes d = record {
  run = λ lex. elim (Bool-cases (match_delim d lex)) [
    | inl e ↦ rw e (token_taken (length lex.rest) tt _ (next_token-Steps lex.rest))
    | inr e ↦ rw e (refused _ (length lex.rest))
  ];
}

pub eat_keyword-Takes : (w : List ℕ) → Takes (eat_keyword w)
unfolding eat_keyword
eat_keyword-Takes w = record {
  run = λ lex. elim (Bool-cases (match_keyword w lex)) [
    | inl e ↦ rw e (token_taken (length lex.rest) tt _ (next_token-Steps lex.rest))
    | inr e ↦ rw e (refused _ (length lex.rest))
  ];
}

eat_id_at :
    (cs : List ℕ) (t : Option Token) → Taken (length cs) (eat_id (record { rest = cs; token = t }))
unfolding eat_id
eat_id_at cs none = refused _ (length cs)
eat_id_at cs (some (id w)) = token_taken (length cs) w _ (next_token-Steps cs)
eat_id_at cs (some _) = refused _ (length cs)

pub eat_id-Takes : Takes eat_id
eat_id-Takes = record { run = λ lex. eat_id_at lex.rest lex.token }

eat_int_constant_at :
    (cs : List ℕ) (t : Option Token)
    → Taken (length cs) (eat_int_constant (record { rest = cs; token = t }))
unfolding eat_int_constant
eat_int_constant_at cs none = refused _ (length cs)
eat_int_constant_at cs (some (int_constant i)) = token_taken (length cs) i _ (next_token-Steps cs)
eat_int_constant_at cs (some _) = refused _ (length cs)

pub eat_int_constant-Takes : Takes eat_int_constant
eat_int_constant-Takes = record { run = λ lex. eat_int_constant_at lex.rest lex.token }

eat_string_constant_at :
    (cs : List ℕ) (t : Option Token)
    → Taken (length cs) (eat_string_constant (record { rest = cs; token = t }))
unfolding eat_string_constant
eat_string_constant_at cs none = refused _ (length cs)
eat_string_constant_at cs (some (string_constant w)) =
    token_taken (length cs) w _ (next_token-Steps cs)
eat_string_constant_at cs (some _) = refused _ (length cs)

eat_string_constant-Takes : Takes eat_string_constant
eat_string_constant-Takes = record { run = λ lex. eat_string_constant_at lex.rest lex.token }

pub constant-Takes : Takes Parser.constant
unfolding Parser.constant
constant-Takes =
    when-Takes match_string_constant (then_pure-Takes _ eat_string_constant-Takes)
      (then_pure-Takes _ eat_int_constant-Takes)

pub expression-Takes : Takes Parser.expression
unfolding Parser.expression Parser.field
expression-Takes =
    when-Takes match_id (then_pure-Takes _ eat_id-Takes) (then_pure-Takes _ constant-Takes)

pub term-Takes : Takes Parser.term
unfolding Parser.term
term-Takes =
    then-Takes expression-Takes
      λ lhs. then-Takes (eat_delim-Takes b'=') λ _. then_pure-Takes _ expression-Takes
