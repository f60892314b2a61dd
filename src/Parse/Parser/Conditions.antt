-- ===== src/Parse/Parser/Conditions.antt =====
-- The condition of a printed query, and what the parser makes of it.
use mudopdbmigration.Parse.Words.{where_word}
use mathlib.Core.List.{append_assoc, append-nil}
use mudopdbmigration.Prelude.{
  ℕ, zero, suc, ◌≤◌, ◌<◌, ◌≡◌, refl, sym, ap, ◌∙◌, false, none, List, [], ◌∷◌, ◌++◌, arith,
  bytes_eq, length, length-append, ok,
}
use mudopdbmigration.Query.Predicate.{Term, Predicate}
use mudopdbmigration.Query.Text.{
  expression_to_string, term_to_string, predicate_to_string, and_text,
}
use mudopdbmigration.Parse.Data.{where_text, where_clause}
use mudopdbmigration.Parse.Lexer.{
  Lexer, Token, next_token, found, match_delim, is_word_char, keyword,
}
use mudopdbmigration.Parse.Lexer.Pieces.{Stops}
use mudopdbmigration.Parse.Parser
use mudopdbmigration.Parse.Parser.{
  Parser, parse, query, list_loop, when_matches, expression, term, predicate_loop, with_fuel, field,
  predicate, select_list, table_list, where_part,
}
use mudopdbmigration.Parse.Parser.Printed.{
  AllPrintable, next_token_space, next_token_and, next_token_where, term-TermReads,
}

-- The terms behind the first one, each behind `" and "`.
abbrev pub more_terms : Predicate → List ℕ
more_terms [] = []
more_terms (t ∷ ts) = and_text ++ (term_to_string t ++ more_terms ts)

pub predicate_lem :
    (t : Term) (ts : Predicate) → predicate_to_string (t ∷ ts) ≡ term_to_string t ++ more_terms ts
unfolding predicate_to_string
predicate_lem t [] = sym (append-nil (term_to_string t))
predicate_lem t (u ∷ us) = rw (predicate_lem u us) refl

pub more_terms-Stops : (ts : Predicate) → Stops (more_terms ts)
unfolding is_word_char
more_terms-Stops [] = tt
more_terms-Stops (t ∷ ts) = refl

pub length-more_terms : (ts : Predicate) → length ts ≤ length (more_terms ts)
length-more_terms [] = omega arith
length-more_terms (t ∷ ts) =
    omega (arith, length-more_terms ts, length-append (term_to_string t) (more_terms ts))

abbrev pub at_end : Lexer
at_end = record { rest = []; token = none }

pub next_token_end : next_token [] ≡ ok at_end
unfolding next_token
next_token_end = refl

pub predicate_loop-reads :
    (fuel : ℕ) (t : Term) (ts : Predicate) (token : Token) (left : List ℕ)
    → AllPrintable ts
    → length ts < fuel
    → ((lex : Lexer)
        → next_token (more_terms ts) ≡ ok lex
        → Parser.term (found token left) ≡ ok (t, lex))
    → Parser.predicate_loop fuel (found token left) ≡ ok (t ∷ ts, at_end)
unfolding Parser.predicate_loop bytes_eq
predicate_loop-reads zero t ts token left h le r = absurd (omega arith)
predicate_loop-reads (suc fuel) t [] token left h le r = rw (r at_end next_token_end) refl
predicate_loop-reads (suc fuel) t (u ∷ us) token left h le r =
    let next = term-TermReads u (more_terms us) h.0 h.1 (more_terms-Stops us) in
    rw (r _ (next_token_and (term_to_string u ++ more_terms us))) (
      rw (next_token_space, next.starts)
        (rw (predicate_loop-reads fuel u us next.token next.left h.2 (omega arith) next.reads)
          refl))

pub where_clause_lem :
    (xs ys : List ℕ) → where_clause (xs ++ b'=' ∷ ys) ≡ where_text ++ (xs ++ b'=' ∷ ys)
where_clause_lem [] ys = refl
where_clause_lem (c ∷ cs) ys = refl

pub where_text-Stops : (cs : List ℕ) → Stops (where_text ++ cs)
unfolding is_word_char
where_text-Stops cs = refl

-- What stands behind the tables of a printed query, and what the parser makes of it.
pub record Behind (pred : Predicate) : Type 0 where
  pub lex : Lexer
  pub starts : next_token (where_clause (predicate_to_string pred)) ≡ ok lex
  pub stops : Stops (where_clause (predicate_to_string pred))
  pub no_comma : match_delim b',' lex ≡ false
  pub reads : Parser.where_part lex ≡ ok (pred, at_end)

pub clause_of :
    (t : Term) (ts : Predicate)
    → where_clause (predicate_to_string (t ∷ ts))
      ≡ where_text ++ (term_to_string t ++ more_terms ts)
unfolding term_to_string
clause_of t ts =
    ap where_clause (predicate_lem t ts ∙ append_assoc (expression_to_string t.lhs) _ _)
    ∙ where_clause_lem (expression_to_string t.lhs) (expression_to_string t.rhs ++ more_terms ts)
    ∙ ap (λ x. where_text ++ x) (sym (append_assoc (expression_to_string t.lhs) _ _))

pub pred-Behind : (pred : Predicate) → AllPrintable pred → Behind pred
unfolding predicate_to_string Parser.where_part Parser.predicate bytes_eq
pred-Behind [] h = record {
  lex = at_end;
  starts = next_token_end;
  stops = tt;
  no_comma = refl;
  reads = refl;
}
pred-Behind (t ∷ ts) h =
    let first = term-TermReads t (more_terms ts) h.0 h.1 (more_terms-Stops ts) in
    let long = first.long in
    let text = term_to_string t ++ more_terms ts in
    record {
      lex = found (keyword where_word) (b' ' ∷ text);
      starts = rw (clause_of t ts) (next_token_where text);
      stops = rw (clause_of t ts) (where_text-Stops text);
      no_comma = refl;
      reads =
          rw (next_token_space, first.starts)
            (predicate_loop-reads (suc (length first.left)) t ts first.token first.left h.2
              (omega (arith, length-more_terms ts)) first.reads);
    }
