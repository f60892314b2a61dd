-- ===== src/Parse/Parser/Views.antt =====
-- The text of a view's query, which the catalogue stores, and what the parser makes of it.
use mudopdbmigration.Parse.Words.{from_word}
use mathlib.Core.List.{append_assoc}
use mudopdbmigration.Prelude.{
  ℕ, suc, ◌≡◌, refl, inl, false, List, [], ◌∷◌, ◌++◌, arith, bytes_eq, length, length-append, ok,
}
use mudopdbmigration.Constant.{string_val}
use mudopdbmigration.Query.Predicate.{Predicate, with_field, with_constant}
use mudopdbmigration.Query.Text.{expression_to_string, term_to_string, predicate_to_string}
use mudopdbmigration.Parse.Data.{listing, query_to_string, from_text, where_clause}
use mudopdbmigration.Parse.Lexer.{
  Lexer, next_token, found, eat_id, match_delim, id, is_word_char, keyword, new_lexer,
}
use mudopdbmigration.Parse.Lexer.Pieces.{IsName, Stops, next_token-IsName}
use mudopdbmigration.Parse.Parser
use mudopdbmigration.Parse.Parser.{
  Parser, parse, query, list_loop, when_matches, expression, term, predicate_loop, with_fuel, field,
  predicate, select_list, table_list, where_part,
}
use mudopdbmigration.Parse.Parser.Printed.{
  AllNames, AllPrintable, more, listing_lem, more-Stops, length-more, next_token_space,
  next_token_from, next_token_select, list_loop-names,
}
use mudopdbmigration.Parse.Parser.Conditions.{pred-Behind}

from_text-Stops : (cs : List ℕ) → Stops (from_text ++ cs)
unfolding is_word_char
from_text-Stops cs = refl

-- A list of names at its first name, with the fuel that the parser starts it with.
names_read :
    (f : List ℕ) (fs : List (List ℕ)) (rest : List ℕ) (lex : Lexer)
    → AllNames fs
    → Stops rest
    → next_token rest ≡ ok lex
    → match_delim b',' lex ≡ false
    → Parser.with_fuel (Parser.list_loop eat_id) (found (id f) (more fs ++ rest)) ≡ ok (f ∷ fs, lex)
names_read f fs rest lex h s e m =
    list_loop-names (suc (length (more fs ++ rest))) f fs rest lex h s e m
      (omega (arith, length-more fs, length-append (more fs) rest))

names_start :
    (f : List ℕ) (fs : List (List ℕ)) (rest : List ℕ)
    → IsName f
    → Stops rest
    → next_token (listing (f ∷ fs) ++ rest) ≡ ok (found (id f) (more fs ++ rest))
names_start f fs rest n s =
    rw (listing_lem, append_assoc) (next_token-IsName f (more fs ++ rest) n (more-Stops fs rest s))

-- A query with at least one field and one table, whose names are lower-case words but no keywords
-- and whose constants are integers other than the smallest, is read back from its text: so is the
-- definition of a view.
pub query-query_to_string :
    (f : List ℕ) (fs : List (List ℕ)) (t : List ℕ) (ts : List (List ℕ)) (pred : Predicate)
    → AllNames (f ∷ fs)
    → AllNames (t ∷ ts)
    → AllPrintable pred
    → parse Parser.query
        (query_to_string (record { fields = f ∷ fs; tables = t ∷ ts; pred = pred }))
      ≡ ok (record { fields = f ∷ fs; tables = t ∷ ts; pred = pred })
unfolding parse Parser.query Parser.select_list Parser.table_list Parser.field query_to_string
    new_lexer bytes_eq
query-query_to_string f fs t ts pred nf nt np =
    let behind = pred-Behind pred np in
    let clause = where_clause (predicate_to_string pred) in
    let tables = listing (t ∷ ts) ++ clause in
    rw
      (
        next_token_select,
        next_token_space,
        names_start f fs (from_text ++ tables) nf.0 (from_text-Stops tables),
      )
      (rw
        (names_read f fs (from_text ++ tables) (found (keyword from_word) (b' ' ∷ tables)) nf.1
          (from_text-Stops tables) (next_token_from tables) refl)
        (rw (next_token_space, names_start t ts clause nt.0 behind.stops)
          (rw (names_read t ts clause behind.lex nt.1 behind.stops behind.starts behind.no_comma)
            (rw behind.reads refl))))

-- A string constant is printed without quotes. One that is a lower-case word and no keyword comes
-- back from the text of a query, where it was compared with a field, as the field of that name.
pub query_of_string_constant :
    (f : List ℕ) (fs : List (List ℕ)) (t : List ℕ) (ts : List (List ℕ)) (c w : List ℕ)
    → AllNames (f ∷ fs)
    → AllNames (t ∷ ts)
    → IsName c
    → IsName w
    → parse Parser.query (
        query_to_string (record {
          fields = f ∷ fs;
          tables = t ∷ ts;
          pred = record { lhs = with_field c; rhs = with_constant (string_val w) } ∷ [];
        }))
      ≡ ok (record {
        fields = f ∷ fs;
        tables = t ∷ ts;
        pred = record { lhs = with_field c; rhs = with_field w } ∷ [];
      })
unfolding query_to_string predicate_to_string term_to_string expression_to_string with_field
    with_constant
query_of_string_constant f fs t ts c w nf nt nc nw =
    query-query_to_string f fs t ts (record { lhs = with_field c; rhs = with_field w } ∷ []) nf nt
      (inl (c, refl, nc), inl (w, refl, nw), tt)
