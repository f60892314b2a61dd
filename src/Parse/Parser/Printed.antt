-- ===== src/Parse/Parser/Printed.antt =====
-- Names, expressions and terms as they are printed, and what the parser makes of each.
use mudopdbmigration.Parse.Words.{select_word, where_word, from_word, and_word}
use mathlib.Core.List.{append_assoc, append-nil}
use mudopdbmigration.Prelude.{
  ℕ, zero, suc, ◌^◌, ◌≤◌, ◌<◌, ◌≡◌, refl, sym, ◌≢◌, ◌⊎◌, inl, inr, false, List, [], ◌∷◌, ◌++◌,
  arith, bytes_eq, length, length-append, ok,
}
use mudopdbmigration.Constant.{int_val}
use mudopdbmigration.Query.Predicate.{Expression, Term, Predicate, with_field, with_constant}
use mudopdbmigration.Query.Text.{expression_to_string, term_to_string, and_text}
use mudopdbmigration.Parse.Data.{listing, select_text, from_text, where_text}
use mudopdbmigration.Parse.Lexer.{
  Lexer, Token, next_token, found, eat_id, match_delim, id, is_word_char, delim, int_constant,
  keyword, is_delim_char, word_or_delim,
}
use mudopdbmigration.Parse.Lexer.Pieces.{IsName, Stops, next_token-IsName, next_token-to_string}
use mudopdbmigration.Parse.Parser
use mudopdbmigration.Parse.Parser.{
  Parser, parse, query, list_loop, when_matches, expression, term, predicate_loop, with_fuel, field,
  predicate, select_list, table_list, where_part,
}

abbrev pub AllNames : List (List ℕ) → Type 0
AllNames [] = Unit
AllNames (f ∷ fs) = IsName f × AllNames fs

-- A field name, or an integer other than the smallest.
abbrev pub IsPrintable : Expression → Type 0
IsPrintable e =
    ((f : List ℕ) × (e ≡ with_field f) × IsName f)
    ⊎ ((i : ℕ) × (e ≡ with_constant (int_val i)) × (i < 2 ^ 32) × (i ≢ 2 ^ 31))

abbrev pub AllPrintable : Predicate → Type 0
AllPrintable [] = Unit
AllPrintable (t ∷ ts) = IsPrintable t.lhs × IsPrintable t.rhs × AllPrintable ts

-- The names behind the first one, each behind `", "`.
abbrev pub more : List (List ℕ) → List ℕ
more [] = []
more (g ∷ gs) = b',' ∷ b' ' ∷ (g ++ more gs)

pub listing_lem : (f : List ℕ) (fs : List (List ℕ)) → listing (f ∷ fs) ≡ f ++ more fs
unfolding listing
listing_lem f [] = sym (append-nil f)
listing_lem f (g ∷ gs) = rw (listing_lem g gs) refl

pub more-Stops : (fs : List (List ℕ)) (rest : List ℕ) → Stops rest → Stops (more fs ++ rest)
unfolding is_word_char
more-Stops [] rest s = s
more-Stops (g ∷ gs) rest s = refl

pub length-more : (fs : List (List ℕ)) → length fs ≤ length (more fs)
length-more [] = omega arith
length-more (g ∷ gs) = omega (arith, length-more gs, length-append g (more gs))

pub next_token_space : (cs : List ℕ) → next_token (b' ' ∷ cs) ≡ next_token cs
unfolding next_token
next_token_space cs = refl

pub next_token_comma : (cs : List ℕ) → next_token (b',' ∷ cs) ≡ ok (found (delim b',') cs)
unfolding next_token word_or_delim is_delim_char
next_token_comma cs = refl

pub next_token_equals : (cs : List ℕ) → next_token (b'=' ∷ cs) ≡ ok (found (delim b'=') cs)
unfolding next_token word_or_delim is_delim_char
next_token_equals cs = refl

pub next_token_and :
    (cs : List ℕ) → next_token (and_text ++ cs) ≡ ok (found (keyword and_word) (b' ' ∷ cs))
unfolding next_token word_or_delim bytes_eq
next_token_and cs = refl

pub next_token_from :
    (cs : List ℕ) → next_token (from_text ++ cs) ≡ ok (found (keyword from_word) (b' ' ∷ cs))
unfolding next_token word_or_delim bytes_eq
next_token_from cs = refl

pub next_token_where :
    (cs : List ℕ) → next_token (where_text ++ cs) ≡ ok (found (keyword where_word) (b' ' ∷ cs))
unfolding next_token word_or_delim bytes_eq
next_token_where cs = refl

pub next_token_select :
    (cs : List ℕ) → next_token (select_text ++ cs) ≡ ok (found (keyword select_word) (b' ' ∷ cs))
unfolding next_token word_or_delim bytes_eq
next_token_select cs = refl

pub list_loop-names :
    (fuel : ℕ) (f : List ℕ) (fs : List (List ℕ)) (rest : List ℕ) (lex : Lexer)
    → AllNames fs
    → Stops rest
    → next_token rest ≡ ok lex
    → match_delim b',' lex ≡ false
    → length fs < fuel
    → Parser.list_loop eat_id fuel (found (id f) (more fs ++ rest)) ≡ ok (f ∷ fs, lex)
unfolding Parser.list_loop eat_id
list_loop-names zero f fs rest lex h s e m le = absurd (omega arith)
list_loop-names (suc fuel) f [] rest lex h s e m le = rw e (rw (Parser.when_matches, m) refl)
list_loop-names (suc fuel) f (g ∷ gs) rest lex h s e m le =
    let spelt : next_token ((g ++ more gs) ++ rest) ≡ ok (found (id g) (more gs ++ rest)) =
      rw append_assoc (next_token-IsName g (more gs ++ rest) h.0 (more-Stops gs rest s)) in
    rw (next_token_comma, Parser.when_matches)
      (rw (next_token_space, spelt)
        (rw (list_loop-names fuel g gs rest lex h.1 s e m (omega arith)) refl))

-- What the parser finds of a printed expression at its first token.
pub record Reads (e : Expression) (rest : List ℕ) : Type 0 where
  pub token : Token
  pub starts : next_token (expression_to_string e ++ rest) ≡ ok (found token rest)
  pub reads :
      (lex : Lexer) → next_token rest ≡ ok lex → Parser.expression (found token rest) ≡ ok (e, lex)

pub expression-Reads : (e : Expression) (rest : List ℕ) → IsPrintable e → Stops rest → Reads e rest
unfolding expression_to_string Parser.expression with_field with_constant
expression-Reads e rest (inl (f, p, n)) s =
    rw p
      (record { token = id f; starts = next_token-IsName f rest n s; reads = λ lex q. rw q refl })
expression-Reads e rest (inr (i, p, small, ne)) s = rw p (record {
  token = int_constant i;
  starts = next_token-to_string i rest small ne s;
  reads = λ lex q. rw q refl;
})

-- A printed term: its first token leaves the rest of the term.
pub record TermReads (t : Term) (rest : List ℕ) : Type 0 where
  pub token : Token
  pub left : List ℕ
  pub starts : next_token (term_to_string t ++ rest) ≡ ok (found token left)
  pub long : length rest ≤ length left
  pub reads :
      (lex : Lexer) → next_token rest ≡ ok lex → Parser.term (found token left) ≡ ok (t, lex)

pub equals-Stops : (cs : List ℕ) → Stops (b'=' ∷ cs)
unfolding is_word_char
equals-Stops cs = refl

pub term-TermReads :
    (t : Term) (rest : List ℕ)
    → IsPrintable t.lhs
    → IsPrintable t.rhs
    → Stops rest
    → TermReads t rest
unfolding term_to_string Parser.term
term-TermReads t rest l r s =
    let right = expression-Reads t.rhs rest r s in
    let tail : List ℕ = b'=' ∷ (expression_to_string t.rhs ++ rest) in
    let left = expression-Reads t.lhs tail l (equals-Stops (expression_to_string t.rhs ++ rest)) in
    let first = next_token_equals (expression_to_string t.rhs ++ rest) in
    record {
      token = left.token;
      left = tail;
      starts = rw append_assoc left.starts;
      long = omega (arith, length-append (expression_to_string t.rhs) rest);
      reads = λ lex q.
          rw (left.reads (found (delim b'=') (expression_to_string t.rhs ++ rest)) first)
            (rw right.starts (rw (right.reads lex q) refl));
    }
