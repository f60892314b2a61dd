-- ===== src/Parse/Parser/Rounds.antt =====
-- The loops of the parser end, since each round takes a token.
use mudopdbmigration.Prelude.{
  ℕ, zero, suc, ◌<◌, ◌≡◌, inl, inr, Bool, true, some, List, [], arith, Bool-cases, Option-cases,
  length, Result, ok, err,
}
use mudopdbmigration.Parse.Words.{where_word, and_word}
use mudopdbmigration.Parse.Lexer.{Lexer, Token, match_delim, match_keyword}
use mudopdbmigration.Parse.Parser
use mudopdbmigration.Parse.Parser.{
  Parser, pure, continue, when_matches, with_fuel, field, constant, expression, term,
  predicate_loop, predicate, list_loop, where_part,
}
use mudopdbmigration.Parse.Parser.Terminates.{
  Bounded, Taken, Ends, Takes, Bounded-mono, ends, continue-Bounded, then-Ends, pure-Ends,
  when-Ends,
}
use mudopdbmigration.Parse.Parser.Tokens.{eat_delim-Takes, eat_keyword-Takes, term-Takes}

-- One round of a loop: an item, and behind a matching token another round.
module _ {ℓ κ} {A : Type ℓ} {B : Type κ} {item : Parser A} {test : Lexer → Bool}
    {eat : Parser (Unit {0})} {join : A → B → Parser B} {last : A → Parser B} (takes : Takes item)
    (looks : (lex : Lexer) → test lex ≡ true → (t : Token) × (lex.token ≡ some t))
    (eats : Takes eat) (joins : (x : A) (r : B) → Ends (join x r)) (stops : (x : A) → Ends (last x))
    (fuel : ℕ) (more : Parser B)
    (rounds : (lex : Lexer) → length lex.rest < fuel → Bounded (length lex.rest) (more lex)) where
  abbrev next_round : A → Parser B
  next_round x lex = Parser.continue (more lex) (join x)

  after_token :
      (n : ℕ) (x : A) (r : Result (Unit {0} × Lexer))
      → n < fuel
      → Taken n r
      → Bounded n (Parser.continue r (λ _. next_round x))
  unfolding Taken Bounded
  after_token n x (ok (_, lex)) h t =
      let b = t.bounded in
      Bounded-mono (length lex.rest) n (next_round x lex) b (
        continue-Bounded (length lex.rest) (more lex) (join x) (rounds lex (omega arith))
          (λ r lex' _. (joins x r).run lex'))
  after_token n x (err e) h t = t

  abbrev after_item : A → Parser B
  after_item x =
      Parser.when_matches test (λ lex. Parser.continue (eat lex) (λ _. next_round x)) (last x)

  round_of :
      (n : ℕ) (r : Result (A × Lexer))
      → n < suc fuel
      → Taken n r
      → Bounded n (Parser.continue r after_item)
  unfolding Taken Bounded
  round_of n (ok (x, lex)) h t = elim (Bool-cases (test lex)) [
    | inl e ↦
        let (k, f) = looks lex e in
        let l = t.taken k f in
        rw (e, Parser.when_matches)
          (Bounded-mono (length lex.rest) n _ (omega arith)
            (after_token (length lex.rest) x (eat lex) (omega arith) (eats.run lex)))
    | inr e ↦
        rw (e, Parser.when_matches)
          (Bounded-mono (length lex.rest) n _ t.bounded ((stops x).run lex))
  ]
  round_of n (err e) h t = t

  pub round :
      (lex : Lexer)
      → length lex.rest < suc fuel
      → Bounded (length lex.rest) (Parser.continue (item lex) after_item)
  round lex h = round_of (length lex.rest) (item lex) h (takes.run lex)

pub matched_delim :
    (d : ℕ) (lex : Lexer) → match_delim d lex ≡ true → (t : Token) × (lex.token ≡ some t)
unfolding match_delim
matched_delim d lex h = elim (Option-cases lex.token) [
  | inl e ↦ absurd (ground arith)
  | inr (t, e) ↦ (t, e)
]

matched_keyword :
    (w : List ℕ) (lex : Lexer) → match_keyword w lex ≡ true → (t : Token) × (lex.token ≡ some t)
unfolding match_keyword
matched_keyword w lex h = elim (Option-cases lex.token) [
  | inl e ↦ absurd (ground arith)
  | inr (t, e) ↦ (t, e)
]

predicate_loop_lem :
    (fuel : ℕ) (lex : Lexer)
    → length lex.rest < fuel
    → Bounded (length lex.rest) (Parser.predicate_loop fuel lex)
unfolding Parser.predicate_loop
predicate_loop_lem zero lex h = absurd (omega arith)
predicate_loop_lem (suc fuel) lex h =
    round term-Takes (matched_keyword and_word) (eat_keyword-Takes and_word) (λ x r. pure-Ends _)
      (λ x. pure-Ends _) fuel _ (predicate_loop_lem fuel) lex h

pub list_loop_lem {ℓ} :
    {A : Type ℓ} {item : Parser A} (takes : Takes item) (fuel : ℕ) (lex : Lexer)
    → length lex.rest < fuel
    → Bounded (length lex.rest) (Parser.list_loop item fuel lex)
unfolding Parser.list_loop
list_loop_lem takes zero lex h = absurd (omega arith)
list_loop_lem takes (suc fuel) lex h =
    round takes (matched_delim b',') (eat_delim-Takes b',') (λ x r. pure-Ends _) (λ x. pure-Ends _)
      fuel _ (list_loop_lem takes fuel) lex h

pub with_fuel-Ends {ℓ} :
    {A : Type ℓ} (p : ℕ → Parser A)
    → ((fuel : ℕ) (lex : Lexer) → length lex.rest < fuel → Bounded (length lex.rest) (p fuel lex))
    → Ends (Parser.with_fuel p)
with_fuel-Ends p h = record { run = λ lex. h (suc (length lex.rest)) lex (omega arith) }

pub where_part-Ends : Ends Parser.where_part
unfolding Parser.where_part Parser.predicate
where_part-Ends =
    when-Ends (match_keyword where_word)
      (then-Ends (ends (eat_keyword-Takes where_word)) λ _. with_fuel-Ends _ predicate_loop_lem)
      (pure-Ends [])
