-- ===== src/Parse/Parser/Terminates.antt =====
-- The parser ends on every text.
use mudopdbmigration.Prelude.{
  ℕ, ◌≤◌, ◌≢◌, inl, inr, Bool, arith, Bool-cases, length, out_of_fuel, Result, ok, err,
}
use mudopdbmigration.Parse.Lexer.{Lexer}
use mudopdbmigration.Parse.Lexer.Progress.{Shrinks}
use mudopdbmigration.Parse.Parser
use mudopdbmigration.Parse.Parser.{
  Parser, pure, continue, when_matches, with_fuel, field, constant, expression, term,
  predicate_loop, predicate, list_loop, where_part,
}

-- A parser's result at a lexer with `n` characters left: fuel did not run out, and no characters
-- came back.
unfoldable pub Bounded {ℓ} : {A : Type ℓ} → ℕ → Result (A × Lexer) → Type 0
Bounded n (ok (a, lex)) = length lex.rest ≤ n
Bounded n (err e) = e ≢ out_of_fuel

unfoldable pub Taken {ℓ} : {A : Type ℓ} → ℕ → Result (A × Lexer) → Type 0
Taken n (ok (a, lex)) = Shrinks n lex
Taken n (err e) = e ≢ out_of_fuel

-- A parser that ends, and one that also takes a token.
pub record Ends {ℓ} {A : Type ℓ} (p : Parser A) : Type 0 where
  pub run : (lex : Lexer) → Bounded (length lex.rest) (p lex)

pub record Takes {ℓ} {A : Type ℓ} (p : Parser A) : Type 0 where
  pub run : (lex : Lexer) → Taken (length lex.rest) (p lex)

pub Bounded-mono {ℓ} :
    {A : Type ℓ} (n m : ℕ) (r : Result (A × Lexer)) → n ≤ m → Bounded n r → Bounded m r
unfolding Bounded
Bounded-mono n m (ok (a, lex)) le h = omega arith
Bounded-mono n m (err e) le h = h

Shrinks-mono : (n m : ℕ) (lex : Lexer) → n ≤ m → Shrinks n lex → Shrinks m lex
Shrinks-mono n m lex le h =
    let b = h.bounded in
    record { bounded = omega arith; taken = λ t e. (let l = h.taken t e in omega arith) }

Taken-mono {ℓ} : {A : Type ℓ} (n m : ℕ) (r : Result (A × Lexer)) → n ≤ m → Taken n r → Taken m r
unfolding Taken
Taken-mono n m (ok (a, lex)) le h = Shrinks-mono n m lex le h
Taken-mono n m (err e) le h = h

Taken-Bounded {ℓ} : {A : Type ℓ} (n : ℕ) (r : Result (A × Lexer)) → Taken n r → Bounded n r
unfolding Taken Bounded
Taken-Bounded n (ok (a, lex)) h = h.bounded
Taken-Bounded n (err e) h = h

pub ends {ℓ} : {A : Type ℓ} {p : Parser A} → Takes p → Ends p
ends h = record { run = λ lex. Taken-Bounded (length lex.rest) _ (h.run lex) }

module _ {ℓ κ} {A : Type ℓ} {B : Type κ} where
  pub continue-Bounded :
      (n : ℕ) (r : Result (A × Lexer)) (f : A → Parser B)
      → Bounded n r
      → ((a : A) (lex : Lexer) → length lex.rest ≤ n → Bounded (length lex.rest) (f a lex))
      → Bounded n (Parser.continue r f)
  unfolding Bounded
  continue-Bounded n (ok (a, lex)) f h k = Bounded-mono (length lex.rest) n (f a lex) h (k a lex h)
  continue-Bounded n (err e) f h k = h

  pub then-Ends :
      {p : Parser A} {f : A → Parser B}
      → Ends p
      → ((a : A) → Ends (f a))
      → Ends (λ lex. Parser.continue (p lex) f)
  then-Ends {p} {f} h k = record {
    run = λ lex.
        continue-Bounded (length lex.rest) (p lex) f (h.run lex) (λ a lex' _. (k a).run lex');
  }

  continue-Taken :
      (n : ℕ) (r : Result (A × Lexer)) (f : A → Parser B)
      → Taken n r
      → ((a : A) → Takes (f a))
      → Taken n (Parser.continue r f)
  unfolding Taken
  continue-Taken n (ok (a, lex)) f h k =
      Taken-mono (length lex.rest) n (f a lex) h.bounded ((k a).run lex)
  continue-Taken n (err e) f h k = h

  pub then-Takes :
      {p : Parser A} {f : A → Parser B}
      → Takes p
      → ((a : A) → Takes (f a))
      → Takes (λ lex. Parser.continue (p lex) f)
  then-Takes {p} {f} h k = record {
    run = λ lex. continue-Taken (length lex.rest) (p lex) f (h.run lex) k;
  }

  continue_pure-Taken :
      (n : ℕ) (r : Result (A × Lexer)) (f : A → B)
      → Taken n r
      → Taken n (Parser.continue r (λ a. Parser.pure (f a)))
  unfolding Taken
  continue_pure-Taken n (ok (a, lex)) f h = h
  continue_pure-Taken n (err e) f h = h

  pub then_pure-Takes :
      {p : Parser A} (f : A → B)
      → Takes p
      → Takes (λ lex. Parser.continue (p lex) (λ a. Parser.pure (f a)))
  then_pure-Takes {p} f h = record {
    run = λ lex. continue_pure-Taken (length lex.rest) (p lex) f (h.run lex);
  }

pub pure-Ends {ℓ} : {A : Type ℓ} (a : A) → Ends (Parser.pure a)
unfolding Bounded
pure-Ends a = record { run = λ lex. omega arith }

module _ {ℓ} {A : Type ℓ} {p q : Parser A} where
  pub when-Ends : (test : Lexer → Bool) → Ends p → Ends q → Ends (Parser.when_matches test p q)
  when-Ends test h k = record {
    run = λ lex. elim (Bool-cases (test lex)) [
      | inl e ↦ rw (e, Parser.when_matches) (h.run lex)
      | inr e ↦ rw (e, Parser.when_matches) (k.run lex)
    ];
  }

  pub when-Takes : (test : Lexer → Bool) → Takes p → Takes q → Takes (Parser.when_matches test p q)
  when-Takes test h k = record {
    run = λ lex. elim (Bool-cases (test lex)) [
      | inl e ↦ rw (e, Parser.when_matches) (h.run lex)
      | inr e ↦ rw (e, Parser.when_matches) (k.run lex)
    ];
  }
