-- ===== src/Parse/Lexer/Progress.antt =====
-- Every token takes characters off the text.
use mathlib.Core.Option
use mudopdbmigration.Prelude.{
  ℕ, suc, ◌+◌, ◌-◌, ◌*◌, ◌^◌, ◌≤◌, ◌<◌, ◌≡◌, ◌≢◌, inl, inr, Bool, true, false, ◌&&◌, ◌||◌, Option,
  none, some, List, [], ◌∷◌, arith, leb, ◌==◌, Bool-cases, length, out_of_fuel, Result, ok, err,
  ◌>>=◌,
}
use mudopdbmigration.Parse.Lexer.{
  Lexer, Token, next_token, int_constant, is_number, is_word_char, is_delim_char, skip_blanks,
  take_quoted, take_number, negated, take_word, found, quoted, starts_number, word_or_delim,
  token_at,
}

-- What a step leaves of `n` characters: no more, and fewer if there is a token.
pub record Shrinks (n : ℕ) (lex : Lexer) : Type 0 where
  pub bounded : length lex.rest ≤ n
  pub taken : (t : Token) → lex.token ≡ some t → length lex.rest < n

-- A step that throws does not run out of fuel.
abbrev pub Steps : ℕ → Result Lexer → Type 0
Steps n (ok lex) = Shrinks n lex
Steps n (err e) = e ≢ out_of_fuel

skip_blanks-le : (cs : List ℕ) → length (skip_blanks cs) ≤ length cs
unfolding skip_blanks
skip_blanks-le [] = omega arith
skip_blanks-le (c ∷ cs) = ground (arith, skip_blanks-le cs)

Quoted : ℕ → Option (List ℕ × List ℕ) → Type 0
Quoted n none = Unit
Quoted n (some (s, rest)) = length rest < n

Quoted-map :
    (n : ℕ) (c : ℕ) (r : Option (List ℕ × List ℕ))
    → Quoted n r
    → Quoted (suc n) (Option.map (λ (s, rest). (c ∷ s, rest)) r)
unfolding Quoted
Quoted-map n c none h = tt
Quoted-map n c (some (s, rest)) h = omega arith

take_quoted-Quoted : (ch : ℕ) (cs : List ℕ) → Quoted (length cs) (take_quoted ch cs)
unfolding take_quoted Quoted
take_quoted-Quoted ch [] = tt
take_quoted-Quoted ch (c ∷ cs) = elim (Bool-cases (c == ch)) [
  | inl e ↦ rw e (omega arith)
  | inr e ↦ rw e (Quoted-map (length cs) c (take_quoted ch cs) (take_quoted-Quoted ch cs))
]

quoted-Shrinks : (n : ℕ) (r : Option (List ℕ × List ℕ)) → Quoted n r → Shrinks (suc n) (quoted r)
unfolding Quoted
quoted-Shrinks n none h = record { bounded = omega arith; taken = λ t e. cc }
quoted-Shrinks n (some (s, rest)) h = record { bounded = omega arith; taken = λ t e. omega arith }

Numbers : ℕ → Result (ℕ × List ℕ) → Type 0
Numbers n (ok (m, rest)) = length rest ≤ n
Numbers n (err e) = e ≢ out_of_fuel

Numbers-mono : (n : ℕ) (r : Result (ℕ × List ℕ)) → Numbers n r → Numbers (suc n) r
unfolding Numbers
Numbers-mono n (ok (m, rest)) h = omega arith
Numbers-mono n (err e) h = h

take_number-Numbers : (m : ℕ) (cs : List ℕ) → Numbers (length cs) (take_number m cs)
unfolding take_number Numbers
take_number-Numbers m [] = omega arith
take_number-Numbers m (c ∷ cs) = elim (Bool-cases (is_number c)) [
  | inr e ↦ rw e (omega arith)
  | inl e ↦ elim (Bool-cases (leb (2 ^ 31) (10 * m + (c - b'0')))) [
    | inl f ↦ rw (e, f) (λ q. cc)
    | inr f ↦
        rw (e, f)
          (Numbers-mono (length cs) (take_number (10 * m + (c - b'0')) cs)
            (take_number-Numbers (10 * m + (c - b'0')) cs))
  ]
]

-- A number at a digit takes it.
take_number_first :
    (c : ℕ) (cs : List ℕ) → is_number c ≡ true → Numbers (length cs) (take_number 0 (c ∷ cs))
unfolding take_number Numbers is_number
take_number_first c cs h =
    let fits : leb (2 ^ 31) (10 * 0 + (c - b'0')) ≡ false = ground arith in
    rw (h, fits) (take_number-Numbers (10 * 0 + (c - b'0')) cs)

number-Steps :
    (n : ℕ) (r : Result (ℕ × List ℕ)) (f : ℕ → ℕ)
    → Numbers n r
    → Steps (suc n) (do (m, rest) ← r; ok (found (int_constant (f m)) rest))
unfolding Numbers
number-Steps n (ok (m, rest)) f h = record { bounded = omega arith; taken = λ t e. omega arith }
number-Steps n (err e) f h = h

take_word-le : (first : Bool) (cs : List ℕ) → length (take_word first cs).1 ≤ length cs
unfolding take_word
take_word-le first [] = omega arith
take_word-le first (c ∷ cs) = ground (arith, take_word-le false cs)

word_or_delim-Shrinks : (c : ℕ) (cs : List ℕ) → Shrinks (suc (length cs)) (word_or_delim c cs)
unfolding word_or_delim take_word
word_or_delim-Shrinks c cs = elim (Bool-cases (is_word_char c true)) [
  | inl e ↦
      let l = take_word-le false cs in
      rw e (record { bounded = omega arith; taken = λ t q. omega arith })
  | inr e ↦ elim (Bool-cases (is_delim_char c)) [
    | inl f ↦ rw (e, f) (record { bounded = omega arith; taken = λ t q. omega arith })
    | inr f ↦ rw (e, f) (record { bounded = omega arith; taken = λ t q. cc })
  ]
]

token_at-Steps : (cs : List ℕ) → Steps (length cs) (token_at cs)
unfolding token_at
token_at-Steps [] = record { bounded = omega arith; taken = λ t e. cc }
token_at-Steps (c ∷ cs) = elim (Bool-cases (c == b'"' || c == b'\'')) [
  | inl q ↦ rw q (quoted-Shrinks (length cs) (take_quoted c cs) (take_quoted-Quoted c cs))
  | inr q ↦ elim (Bool-cases (c == b'-' && starts_number cs)) [
    | inl m ↦
        rw (q, m) (number-Steps (length cs) (take_number 0 cs) negated (take_number-Numbers 0 cs))
    | inr m ↦ elim (Bool-cases (is_number c)) [
      | inl d ↦
          rw (q, m, d)
            (number-Steps (length cs) (take_number 0 (c ∷ cs)) (λ n. n) (take_number_first c cs d))
      | inr d ↦ rw (q, m, d) (word_or_delim-Shrinks c cs)
    ]
  ]
]

Steps-mono : (n m : ℕ) (r : Result Lexer) → n ≤ m → Steps n r → Steps m r
Steps-mono n m (ok lex) le h =
    let b = h.bounded in
    record { bounded = omega arith; taken = λ t e. (let l = h.taken t e in omega arith) }
Steps-mono n m (err e) le h = h

-- Reading a token leaves no more characters, and fewer where there is a token, and it does not run
-- out of fuel.
pub next_token-Steps : (cs : List ℕ) → Steps (length cs) (next_token cs)
unfolding next_token
next_token-Steps cs =
    Steps-mono (length (skip_blanks cs)) (length cs) (token_at (skip_blanks cs)) (skip_blanks-le cs)
      (token_at-Steps (skip_blanks cs))
