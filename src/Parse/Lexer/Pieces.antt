-- ===== src/Parse/Lexer/Pieces.antt =====
-- The tokens of the texts that `to_string` prints.
use mudopdbmigration.Page.{is_negative}
use mathlib.Core.List.{append_assoc}
use mudopdbmigration.Prelude.{
  ℕ, zero, suc, ◌+◌, ◌-◌, ◌*◌, ◌/◌, ◌%◌, ◌^◌, ◌<◌, ◌≡◌, refl, sym, ap, ◌∙◌, ◌≢◌, inl, inr, Bool,
  true, false, ◌||◌, List, [], ◌∷◌, ◌++◌, map, arith, ltb, ◌==◌, Bool-cases, ok,
}
use mudopdbmigration.Query.Text.{digits, to_string}
use mudopdbmigration.Parse.Words.{keywords}
use mudopdbmigration.Parse.Lexer.{
  id, id, word_token, word_or_delim, is_word_char, is_number, found, int_constant,
  is_whitespace_char, take_number, negated, take_word, to_lower, is_keyword, next_token,
}

-- The letters, digits and underscores of a word, none of them a capital.
abbrev pub Letters : Bool → List ℕ → Type 0
Letters is_first [] = Unit
Letters is_first (c ∷ cs) = (is_word_char c is_first ≡ true) × (to_lower c ≡ c) × Letters false cs

-- A name: a word in lower case that is no keyword.
abbrev pub IsName : List ℕ → Type 0
IsName [] = ⊥
IsName (c ∷ cs) = Letters true (c ∷ cs) × (is_keyword (c ∷ cs) keywords ≡ false)

-- A text that does not go on with a letter or a digit.
abbrev pub Stops : List ℕ → Type 0
Stops [] = Unit
Stops (c ∷ cs) = is_word_char c false ≡ false

word_char_first :
    (c : ℕ) (is_first : Bool) → is_word_char c false ≡ false → is_word_char c is_first ≡ false
unfolding is_word_char
word_char_first c true h = ground arith
word_char_first c false h = h

take_word-Letters :
    (is_first : Bool) (w rest : List ℕ)
    → Letters is_first w
    → Stops rest
    → take_word is_first (w ++ rest) ≡ (w, rest)
unfolding take_word
take_word-Letters is_first [] [] h s = refl
take_word-Letters is_first [] (c ∷ cs) h s = rw (word_char_first c is_first s) refl
take_word-Letters is_first (c ∷ cs) rest (l, _, ls) s =
    rw (l, take_word-Letters false cs rest ls s) refl

lower-Letters : (is_first : Bool) (w : List ℕ) → Letters is_first w → map to_lower w ≡ w
lower-Letters is_first [] h = refl
lower-Letters is_first (c ∷ cs) (_, l, ls) = rw (l, lower-Letters false cs ls) refl

-- What a first letter is not.
first_letter :
    (c : ℕ)
    → is_word_char c true ≡ true
    → (is_whitespace_char c ≡ false)
      × ((c == b'"' || c == b'\'') ≡ false)
      × ((c == b'-') ≡ false)
      × (is_number c ≡ false)
unfolding is_word_char is_whitespace_char
first_letter c h = (ground arith, ground arith, ground arith, ground arith)

pub next_token-IsName :
    (w rest : List ℕ) → IsName w → Stops rest → next_token (w ++ rest) ≡ ok (found (id w) rest)
unfolding next_token word_or_delim word_token
next_token-IsName [] rest h s = absurd h
next_token-IsName (c ∷ cs) rest (ls, k) s =
    let (blank, quote, minus, digit) = first_letter c ls.0 in
    rw
      (
        blank,
        quote,
        minus,
        digit,
        ls.0,
        take_word-Letters false cs rest ls.2 s,
        lower-Letters true (c ∷ cs) ls,
        k,
      )
      refl

-- A text that does not go on with a digit.
Stops-number : (c : ℕ) → is_word_char c false ≡ false → is_number c ≡ false
unfolding is_word_char
Stops-number c h = ground arith

take_number_end : (n : ℕ) (rest : List ℕ) → Stops rest → take_number n rest ≡ ok (n, rest)
unfolding take_number
take_number_end n [] s = refl
take_number_end n (c ∷ cs) s = rw (Stops-number c s) refl

abbrev power : ℕ → ℕ
power zero = 1
power (suc k) = 10 * power k

take_digit :
    (acc n m : ℕ) (rest : List ℕ)
    → n < 10
    → 10 * acc + n ≡ m
    → m < 2 ^ 31
    → take_number acc ((b'0' + n) ∷ rest) ≡ take_number m rest
unfolding take_number is_number
take_digit acc n m rest h e small = ground arith

take_number-digits :
    (rounds n : ℕ) (rest : List ℕ)
    → n < power rounds
    → n < 2 ^ 31
    → take_number 0 (digits rounds n ++ rest) ≡ take_number n rest
unfolding digits
take_number-digits zero n rest h small = let e : n ≡ 0 = omega arith in rw e refl
take_number-digits (suc rounds) n rest h small = elim (Bool-cases (ltb n 10)) [
  | inl e ↦ rw e (take_digit 0 n n rest (ground arith) (omega arith) small)
  | inr e ↦
      rw (e, append_assoc)
        (take_number-digits rounds (n / 10) ((b'0' + n % 10) ∷ rest) (omega arith) (omega arith)
          ∙ take_digit (n / 10) (n % 10) n rest (omega arith) (omega arith) small)
]

digits_start :
    (rounds n : ℕ) (rest : List ℕ)
    → n < power (suc rounds)
    → (c : ℕ) × (cs : List ℕ) × (digits (suc rounds) n ++ rest ≡ c ∷ cs) × (is_number c ≡ true)
unfolding digits is_number
digits_start zero n rest h = ((b'0' + n), rest, ground arith, ground arith)
digits_start (suc rounds) n rest h = elim (Bool-cases (ltb n 10)) [
  | inl e ↦ ((b'0' + n), rest, rw e refl, ground arith)
  | inr e ↦
      let (c, cs, p, q) = digits_start rounds (n / 10) ((b'0' + n % 10) ∷ rest) (omega arith) in
      (c, cs, rw (e, append_assoc) p, q)
]

first_digit :
    (c : ℕ)
    → is_number c ≡ true
    → (is_whitespace_char c ≡ false) × ((c == b'"' || c == b'\'') ≡ false) × ((c == b'-') ≡ false)
unfolding is_number is_whitespace_char
first_digit c h = (ground arith, ground arith, ground arith)

positive :
    (n : ℕ) (rest : List ℕ)
    → n < 2 ^ 31
    → Stops rest
    → next_token (digits 10 n ++ rest) ≡ ok (found (int_constant n) rest)
unfolding next_token
positive n rest h s =
    let (c, cs, e, d) = digits_start 9 n rest (omega arith) in
    let (blank, quote, minus) = first_digit c d in
    let taken : take_number 0 (c ∷ cs) ≡ ok (n, rest) =
      ap (take_number 0) (sym e)
      ∙ (take_number-digits 10 n rest (omega arith) h ∙ take_number_end n rest s) in
    rw e (rw (blank, quote, minus, d, taken) refl)

negative :
    (n : ℕ) (rest : List ℕ)
    → n < 2 ^ 31
    → Stops rest
    → next_token (b'-' ∷ (digits 10 n ++ rest)) ≡ ok (found (int_constant (negated n)) rest)
unfolding next_token
negative n rest h s =
    let (c, cs, e, d) = digits_start 9 n rest (omega arith) in
    let taken : take_number 0 (c ∷ cs) ≡ ok (n, rest) =
      ap (take_number 0) (sym e)
      ∙ (take_number-digits 10 n rest (omega arith) h ∙ take_number_end n rest s) in
    rw e (rw (d, taken) refl)

pub next_token-to_string :
    (i : ℕ) (rest : List ℕ)
    → i < 2 ^ 32
    → i ≢ 2 ^ 31
    → Stops rest
    → next_token (to_string i ++ rest) ≡ ok (found (int_constant i) rest)
unfolding to_string
next_token-to_string i rest h ne s = elim (Bool-cases (is_negative i)) [
  | inl e ↦
      let back : negated (2 ^ 32 - i) ≡ i = ground arith in
      rw e (
        negative (2 ^ 32 - i) rest (ground arith) s
        ∙ ap (λ m. ok (found (int_constant m) rest)) back)
  | inr e ↦ rw e (positive i rest (ground arith) s)
]
