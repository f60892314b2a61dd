-- ===== src/Parse/Lexer.antt =====
-- include/parse/lexer.hpp and src/parse/lexer.cpp: the tokens of an SQL text. A character is a byte,
-- and the position in the text is given by the characters from it on.
pub mod Pieces
pub mod Progress
use mudopdbmigration.Page.{int32_mod}
use mathlib.Core.Option
use mudopdbmigration.Prelude.{
  ℕ, ◌+◌, ◌-◌, ◌*◌, ◌%◌, ◌^◌, Bool, true, false, ◌&&◌, ◌||◌, not, Option, none, some, List, [], ◌∷◌,
  map, leb, ◌==◌, if◌then◌else◌, bytes_eq, undefined, bad_syntax, Result, ok, err, ◌>>=◌, ◌>>◌,
}
use mudopdbmigration.Parse.Words.{keywords}

-- A token of each `TokenType` has the value that the lexer sets for it.
pub data Token : Type 0 where
  delim : ℕ → Token
  int_constant : ℕ → Token
  string_constant : List ℕ → Token
  keyword : List ℕ → Token
  id : List ℕ → Token

pub record Lexer : Type 0 where
  pub rest : List ℕ
  pub token : Option Token

unfoldable pub is_whitespace_char : ℕ → Bool
is_whitespace_char c = leb c b' '

unfoldable pub is_number : ℕ → Bool
is_number c = leb b'0' c && leb c b'9'

unfoldable pub is_word_char : ℕ → Bool → Bool
unfolding is_number
is_word_char c is_first =
    leb b'a' c && leb c b'z'
    || leb b'A' c && leb c b'Z'
    || leb 160 c && leb c 255
    || c == b'_'
    || not is_first && is_number c

unfoldable pub is_delim_char : ℕ → Bool
unfolding is_whitespace_char is_number is_word_char
is_delim_char c = not (is_whitespace_char c) && not (is_number c) && not (is_word_char c true)

unfoldable pub skip_blanks : List ℕ → List ℕ
unfolding is_whitespace_char
skip_blanks [] = []
skip_blanks (c ∷ cs) = if is_whitespace_char c then skip_blanks cs else c ∷ cs

-- The characters up to the closing quote, and those behind it.
unfoldable pub take_quoted : ℕ → List ℕ → Option (List ℕ × List ℕ)
take_quoted ch [] = none
take_quoted ch (c ∷ cs) =
    if c == ch then some ([], cs) else Option.map (λ (s, rest). (c ∷ s, rest)) (take_quoted ch cs)

-- The loop over the digits. `10 * nval + …` overflows `int32_t` where it does not fit.
unfoldable pub take_number : ℕ → List ℕ → Result (ℕ × List ℕ)
unfolding is_number
take_number nval [] = ok (nval, [])
take_number nval (c ∷ cs) =
    if not (is_number c)
    then ok (nval, c ∷ cs)
    else if leb (2 ^ 31) (10 * nval + (c - b'0'))
    then err undefined
    else take_number (10 * nval + (c - b'0')) cs

-- `-nval`
abbrev pub negated : ℕ → ℕ
negated nval = (int32_mod - nval) % int32_mod

-- The loop over the characters of a word.
unfoldable pub take_word : Bool → List ℕ → List ℕ × List ℕ
unfolding is_word_char
take_word is_first [] = ([], [])
take_word is_first (c ∷ cs) =
    let (s, rest) = take_word false cs in
    if is_word_char c is_first then (c ∷ s, rest) else ([], c ∷ cs)

-- `::tolower` in the "C" locale
unfoldable pub to_lower : ℕ → ℕ
to_lower c = if leb b'A' c && leb c b'Z' then c + 32 else c

unfoldable pub is_keyword : List ℕ → List (List ℕ) → Bool
is_keyword w [] = false
is_keyword w (k ∷ ks) = bytes_eq w k || is_keyword w ks

unfoldable pub word_token : List ℕ → Token
unfolding to_lower is_keyword
word_token s =
    let sval = map to_lower s in if is_keyword sval keywords then keyword sval else id sval

abbrev pub found : Token → List ℕ → Lexer
found t cs = record { rest = cs; token = some t }

-- The string constants, from behind the opening quote; an unterminated one ends the text.
abbrev pub quoted : Option (List ℕ × List ℕ) → Lexer
quoted none = record { rest = []; token = none }
quoted (some (s, cs)) = found (string_constant s) cs

abbrev pub starts_number : List ℕ → Bool
starts_number [] = false
starts_number (c ∷ cs) = is_number c

-- The words and the delimiters, at a character that starts neither a string nor a number.
unfoldable pub word_or_delim : ℕ → List ℕ → Lexer
unfolding take_word is_word_char word_token
word_or_delim c cs =
    let (s, rest) = take_word true (c ∷ cs) in
    if is_word_char c true
    then found (word_token s) rest
    else if is_delim_char c
    then found (delim c) cs
    else record { rest = c ∷ cs; token = none }

-- `next_token` behind the blanks.
unfoldable pub token_at : List ℕ → Result Lexer
unfolding is_number
token_at [] = ok (record { rest = []; token = none })
token_at (c ∷ cs) =
    if c == b'"' || c == b'\''
    then ok (quoted (take_quoted c cs))
    else if c == b'-' && starts_number cs
    then (do (nval, rest) ← take_number 0 cs; ok (found (int_constant (negated nval)) rest))
    else if is_number c
    then (do (nval, rest) ← take_number 0 (c ∷ cs); ok (found (int_constant nval) rest))
    else ok (word_or_delim c cs)

unfoldable pub next_token : List ℕ → Result Lexer
unfolding skip_blanks token_at
next_token cs = token_at (skip_blanks cs)

-- The constructor.
unfoldable pub new_lexer : List ℕ → Result Lexer
new_lexer s = next_token s

unfoldable pub match_delim : ℕ → Lexer → Bool
match_delim d lex = elim lex.token [ some (delim c) ↦ c == d | _ ↦ false ]

unfoldable pub match_int_constant : Lexer → Bool
match_int_constant lex = elim lex.token [ some (int_constant _) ↦ true | _ ↦ false ]

unfoldable pub match_string_constant : Lexer → Bool
match_string_constant lex = elim lex.token [ some (string_constant _) ↦ true | _ ↦ false ]

unfoldable pub match_keyword : List ℕ → Lexer → Bool
match_keyword w lex = elim lex.token [ some (keyword k) ↦ bytes_eq k w | _ ↦ false ]

unfoldable pub match_id : Lexer → Bool
match_id lex = elim lex.token [ some (id _) ↦ true | _ ↦ false ]

unfoldable pub eat_delim : ℕ → Lexer → Result (Unit {0} × Lexer)
unfolding match_delim
eat_delim d lex =
    if match_delim d lex then (do lex' ← next_token lex.rest; ok (tt, lex')) else err bad_syntax

unfoldable pub eat_int_constant : Lexer → Result (ℕ × Lexer)
eat_int_constant lex = elim lex.token [
  | some (int_constant val) ↦ do lex' ← next_token lex.rest; ok (val, lex')
  | _ ↦ err bad_syntax
]

unfoldable pub eat_string_constant : Lexer → Result (List ℕ × Lexer)
eat_string_constant lex = elim lex.token [
  | some (string_constant val) ↦ do lex' ← next_token lex.rest; ok (val, lex')
  | _ ↦ err bad_syntax
]

unfoldable pub eat_keyword : List ℕ → Lexer → Result (Unit {0} × Lexer)
unfolding match_keyword
eat_keyword w lex =
    if match_keyword w lex then (do lex' ← next_token lex.rest; ok (tt, lex')) else err bad_syntax

unfoldable pub eat_id : Lexer → Result (List ℕ × Lexer)
eat_id lex = elim lex.token [
  | some (id val) ↦ do lex' ← next_token lex.rest; ok (val, lex')
  | _ ↦ err bad_syntax
]
