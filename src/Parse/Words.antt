-- ===== src/Parse/Words.antt =====
-- The keywords of `Lexer`, in the order of the source.
use mudopdbmigration.Prelude.{ℕ, List, [], ◌∷◌}

abbrev pub select_word : List ℕ
select_word = b's' ∷ b'e' ∷ b'l' ∷ b'e' ∷ b'c' ∷ b't' ∷ []

abbrev pub from_word : List ℕ
from_word = b'f' ∷ b'r' ∷ b'o' ∷ b'm' ∷ []

abbrev pub where_word : List ℕ
where_word = b'w' ∷ b'h' ∷ b'e' ∷ b'r' ∷ b'e' ∷ []

abbrev pub and_word : List ℕ
and_word = b'a' ∷ b'n' ∷ b'd' ∷ []

abbrev pub insert_word : List ℕ
insert_word = b'i' ∷ b'n' ∷ b's' ∷ b'e' ∷ b'r' ∷ b't' ∷ []

abbrev pub into_word : List ℕ
into_word = b'i' ∷ b'n' ∷ b't' ∷ b'o' ∷ []

abbrev pub values_word : List ℕ
values_word = b'v' ∷ b'a' ∷ b'l' ∷ b'u' ∷ b'e' ∷ b's' ∷ []

abbrev pub delete_word : List ℕ
delete_word = b'd' ∷ b'e' ∷ b'l' ∷ b'e' ∷ b't' ∷ b'e' ∷ []

abbrev pub update_word : List ℕ
update_word = b'u' ∷ b'p' ∷ b'd' ∷ b'a' ∷ b't' ∷ b'e' ∷ []

abbrev pub set_word : List ℕ
set_word = b's' ∷ b'e' ∷ b't' ∷ []

abbrev pub create_word : List ℕ
create_word = b'c' ∷ b'r' ∷ b'e' ∷ b'a' ∷ b't' ∷ b'e' ∷ []

abbrev pub table_word : List ℕ
table_word = b't' ∷ b'a' ∷ b'b' ∷ b'l' ∷ b'e' ∷ []

abbrev pub int_word : List ℕ
int_word = b'i' ∷ b'n' ∷ b't' ∷ []

abbrev pub varchar_word : List ℕ
varchar_word = b'v' ∷ b'a' ∷ b'r' ∷ b'c' ∷ b'h' ∷ b'a' ∷ b'r' ∷ []

abbrev pub view_word : List ℕ
view_word = b'v' ∷ b'i' ∷ b'e' ∷ b'w' ∷ []

abbrev pub as_word : List ℕ
as_word = b'a' ∷ b's' ∷ []

abbrev pub index_word : List ℕ
index_word = b'i' ∷ b'n' ∷ b'd' ∷ b'e' ∷ b'x' ∷ []

abbrev pub on_word : List ℕ
on_word = b'o' ∷ b'n' ∷ []

abbrev pub keywords : List (List ℕ)
keywords =
    select_word ∷ from_word ∷ where_word ∷ and_word ∷ insert_word ∷ into_word ∷ values_word
    ∷ delete_word ∷ update_word ∷ set_word ∷ create_word ∷ table_word ∷ int_word ∷ varchar_word
    ∷ view_word ∷ as_word ∷ index_word ∷ on_word ∷ []
