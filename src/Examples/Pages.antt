-- ===== src/Examples/Pages.antt =====
-- A page of sixteen bytes.
use mudopdbmigration.Prelude.{
  ℕ, ◌+◌, ◌-◌, ◌≤◌, ◌≡◌, refl, inl, inr, List, [], ◌∷◌, arith, copy_bytes, read_bytes, undefined,
  ok, err, ◌>>=◌,
}
use mudopdbmigration.Page.{
  Page, get_int, set_int, get_string, set_string, size_mod, check_bounds, byte_at, get_bytes,
  get_bytes_length,
}
use mudopdbmigration.Page.Access.{InBounds, int_bytes}
use mudopdbmigration.Page.RoundTrip.{get_string-set_string, write_frame}
use mudopdbmigration.Page.Errors.{get_int-outcome, set_int-outcome}

abbrev page : Page
page = 0 ∷ 0 ∷ 0 ∷ 7 ∷ 0 ∷ 0 ∷ 0 ∷ 0 ∷ 0 ∷ 0 ∷ 0 ∷ 0 ∷ 0 ∷ 0 ∷ 0 ∷ 2 ∷ []

abbrev text : List ℕ
text = 104 ∷ 105 ∷ []

in_page : (o n : ℕ) → o + n ≤ 16 → InBounds page o n
in_page o n h = record { fits = h; addressable = omega arith }

get_string-set_string_example : (set_string page 4 text >>= λ q. get_string q 4) ≡ ok text
get_string-set_string_example =
    get_string-set_string page 4 text (in_page 4 6 (omega arith)) (omega arith)

first_word : get_int page 0 ≡ ok 7
unfolding get_int check_bounds byte_at
first_word = refl

empty_string : get_string page 10 ≡ ok []
unfolding get_string get_bytes check_bounds get_int byte_at get_bytes_length read_bytes
empty_string = refl

write_frame_example :
    ((set_int page 4 9 >>= λ q. get_int q 0) ≡ ok 7)
    × ((set_int page 4 9 >>= λ q. get_string q 10) ≡ ok [])
    × ((set_string page 4 text >>= λ q. get_int q 0) ≡ ok 7)
    × ((set_string page 4 text >>= λ q. get_string q 10) ≡ ok [])
write_frame_example =
    write_frame page 4 9 text 0 7 10 [] (in_page 4 6 (omega arith)) (omega arith) first_word
      empty_string (inl (omega arith)) (inr (omega arith))

-- The offset is -4 as a `size_t`.
get_int-outcome_example : get_int page (size_mod - 4) ≡ err undefined
get_int-outcome_example = get_int-outcome page (size_mod - 4) (omega arith) (omega arith)

set_int-outcome_example :
    set_int page 12 1 ≡ ok (0 ∷ 0 ∷ 0 ∷ 7 ∷ 0 ∷ 0 ∷ 0 ∷ 0 ∷ 0 ∷ 0 ∷ 0 ∷ 0 ∷ int_bytes 1)
unfolding copy_bytes
set_int-outcome_example = set_int-outcome page 12 1 (omega arith) (omega arith)
