-- ===== src/Page/Access.antt =====
-- Within the bounds of a page each accessor is a plain run of bytes read or copied.
use mudopdbmigration.Prelude.{
  ℕ, ◌+◌, ◌*◌, ◌/◌, ◌%◌, ◌^◌, ◌≤◌, ◌<◌, ◌≡◌, inl, inr, List, [], ◌∷◌, ◌++◌, arith, length, set,
  length-set, copy_bytes, length-copy_bytes, read_bytes, length-read_bytes, copy_bytes-append, ok,
  Result-cases,
}
use mudopdbmigration.Page.{
  Page, int32_mod, check_bounds, byte_at, store_byte, get_int, set_int, get_bytes, get_bytes_length,
  memcpy, set_bytes, get_string, set_string, max_size,
}

abbrev pub big_endian : List ℕ → ℕ
big_endian (a ∷ b ∷ c ∷ d ∷ []) = a * 2 ^ 24 + b * 2 ^ 16 + c * 2 ^ 8 + d
big_endian _ = 0

abbrev pub int_bytes : ℕ → List ℕ
int_bytes v = (v / 2 ^ 24 % 256) ∷ (v / 2 ^ 16 % 256) ∷ (v / 2 ^ 8 % 256) ∷ (v % 256) ∷ []

pub big_endian-int_bytes : (v : ℕ) → v < int32_mod → big_endian (int_bytes v) ≡ v
big_endian-int_bytes v h = omega arith

-- The four bytes at an offset, as a word.
unfoldable pub word : Page → ℕ → ℕ
word p o = big_endian (read_bytes p o 4 0)

-- The `n` bytes at an offset.
abbrev pub run : Page → ℕ → ℕ → List ℕ
run p o n = read_bytes p o n 0

-- The range of `n` bytes at `o` lies in the page, and the page in memory.
pub record InBounds (p : Page) (o n : ℕ) : Type 0 where
  pub fits : o + n ≤ length p
  pub addressable : length p < max_size

module _ (p : Page) (o : ℕ) where
  pub check_bounds_lem : (n : ℕ) → InBounds p o n → check_bounds p o n ≡ ok tt
  unfolding check_bounds
  check_bounds_lem n h = ground arith

  pub get_int_lem : InBounds p o 4 → get_int p o ≡ ok (word p o)
  unfolding get_int byte_at word read_bytes
  get_int_lem h = ground (arith, check_bounds_lem 4 h)

  pub set_int_lem : (v : ℕ) → InBounds p o 4 → set_int p o v ≡ ok (copy_bytes p o (int_bytes v))
  unfolding set_int store_byte copy_bytes
  set_int_lem v h = ground (
    arith,
    check_bounds_lem 4 h,
    length-set p o (v / 2 ^ 24 % 256),
    length-set (set p o (v / 2 ^ 24 % 256)) (o + 1) (v / 2 ^ 16 % 256),
    length-set (set (set p o (v / 2 ^ 24 % 256)) (o + 1) (v / 2 ^ 16 % 256)) (o + 2)
        (v / 2 ^ 8 % 256),
  )

  pub copy_InBounds : (ds : List ℕ) (o' n : ℕ) → InBounds p o' n → InBounds (copy_bytes p o ds) o' n
  copy_InBounds ds o' n h = omega (arith, length-copy_bytes p o ds)

-- A string of `n` bytes: its length word, and the run behind it.
pub get_string_lem :
    (p : Page) (o n : ℕ)
    → InBounds p o (4 + n)
    → n < 2 ^ 31
    → word p o ≡ n
    → get_string p o ≡ ok (run p (o + 4) n)
unfolding get_string get_bytes get_bytes_length
get_string_lem p o n h small e = ground (
  arith,
  get_int_lem p o (omega arith),
  check_bounds_lem p o 4 (omega arith),
  check_bounds_lem p (o + 4) n (omega arith),
)

-- What a successful read of an integer tells of the page.
pub get_int_inv :
    (p : Page) (o v : ℕ)
    → length p < max_size
    → get_int p o ≡ ok v
    → InBounds p o 4 × (word p o ≡ v)
unfolding get_int byte_at word read_bytes
get_int_inv p o v small e = (ground arith, ground arith)

-- What a successful read of a string tells of the page.
pub get_string_inv :
    (p : Page) (o : ℕ) (t : List ℕ)
    → length p < max_size
    → get_string p o ≡ ok t
    → InBounds p o (4 + length t)
      × (word p o ≡ length t)
      × (t ≡ run p (o + 4) (length t))
      × (length t < 2 ^ 31)
unfolding get_string get_bytes get_bytes_length check_bounds
get_string_inv p o t small e = elim (Result-cases (get_int p o)) [
  | inl (v, f) ↦ ground (arith, get_int_inv p o v small f, length-read_bytes p (o + 4) v 0)
  | inr (x, f) ↦ ground arith
]

pub set_string_lem :
    (p : Page) (o : ℕ) (s : List ℕ)
    → InBounds p o (4 + length s)
    → length s < 2 ^ 31
    → set_string p o s ≡ ok (copy_bytes p o (int_bytes (length s) ++ s))
unfolding set_string set_bytes memcpy
set_string_lem p o s h small = ground (
  arith,
  set_int_lem p o (length s) (omega arith),
  check_bounds_lem p o (4 + length s) h,
  length-copy_bytes p o (int_bytes (length s)),
  copy_bytes-append p o (int_bytes (length s)) s,
)
