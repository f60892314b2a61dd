-- ===== src/Page.antt =====
-- include/file/page.hpp and src/file/page.cpp: a block-sized byte buffer with big-endian integers
-- and length-prefixed byte arrays. A byte is a number below 256, an `int32_t` is its bit pattern,
-- a number below 2 ^ 32, and a `std::string` is the list of its bytes.
pub mod Access
pub mod RoundTrip
pub mod Serial
pub mod Errors
use mudopdbmigration.Prelude.{
  ℕ, ◌+◌, ◌-◌, ◌*◌, ◌/◌, ◌%◌, ◌^◌, ◌<◌, ◌≡◌, Bool, not, List, arith, ltb, leb, if◌then◌else◌,
  length, get_or, set, replicate, copy_bytes, read_bytes, out_of_range, invalid_length, too_large,
  undefined, Result, ok, err, ◌>>=◌, ◌>>◌, guard,
}

abbrev pub Page : Type 0
Page = List ℕ

-- `size_t` has 64 bits.
abbrev pub size_mod : ℕ
size_mod = 2 ^ 64

-- A `std::vector` of bytes is shorter than this.
abbrev pub max_size : ℕ
max_size = 2 ^ 63

abbrev pub int32_mod : ℕ
int32_mod = 2 ^ 32

-- The sign test of an `int32_t`.
abbrev pub is_negative : ℕ → Bool
is_negative w = leb (2 ^ 31) w

-- `static_cast<int32_t>` of a `size_t`, and back: the second extends the sign.
unfoldable pub int32_of_size : ℕ → ℕ
int32_of_size n = n % int32_mod

unfoldable pub size_of_int32 : ℕ → ℕ
size_of_int32 w = if is_negative w then w + (size_mod - int32_mod) else w

-- The value that the constructor gives to a page of `blocksize` bytes.
unfoldable pub zeroed : ℕ → Page
zeroed blocksize = replicate blocksize 0

-- The sum of offset and size is computed in `size_t` and wraps.
unfoldable pub check_bounds : Page → ℕ → ℕ → Result (Unit {0})
check_bounds p offset size =
    if ltb (length p) ((offset + size) % size_mod) then err out_of_range else ok tt

-- `bb_[i]`, read and written; outside of the vector it is undefined.
unfoldable pub byte_at : Page → ℕ → Result ℕ
byte_at p i = if ltb i (length p) then ok (get_or p i 0) else err undefined

unfoldable pub store_byte : Page → ℕ → ℕ → Result Page
store_byte p i b = if ltb i (length p) then ok (set p i b) else err undefined

unfoldable pub get_int : Page → ℕ → Result ℕ
get_int p offset = do
  check_bounds p offset 4
  b0 ← byte_at p offset
  b1 ← byte_at p (offset + 1)
  b2 ← byte_at p (offset + 2)
  b3 ← byte_at p (offset + 3)
  ok (b0 * 2 ^ 24 + b1 * 2 ^ 16 + b2 * 2 ^ 8 + b3)

unfoldable pub set_int : Page → ℕ → ℕ → Result Page
set_int p offset val = do
  check_bounds p offset 4
  p0 ← store_byte p offset (val / 2 ^ 24 % 256)
  p1 ← store_byte p0 (offset + 1) (val / 2 ^ 16 % 256)
  p2 ← store_byte p1 (offset + 2) (val / 2 ^ 8 % 256)
  store_byte p2 (offset + 3) (val % 256)

-- The pointer that is returned is the position of the first byte after the length.
unfoldable pub get_bytes : Page → ℕ → Result ℕ
get_bytes p offset = do
  check_bounds p offset 4
  len ← get_int p offset
  guard (not (is_negative len)) invalid_length
  check_bounds p (offset + 4) len
  ok (offset + 4)

unfoldable pub get_bytes_length : Page → ℕ → Result ℕ
get_bytes_length p offset = do
  check_bounds p offset 4
  len ← get_int p offset
  guard (not (is_negative len)) invalid_length
  ok len

-- `std::memcpy`, undefined unless the target range lies in the vector.
unfoldable pub memcpy : Page → ℕ → List ℕ → Result Page
memcpy p offset bytes =
    if leb (offset + length bytes) (length p) then ok (copy_bytes p offset bytes) else err undefined

unfoldable pub set_bytes : Page → ℕ → List ℕ → Result Page
set_bytes p offset bytes = do
  guard (leb (length bytes) (2 ^ 31 - 1)) too_large
  check_bounds p offset (4 + length bytes)
  q ← set_int p offset (length bytes)
  memcpy q (offset + 4) bytes

unfoldable pub get_string : Page → ℕ → Result (List ℕ)
get_string p offset = do
  start ← get_bytes p offset
  len ← get_bytes_length p offset
  ok (read_bytes p start len 0)

unfoldable pub set_string : Page → ℕ → List ℕ → Result Page
set_string p offset val = set_bytes p offset val

unfoldable pub max_length : ℕ → ℕ
max_length strlen = (4 + strlen) % size_mod

pub max_length_lem : (n : ℕ) → n < 2 ^ 31 → max_length n ≡ 4 + n
unfolding max_length
max_length_lem n h = omega arith
