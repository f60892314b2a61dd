-- ===== src/Page/Errors.antt =====
-- Every outcome of an access: the bounds test adds in `size_t`, and the sum can wrap.
use mudopdbmigration.Prelude.{
  ℕ, ◌+◌, ◌-◌, ◌<◌, ◌≡◌, inl, inr, ◌&&◌, arith, leb, if◌then◌else◌, leb→le, Bool-cases, length,
  copy_bytes, read_bytes, out_of_range, undefined, Result, ok, err,
}
use mudopdbmigration.Page.{
  Page, size_mod, max_size, check_bounds, byte_at, store_byte, get_int, set_int,
}
use mudopdbmigration.Page.Access.{word, int_bytes, set_int_lem}

-- The outcome of an access of `n` bytes at offset `o` that ends in `r` if it is in bounds.
abbrev pub outcome {ℓ} : {A : Type ℓ} → Page → ℕ → ℕ → Result A → Result A
outcome p o n r =
    if leb (o + n) (length p)
    then r
    else if leb size_mod (o + n) && leb (o + n - size_mod) (length p)
    then err undefined
    else err out_of_range

-- An integer access succeeds where four bytes fit. Elsewhere it throws `out_of_range`, but for an
-- offset at which the sum of offset and four wraps around to at most the size of the page: there
-- the test passes and the access is undefined behaviour.
pub get_int-outcome :
    (p : Page) (o : ℕ)
    → o < size_mod
    → length p < max_size
    → get_int p o ≡ outcome p o 4 (ok (word p o))
unfolding get_int check_bounds byte_at word read_bytes
get_int-outcome p o h small = ground arith

-- An integer is written where four bytes fit. Elsewhere the write throws `out_of_range`, but for an
-- offset at which the sum of offset and four wraps around to at most the size of the page: there
-- the test passes and the write is undefined behaviour.
pub set_int-outcome :
    (p : Page) (o v : ℕ)
    → o < size_mod
    → length p < max_size
    → set_int p o v ≡ outcome p o 4 (ok (copy_bytes p o (int_bytes v)))
unfolding set_int check_bounds store_byte
set_int-outcome p o v h small = elim (Bool-cases (leb (o + 4) (length p))) [
  | inl fits ↦
      ground (arith, set_int_lem p o v (record { fits = leb→le _ _ fits; addressable = small }))
  | inr over ↦ ground arith
]
