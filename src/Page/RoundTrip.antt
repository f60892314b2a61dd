-- ===== src/Page/RoundTrip.antt =====
-- What is written to a page is read back, and nothing beside it changes.
use mudopdbmigration.Prelude.{
  ℕ, ◌+◌, ◌^◌, ◌≤◌, ◌<◌, ◌≡◌, sym, ap, ◌∙◌, ◌⊎◌, inl, List, [], ◌++◌, arith, length, copy_bytes,
  length-copy_bytes, read_bytes-copy_self, read_bytes-copy_ne, copy_bytes-append, ok, ◌>>=◌,
}
use mudopdbmigration.Page.{Page, max_size, int32_mod, get_int, set_int, get_string, set_string}
use mudopdbmigration.Page.Access.{
  word, big_endian, int_bytes, big_endian-int_bytes, InBounds, get_int_lem, set_int_lem,
  copy_InBounds, get_string_lem, get_int_inv, get_string_inv, set_string_lem,
}

abbrev pub Apart : ℕ → ℕ → ℕ → ℕ → Type 0
Apart o n o' n' = (o' + n' ≤ o) ⊎ (o + n ≤ o')

pub word-copy_self :
    (p : Page) (o v : ℕ) (rest : List ℕ)
    → InBounds p o (4 + length rest)
    → v < int32_mod
    → word (copy_bytes p o (int_bytes v ++ rest)) o ≡ v
unfolding word
word-copy_self p o v rest h small =
    rw
      (
        copy_bytes-append p o (int_bytes v) rest,
        read_bytes-copy_ne 0 (copy_bytes p o (int_bytes v)) (o + 4) rest o 4 (inl (omega arith)),
        read_bytes-copy_self 0 p o (int_bytes v) (omega arith),
      )
      (big_endian-int_bytes v small)

pub word-copy_ne :
    (p : Page) (o : ℕ) (ds : List ℕ) (o' : ℕ)
    → Apart o (length ds) o' 4
    → word (copy_bytes p o ds) o' ≡ word p o'
unfolding word
word-copy_ne p o ds o' h = ap big_endian (read_bytes-copy_ne 0 p o ds o' 4 h)

-- An integer that is written at an offset where four bytes fit is read back from it.
pub get_int-set_int :
    (p : Page) (o v : ℕ)
    → InBounds p o 4
    → v < int32_mod
    → (set_int p o v >>= λ q. get_int q o) ≡ ok v
get_int-set_int p o v h small =
    rw
      (
        set_int_lem p o v h,
        get_int_lem (copy_bytes p o (int_bytes v)) o (copy_InBounds p o (int_bytes v) o 4 h),
      )
      (ap ok (word-copy_self p o v [] h small))

-- A string that is written at an offset where its length and its bytes fit is read back from it.
pub get_string-set_string :
    (p : Page) (o : ℕ) (s : List ℕ)
    → InBounds p o (4 + length s)
    → length s < 2 ^ 31
    → (set_string p o s >>= λ q. get_string q o) ≡ ok s
get_string-set_string p o s h small =
    rw
      (
        set_string_lem p o s h small,
        get_string_lem (copy_bytes p o (int_bytes (length s) ++ s)) o (length s)
            (copy_InBounds p o (int_bytes (length s) ++ s) o (4 + length s) h) small
            (word-copy_self p o (length s) s h (omega arith)),
        copy_bytes-append p o (int_bytes (length s)) s,
      )
      (ap ok (
        read_bytes-copy_self 0 (copy_bytes p o (int_bytes (length s))) (o + 4) s
          (omega (arith, length-copy_bytes p o (int_bytes (length s))))))

module _ (p : Page) (o : ℕ) (ds : List ℕ) where
  pub get_int-copy_ne :
      (o' v : ℕ)
      → length p < max_size
      → get_int p o' ≡ ok v
      → Apart o (length ds) o' 4
      → get_int (copy_bytes p o ds) o' ≡ ok v
  get_int-copy_ne o' v small e h =
      let inv = get_int_inv p o' v small e in
      get_int_lem (copy_bytes p o ds) o' (copy_InBounds p o ds o' 4 inv.0)
      ∙ ap ok (word-copy_ne p o ds o' h ∙ inv.1)

  pub get_string-copy_ne :
      (o' : ℕ) (t : List ℕ)
      → length p < max_size
      → get_string p o' ≡ ok t
      → Apart o (length ds) o' (4 + length t)
      → get_string (copy_bytes p o ds) o' ≡ ok t
  get_string-copy_ne o' t small e h =
      let inv = get_string_inv p o' t small e in
      get_string_lem (copy_bytes p o ds) o' (length t)
        (copy_InBounds p o ds o' (4 + length t) inv.0) inv.3
        (word-copy_ne p o ds o' (omega arith) ∙ inv.1)
      ∙ ap ok (read_bytes-copy_ne 0 p o ds (o' + 4) (length t) (omega arith) ∙ sym inv.2)

-- An integer or a string written where the string fits leaves alone every integer and every string that
-- was readable from bytes apart from those written.
pub write_frame :
    (p : Page) (o v : ℕ) (s : List ℕ) (o' w : ℕ) (o'' : ℕ) (t : List ℕ)
    → InBounds p o (4 + length s)
    → length s < 2 ^ 31
    → get_int p o' ≡ ok w
    → get_string p o'' ≡ ok t
    → Apart o (4 + length s) o' 4
    → Apart o (4 + length s) o'' (4 + length t)
    → ((set_int p o v >>= λ q. get_int q o') ≡ ok w)
      × ((set_int p o v >>= λ q. get_string q o'') ≡ ok t)
      × ((set_string p o s >>= λ q. get_int q o') ≡ ok w)
      × ((set_string p o s >>= λ q. get_string q o'') ≡ ok t)
write_frame p o v s o' w o'' t h small e f d d' = (
  rw (set_int_lem p o v (omega arith))
      (get_int-copy_ne p o (int_bytes v) o' w h.addressable e (omega arith)),
  rw (set_int_lem p o v (omega arith))
      (get_string-copy_ne p o (int_bytes v) o'' t h.addressable f (omega arith)),
  rw (set_string_lem p o s h small)
      (get_int-copy_ne p o (int_bytes (length s) ++ s) o' w h.addressable e (omega arith)),
  rw (set_string_lem p o s h small)
      (get_string-copy_ne p o (int_bytes (length s) ++ s) o'' t h.addressable f (omega arith)),
)
