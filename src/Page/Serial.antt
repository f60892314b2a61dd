-- ===== src/Page/Serial.antt =====
-- A page that is filled from the left: each write goes behind the bytes written so far.
use mudopdbmigration.Prelude.{
  ℕ, zero, suc, ◌+◌, ◌^◌, ◌<◌, ◌≡◌, refl, sym, ap, ◌∙◌, List, [], ◌∷◌, ◌++◌, arith, length, get_or,
  set, replicate, length-append, length-replicate, copy_bytes, read_bytes, ok,
}
use mathlib.Core.List.{append_assoc}
use mudopdbmigration.Page.{Page, max_size, int32_mod, get_int, set_int, set_string, get_string}
use mudopdbmigration.Page.Access.{
  word, big_endian, int_bytes, big_endian-int_bytes, get_int_lem, set_int_lem, get_string_lem,
  set_string_lem,
}

-- The bytes `xs` are written, and `m` zeros are left.
abbrev pub Written : Page → List ℕ → ℕ → Type 0
Written p xs m = p ≡ xs ++ replicate m 0

copy_bytes-prefix :
    (x : ℕ) (p : Page) (o : ℕ) (ds : List ℕ) → copy_bytes (x ∷ p) (suc o) ds ≡ x ∷ copy_bytes p o ds
unfolding copy_bytes
copy_bytes-prefix x p o [] = refl
copy_bytes-prefix x p o (d ∷ ds) = copy_bytes-prefix x (set p o d) (suc o) ds

copy_bytes-zeros :
    (ds : List ℕ) (m : ℕ) → copy_bytes (replicate (length ds + m) 0) 0 ds ≡ ds ++ replicate m 0
unfolding copy_bytes
copy_bytes-zeros [] m = ap (λ (k : ℕ). replicate {A = ℕ} k 0) (omega arith)
copy_bytes-zeros (d ∷ ds) m =
    let e : suc (length ds) + m ≡ suc (length ds + m) = omega arith in
    rw e
      (copy_bytes-prefix d (replicate (length ds + m) 0) 0 ds ∙ ap (◌∷◌ d) (copy_bytes-zeros ds m))

copy_bytes-next :
    (xs ds : List ℕ) (m : ℕ)
    → copy_bytes (xs ++ replicate (length ds + m) 0) (length xs) ds ≡ (xs ++ ds) ++ replicate m 0
copy_bytes-next [] ds m = copy_bytes-zeros ds m
copy_bytes-next (x ∷ xs) ds m = rw copy_bytes-prefix (ap (◌∷◌ x) (copy_bytes-next xs ds m))

length-Written : (p : Page) (xs : List ℕ) (m : ℕ) → Written p xs m → length p ≡ length xs + m
length-Written p xs m w =
    ap length w ∙ length-append xs (replicate m 0) ∙ omega (arith, length-replicate {A = ℕ} m 0)

-- One integer more.
pub set_int_next :
    (p : Page) (xs : List ℕ) (k m o v : ℕ)
    → Written p xs k
    → k ≡ 4 + m
    → o ≡ length xs
    → length xs + k < max_size
    → (q : Page) × (set_int p o v ≡ ok q) × Written q (xs ++ int_bytes v) m
set_int_next p xs k m o v w room e small = (
  copy_bytes p o (int_bytes v),
  set_int_lem p o v (omega (arith, length-Written p xs k w)),
  rw (w, e, room) (copy_bytes-next xs (int_bytes v) m),
)

-- One string more.
pub set_string_next :
    (p : Page) (xs : List ℕ) (k m o : ℕ) (s : List ℕ)
    → Written p xs k
    → k ≡ 4 + length s + m
    → o ≡ length xs
    → length xs + k < max_size
    → length s < 2 ^ 31
    → (q : Page) × (set_string p o s ≡ ok q) × Written q (xs ++ (int_bytes (length s) ++ s)) m
set_string_next p xs k m o s w room e small short = (
  copy_bytes p o (int_bytes (length s) ++ s),
  set_string_lem p o s (omega (arith, length-Written p xs k w)) short,
  rw (w, e, room') (copy_bytes-next xs (int_bytes (length s) ++ s) m),
)
  where
    room' : k ≡ length (int_bytes (length s) ++ s) + m
    room' = omega arith

read_bytes-suc :
    (x : ℕ) (p : List ℕ) (o n : ℕ) → read_bytes (x ∷ p) (suc o) n 0 ≡ read_bytes p o n 0
unfolding read_bytes
read_bytes-suc x p o zero = refl
read_bytes-suc x p o (suc n) = ap (◌∷◌ (get_or p o 0)) (read_bytes-suc x p (suc o) n)

read_bytes-append :
    (xs ds ys : List ℕ) → read_bytes (xs ++ (ds ++ ys)) (length xs) (length ds) 0 ≡ ds
unfolding read_bytes
read_bytes-append [] [] ys = refl
read_bytes-append [] (d ∷ ds) ys =
    ap (◌∷◌ d) (read_bytes-suc d (ds ++ ys) 0 (length ds) ∙ read_bytes-append [] ds ys)
read_bytes-append (x ∷ xs) ds ys =
    read_bytes-suc x (xs ++ (ds ++ ys)) (length xs) (length ds) ∙ read_bytes-append xs ds ys

-- An integer, or a string, that stands between other bytes.
module _ (p : Page) (xs ys : List ℕ) (o : ℕ) (e : o ≡ length xs) (small : length p < max_size) where
  pub get_int_at : (v : ℕ) → v < int32_mod → p ≡ xs ++ (int_bytes v ++ ys) → get_int p o ≡ ok v
  unfolding word
  get_int_at v h w =
      get_int_lem p o (record {
        fits = omega (arith, ap length w, length-append xs (int_bytes v ++ ys));
        addressable = small;
      })
      ∙ ap ok (
          rw (w, e)
            (ap big_endian (read_bytes-append xs (int_bytes v) ys) ∙ big_endian-int_bytes v h))

  pub get_string_at :
      (s : List ℕ)
      → length s < 2 ^ 31
      → p ≡ xs ++ (int_bytes (length s) ++ (s ++ ys))
      → get_string p o ≡ ok s
  unfolding word
  get_string_at s h w =
      get_string_lem p o (length s)
        (record {
          fits = omega (
            arith,
            ap length w,
            length-append xs (int_bytes (length s) ++ (s ++ ys)),
            length-append s ys,
          );
          addressable = small;
        })
        h
        (rw (w, e)
          (ap big_endian (read_bytes-append xs (int_bytes (length s)) (s ++ ys))
            ∙ big_endian-int_bytes (length s) (omega arith)))
      ∙ ap ok (rw (behind, regrouped) (read_bytes-append (xs ++ int_bytes (length s)) s ys))
    where
      behind : o + 4 ≡ length (xs ++ int_bytes (length s))
      behind = omega (arith, length-append xs (int_bytes (length s)))

      regrouped : p ≡ (xs ++ int_bytes (length s)) ++ (s ++ ys)
      regrouped = w ∙ sym (append_assoc xs (int_bytes (length s)) (s ++ ys))
