-- ===== src/Prelude/Lists.antt =====
-- Lists measured and indexed by native numbers, under the library's names, and runs of bytes.
use Prim.Native.Nat.{ℕ, zero, suc, ◌+◌, ◌≤◌, ◌<◌}
use mathlib.Core.Path.{◌≡◌, refl, ap, ◌∙◌}
use mathlib.Core.Logic.{◌≢◌, ◌⊎◌}
use mathlib.Core.List.{List, [], ◌∷◌, ◌++◌}
use mathlib.Core.Option.{Option, none, some}
use native.Mathlib.Omega.{arith}

module _ {ℓ} {A : Type ℓ} where
  abbrev pub length : List A → ℕ
  length [] = 0
  length (x ∷ xs) = suc (length xs)

  abbrev pub get_elem? : List A → ℕ → Option A
  get_elem? [] i = none
  get_elem? (x ∷ xs) zero = some x
  get_elem? (x ∷ xs) (suc i) = get_elem? xs i

  abbrev pub get_or : List A → ℕ → A → A
  get_or [] i d = d
  get_or (x ∷ xs) zero d = x
  get_or (x ∷ xs) (suc i) d = get_or xs i d

  -- A write out of bounds changes nothing.
  abbrev pub set : List A → ℕ → A → List A
  set [] i v = []
  set (x ∷ xs) zero v = v ∷ xs
  set (x ∷ xs) (suc i) v = x ∷ set xs i v

  abbrev pub replicate : ℕ → A → List A
  replicate zero a = []
  replicate (suc n) a = a ∷ replicate n a

  pub length-append : (xs ys : List A) → length (xs ++ ys) ≡ length xs + length ys
  length-append [] ys = omega arith
  length-append (x ∷ xs) ys = omega (arith, length-append xs ys)

module _ {ℓ} {A : Type ℓ} where
  pub length-replicate : (n : ℕ) (a : A) → length (replicate n a) ≡ n
  length-replicate zero a = refl
  length-replicate (suc n) a = ap suc (length-replicate n a)

  pub length-set : (xs : List A) (i : ℕ) (v : A) → length (set xs i v) ≡ length xs
  length-set [] i v = refl
  length-set (x ∷ xs) zero v = refl
  length-set (x ∷ xs) (suc i) v = ap suc (length-set xs i v)

  pub get_or-set_self :
      (xs : List A) (i : ℕ) (v d : A) → i < length xs → get_or (set xs i v) i d ≡ v
  get_or-set_self [] i v d h = elim h [ ]
  get_or-set_self (x ∷ xs) zero v d h = refl
  get_or-set_self (x ∷ xs) (suc i) v d h = get_or-set_self xs i v d (omega arith)

  pub get_or-set_ne :
      (xs : List A) (i j : ℕ) (v d : A) → i ≢ j → get_or (set xs i v) j d ≡ get_or xs j d
  get_or-set_ne [] i j v d h = refl
  get_or-set_ne (x ∷ xs) zero zero v d h = absurd (h refl)
  get_or-set_ne (x ∷ xs) zero (suc j) v d h = refl
  get_or-set_ne (x ∷ xs) (suc i) zero v d h = refl
  get_or-set_ne (x ∷ xs) (suc i) (suc j) v d h = get_or-set_ne xs i j v d (λ e. h (ap suc e))

  pub get_elem?-set_self :
      (xs : List A) (i : ℕ) (v : A) → i < length xs → get_elem? (set xs i v) i ≡ some v
  get_elem?-set_self [] i v h = elim h [ ]
  get_elem?-set_self (x ∷ xs) zero v h = refl
  get_elem?-set_self (x ∷ xs) (suc i) v h = get_elem?-set_self xs i v (omega arith)

  pub get_elem?-set_ne :
      (xs : List A) (i j : ℕ) (v : A) → i ≢ j → get_elem? (set xs i v) j ≡ get_elem? xs j
  get_elem?-set_ne [] i j v h = refl
  get_elem?-set_ne (x ∷ xs) zero zero v h = absurd (h refl)
  get_elem?-set_ne (x ∷ xs) zero (suc j) v h = refl
  get_elem?-set_ne (x ∷ xs) (suc i) zero v h = refl
  get_elem?-set_ne (x ∷ xs) (suc i) (suc j) v h = get_elem?-set_ne xs i j v (λ e. h (ap suc e))

  -- `memcpy` of `ds` to offset `o`.
  unfoldable pub copy_bytes : List A → ℕ → List A → List A
  copy_bytes p o [] = p
  copy_bytes p o (d ∷ ds) = copy_bytes (set p o d) (suc o) ds

  pub length-copy_bytes : (p : List A) (o : ℕ) (ds : List A) → length (copy_bytes p o ds) ≡ length p
  unfolding copy_bytes
  length-copy_bytes p o [] = refl
  length-copy_bytes p o (d ∷ ds) =
      omega (arith, length-copy_bytes (set p o d) (suc o) ds, length-set p o d)

  pub get_or-copy_bytes_ne :
      (p : List A) (o : ℕ) (ds : List A) (i : ℕ) (z : A)
      → (i < o) ⊎ (o + length ds ≤ i)
      → get_or (copy_bytes p o ds) i z ≡ get_or p i z
  unfolding copy_bytes
  get_or-copy_bytes_ne p o [] i z h = refl
  get_or-copy_bytes_ne p o (d ∷ ds) i z h =
      ground (arith, get_or-copy_bytes_ne (set p o d) (suc o) ds i z, get_or-set_ne p o i d z)

  -- The `n` elements from offset `o`.
  unfoldable pub read_bytes : List A → ℕ → ℕ → A → List A
  read_bytes p o zero z = []
  read_bytes p o (suc n) z = get_or p o z ∷ read_bytes p (suc o) n z

  pub length-read_bytes : (p : List A) (o n : ℕ) (z : A) → length (read_bytes p o n z) ≡ n
  unfolding read_bytes
  length-read_bytes p o zero z = refl
  length-read_bytes p o (suc n) z = ap suc (length-read_bytes p (suc o) n z)

module _ {ℓ} {A : Type ℓ} (z : A) where
  pub read_bytes-copy_self :
      (p : List A) (o : ℕ) (ds : List A)
      → o + length ds ≤ length p
      → read_bytes (copy_bytes p o ds) o (length ds) z ≡ ds
  unfolding read_bytes copy_bytes
  read_bytes-copy_self p o [] h = refl
  read_bytes-copy_self p o (d ∷ ds) h = ground (
    arith,
    length-set p o d,
    read_bytes-copy_self (set p o d) (suc o) ds,
    get_or-copy_bytes_ne (set p o d) (suc o) ds o z,
    get_or-set_self p o d z,
  )

  pub read_bytes-copy_ne :
      (p : List A) (o : ℕ) (ds : List A) (o' n : ℕ)
      → (o' + n ≤ o) ⊎ (o + length ds ≤ o')
      → read_bytes (copy_bytes p o ds) o' n z ≡ read_bytes p o' n z
  unfolding read_bytes
  read_bytes-copy_ne p o ds o' zero h = refl
  read_bytes-copy_ne p o ds o' (suc n) h =
      ground (arith, read_bytes-copy_ne p o ds (suc o') n, get_or-copy_bytes_ne p o ds o' z)

module _ {ℓ} {A : Type ℓ} where
  pub copy_bytes-append :
      (p : List A) (o : ℕ) (ds es : List A)
      → copy_bytes p o (ds ++ es) ≡ copy_bytes (copy_bytes p o ds) (o + length ds) es
  unfolding copy_bytes
  copy_bytes-append p o [] es = ap (λ (n : ℕ). copy_bytes p n es) (omega arith)
  copy_bytes-append p o (d ∷ ds) es =
      copy_bytes-append (set p o d) (suc o) ds es
      ∙ ap (λ (n : ℕ). copy_bytes (copy_bytes (set p o d) (suc o) ds) n es) (omega arith)
