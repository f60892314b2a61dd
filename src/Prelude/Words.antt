-- ===== src/Prelude/Words.antt =====
-- `int32_t` values by their bit patterns, and the order of byte strings.
use Prim.Native.Nat.{ℕ, ◌+◌, ◌%◌, ◌^◌, ◌<◌}
use mathlib.Core.Path.{◌≡◌, refl}
use mathlib.Core.Logic.{◌⊎◌, inr}
use mathlib.Core.Bool.{Bool, true, false, ◌&&◌, ◌||◌}
use mathlib.Core.List.{List, [], ◌∷◌}
use native.Mathlib.Omega.{arith}
use mudopdbmigration.Prelude.Tests.{ltb, ◌==◌}

-- `<` of `int32_t`: the patterns from 2 ^ 31 on are the negative numbers.
unfoldable pub int32_lt : ℕ → ℕ → Bool
int32_lt a b = ltb ((a + 2 ^ 31) % 2 ^ 32) ((b + 2 ^ 31) % 2 ^ 32)

pub int32_lt_trichotomy :
    (a b : ℕ)
    → a < 2 ^ 32
    → b < 2 ^ 32
    → ((int32_lt a b ≡ true) × (int32_lt b a ≡ false) × ((a == b) ≡ false))
      ⊎ ((int32_lt a b ≡ false) × (int32_lt b a ≡ true) × ((a == b) ≡ false))
      ⊎ ((int32_lt a b ≡ false) × (int32_lt b a ≡ false) × (a ≡ b))
unfolding int32_lt
int32_lt_trichotomy a b ha hb = ground arith

pub int32_lt_trans : (a b c : ℕ) → int32_lt a b ≡ true → int32_lt b c ≡ true → int32_lt a c ≡ true
unfolding int32_lt
int32_lt_trans a b c h k = ground arith

-- `<` of `std::string`: lexicographic, by unsigned bytes.
unfoldable pub bytes_lt : List ℕ → List ℕ → Bool
bytes_lt [] [] = false
bytes_lt [] (y ∷ ys) = true
bytes_lt (x ∷ xs) [] = false
bytes_lt (x ∷ xs) (y ∷ ys) = ltb x y || ((x == y) && bytes_lt xs ys)

pub bytes_lt_trichotomy :
    (xs ys : List ℕ)
    → ((bytes_lt xs ys ≡ true) × (bytes_lt ys xs ≡ false))
      ⊎ ((bytes_lt xs ys ≡ false) × (bytes_lt ys xs ≡ true))
      ⊎ ((bytes_lt xs ys ≡ false) × (bytes_lt ys xs ≡ false) × (xs ≡ ys))
unfolding bytes_lt
bytes_lt_trichotomy [] [] = inr (inr (refl, refl, refl))
bytes_lt_trichotomy [] (y ∷ ys) = ground arith
bytes_lt_trichotomy (x ∷ xs) [] = ground arith
bytes_lt_trichotomy (x ∷ xs) (y ∷ ys) = ground (arith, bytes_lt_trichotomy xs ys)

pub bytes_lt_irrefl : (xs : List ℕ) → bytes_lt xs xs ≡ false
unfolding bytes_lt
bytes_lt_irrefl [] = refl
bytes_lt_irrefl (x ∷ xs) = ground (arith, bytes_lt_irrefl xs)

pub bytes_lt_trans :
    (xs ys zs : List ℕ) → bytes_lt xs ys ≡ true → bytes_lt ys zs ≡ true → bytes_lt xs zs ≡ true
unfolding bytes_lt
bytes_lt_trans [] [] zs h k = k
bytes_lt_trans [] (y ∷ ys) [] h k = k
bytes_lt_trans [] (y ∷ ys) (z ∷ zs) h k = refl
bytes_lt_trans (x ∷ xs) [] zs h k = ground arith
bytes_lt_trans (x ∷ xs) (y ∷ ys) [] h k = k
bytes_lt_trans (x ∷ xs) (y ∷ ys) (z ∷ zs) h k = ground (arith, bytes_lt_trans xs ys zs)
