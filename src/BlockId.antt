-- ===== src/BlockId.antt =====
-- include/file/blockid.hpp and src/file/blockid.cpp: a file name and the number of a block of it.
-- The number is an `int32_t`, given by its bit pattern.
pub mod Order
use mudopdbmigration.Prelude.{
  ℕ, ◌≡◌, ◌↔◌, Bool, true, ◌&&◌, not, List, arith, ◌==◌, if◌then◌else◌, bytes_eq, bytes_eq_sound,
  bytes_eq_refl, int32_lt, bytes_lt,
}

pub record BlockId : Type 0 where
  pub file_name : List ℕ
  pub number : ℕ

-- `operator==` and `operator!=`
unfoldable pub block_eq : BlockId → BlockId → Bool
block_eq a b = bytes_eq a.file_name b.file_name && (a.number == b.number)

unfoldable pub block_ne : BlockId → BlockId → Bool
unfolding block_eq
block_ne a b = not (block_eq a b)

-- `operator<`
unfoldable pub block_lt : BlockId → BlockId → Bool
block_lt a b =
    if not (bytes_eq a.file_name b.file_name)
    then bytes_lt a.file_name b.file_name
    else int32_lt a.number b.number

pub block_eq_iff : (a b : BlockId) → (block_eq a b ≡ true) ↔ (a ≡ b)
unfolding block_eq
block_eq_iff a b = (
  λ h. ground (arith, bytes_eq_sound a.file_name b.file_name),
  λ e. ground (arith, bytes_eq_refl b.file_name),
)
