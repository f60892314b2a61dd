-- ===== src/BlockId/Order.antt =====
-- The order of block identifiers.
use mudopdbmigration.Prelude.{
  ◌^◌, ◌<◌, ◌≡◌, ◌⊎◌, true, false, arith, bytes_eq_iff, int32_lt_trichotomy, int32_lt_trans,
  bytes_lt_trichotomy, bytes_lt_trans,
}
use mudopdbmigration.BlockId.{BlockId, block_eq, block_lt}

-- Of two block identifiers with `int32_t` numbers exactly one is the smaller, or they are equal:
-- `operator<` is a strict order that agrees with `operator==`.
pub block_trichotomy :
    (a b : BlockId)
    → a.number < 2 ^ 32
    → b.number < 2 ^ 32
    → ((block_lt a b ≡ true) × (block_lt b a ≡ false) × (block_eq a b ≡ false))
      ⊎ ((block_lt a b ≡ false) × (block_lt b a ≡ true) × (block_eq a b ≡ false))
      ⊎ ((block_lt a b ≡ false) × (block_lt b a ≡ false) × (a ≡ b))
unfolding block_lt block_eq
block_trichotomy a b ha hb = ground (
  arith,
  bytes_lt_trichotomy a.file_name b.file_name,
  bytes_eq_iff a.file_name b.file_name,
  bytes_eq_iff b.file_name a.file_name,
  int32_lt_trichotomy a.number b.number,
)

-- `operator<` of block identifiers is transitive.
pub block_lt_trans :
    (a b c : BlockId) → block_lt a b ≡ true → block_lt b c ≡ true → block_lt a c ≡ true
unfolding block_lt
block_lt_trans a b c h k = ground (
  arith,
  bytes_lt_trans a.file_name b.file_name c.file_name,
  bytes_lt_trichotomy a.file_name b.file_name,
  bytes_eq_iff a.file_name b.file_name,
  bytes_eq_iff b.file_name c.file_name,
  bytes_eq_iff a.file_name c.file_name,
  int32_lt_trans a.number b.number c.number,
)
