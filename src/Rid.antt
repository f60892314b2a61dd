-- ===== src/Rid.antt =====
-- include/record/rid.hpp and src/record/rid.cpp: a block number and a slot.
use mudopdbmigration.Prelude.{ℕ, Bool, ◌&&◌, not, ◌==◌}

pub record Rid : Type 0 where
  pub blknum : ℕ
  pub slot : ℕ

unfoldable pub rid_eq : Rid → Rid → Bool
rid_eq r s = r.blknum == s.blknum && r.slot == s.slot

unfoldable pub rid_ne : Rid → Rid → Bool
unfolding rid_eq
rid_ne r s = not (rid_eq r s)
