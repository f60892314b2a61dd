-- ===== src/Lock/Sharing.antt =====
-- Lock values count the shared locks that are held.
use mudopdbmigration.Prelude.{ℕ, ◌+◌, ◌-◌, ◌^◌, ◌≤◌, ◌<◌, ◌≡◌, arith, if◌then◌else◌, int32_lt, ok}
use mudopdbmigration.BlockId.{BlockId, block_eq}
use mudopdbmigration.Lock
use mudopdbmigration.Lock.{LockTable, get_lock_val, table_s_lock, table_unlock}

-- Every value is that of at most `n` shared locks.
abbrev pub IsShared : ℕ → LockTable → Type 0
IsShared n t = (blk : BlockId) → Lock.get_lock_val t blk ≤ n

-- What a shared lock and an unlock do to every value of the table.
pub get_lock_val-s_lock :
    (t t' : LockTable) (blk other : BlockId)
    → Lock.get_lock_val t blk < 2 ^ 31 - 1
    → Lock.table_s_lock t blk ≡ ok t'
    → Lock.get_lock_val t' other
      ≡ (if block_eq blk other then Lock.get_lock_val t blk + 1 else Lock.get_lock_val t other)
unfolding Lock.table_s_lock
get_lock_val-s_lock t t' blk other h e = ground arith

pub get_lock_val-unlock :
    (t : LockTable) (blk other : BlockId)
    → Lock.get_lock_val t blk < 2 ^ 31
    → Lock.get_lock_val (Lock.table_unlock t blk) other
      ≡ (if block_eq blk other then Lock.get_lock_val t blk - 1 else Lock.get_lock_val t other)
unfolding Lock.table_unlock int32_lt
get_lock_val-unlock t blk other h = ground arith
