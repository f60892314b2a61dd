-- ===== src/Examples/Pools.antt =====
-- A pool of two buffers, one of them pinned.
use mudopdbmigration.Prelude.{ℕ, ◌≡◌, refl, false, none, some, [], ◌∷◌, arith, bytes_eq, ok}
use mudopdbmigration.BlockId.{BlockId}
use mudopdbmigration.File.{FileMgr}
use mudopdbmigration.Log.{LogMgr}
use mudopdbmigration.Buffer
use mudopdbmigration.Buffer.{Buffer, unpin, is_pinned}
use mudopdbmigration.Buffer.WriteAhead.{flush-write_ahead, changed, WrittenAhead}
use mudopdbmigration.Pool
use mudopdbmigration.Pool.{BufferMgr, try_to_pin}
use mudopdbmigration.Pool.Available.{IsValid, unpin-IsValid}
use mudopdbmigration.Pool.Pinning.{try_to_pin-IsValid, PinnedStay}
use mudopdbmigration.Pool.Outcome.{Outcome, try_to_pin-Outcome, try_to_pin_stays}

abbrev files : FileMgr
files = record { block_size = 8; files = λ _. some []; open_files = λ _. none }

abbrev block : ℕ → BlockId
block n = record { file_name = 116 ∷ []; number = n }

abbrev log : LogMgr
log = record {
  fm = files;
  logfile = 108 ∷ [];
  logpage = 0 ∷ 0 ∷ 0 ∷ 8 ∷ 0 ∷ 0 ∷ 0 ∷ 0 ∷ [];
  currentblk = record { file_name = 108 ∷ []; number = 0 };
  latest_lsn = 3;
  last_saved_lsn = 0;
}

abbrev pinned : Buffer
pinned = record {
  contents = 1 ∷ 2 ∷ 3 ∷ 4 ∷ 5 ∷ 6 ∷ 7 ∷ 8 ∷ [];
  blk = some (block 0);
  pins = 1;
  txnum = none;
  lsn = none;
}

abbrev unused : Buffer
unused = record {
  contents = 0 ∷ 0 ∷ 0 ∷ 0 ∷ 0 ∷ 0 ∷ 0 ∷ 0 ∷ [];
  blk = none;
  pins = 0;
  txnum = none;
  lsn = none;
}

abbrev pool : BufferMgr
pool = record { lm = log; bufferpool = pinned ∷ unused ∷ []; num_available = 1 }

pool-IsValid : IsValid 1 pool
unfolding Buffer.is_pinned
pool-IsValid = record {
  counted = refl;
  fits = omega arith;
  pins = (omega arith, (omega arith, tt));
}

try_to_pin-IsValid_example : IsValid 2 (Pool.try_to_pin (block 4) pool).1
try_to_pin-IsValid_example = try_to_pin-IsValid 1 pool (block 4) (omega arith) pool-IsValid

try_to_pin-Outcome_example : Outcome pool (block 4) (Pool.try_to_pin (block 4) pool)
try_to_pin-Outcome_example = try_to_pin-Outcome 1 pool (block 4) (omega arith) pool-IsValid

try_to_pin_stays_example : PinnedStay pool (Pool.try_to_pin (block 4) pool).1
try_to_pin_stays_example = try_to_pin_stays 1 pool (block 4) (omega arith) pool-IsValid

unpin-IsValid_example : ((Pool.unpin 0 pool).0 ≡ ok tt) × IsValid 1 (Pool.unpin 0 pool).1
unpin-IsValid_example = unpin-IsValid 1 pool 0 pinned (omega arith) refl (omega arith) pool-IsValid

flush-write_ahead_example :
    WrittenAhead log 5 2 (block 0) unused.contents (Buffer.flush (changed unused log 5 2 (block 0)))
unfolding bytes_eq
flush-write_ahead_example =
    let apart : bytes_eq log.currentblk.file_name (block 0).file_name ≡ false = refl in
    flush-write_ahead unused log 5 2 (block 0) (omega arith) (omega arith) (λ e. cc)
