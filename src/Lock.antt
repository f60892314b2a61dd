-- ===== src/Lock.antt =====
-- include/tx/concurrency and src/tx/concurrency: the lock table that all transactions share, and
-- the concurrency manager of one transaction. A lock value is an `int32_t`, given by its bit
-- pattern; a map has a value or none for each block.
-- `ConcurrencyMgr::s_lock` holds the mutex of the table while `LockTable::s_lock` waits, so the lock
-- that it waits for cannot be released meanwhile: the wait ends with the value that it began with.
pub mod Sharing
pub mod Exclusion
use mudopdbmigration.Page.{is_negative, int32_mod}
use mudopdbmigration.Prelude.{
  ℕ, ◌+◌, ◌-◌, ◌%◌, Bool, true, false, Option, none, some, List, [], ◌∷◌, if◌then◌else◌, int32_lt,
  buffer_abort, Result, ok, err, ◌>>=◌, ◌>>◌,
}
use mudopdbmigration.BlockId.{BlockId, block_eq}

abbrev pub BlockMap : Type 0 → Type 0
BlockMap V = BlockId → Option V

unfoldable pub put : {V : Type 0} → BlockMap V → BlockId → V → BlockMap V
unfolding block_eq
put m blk v = λ other. if block_eq blk other then some v else m other

unfoldable pub erase : {V : Type 0} → BlockMap V → BlockId → BlockMap V
unfolding block_eq
erase m blk = λ other. if block_eq blk other then none else m other

pub record LockTable : Type 0 where
  pub locks : BlockMap ℕ

abbrev pub new_table : LockTable
new_table = record { locks = λ _. none }

unfoldable pub get_lock_val : LockTable → BlockId → ℕ
get_lock_val t blk = elim (t.locks blk) [ none ↦ 0 | some val ↦ val ]

unfoldable pub has_x_lock : LockTable → BlockId → Bool
unfolding get_lock_val
has_x_lock t blk = is_negative (get_lock_val t blk)

unfoldable pub table_s_lock : LockTable → BlockId → Result LockTable
unfolding has_x_lock put get_lock_val
table_s_lock t blk =
    if has_x_lock t blk
    then err buffer_abort
    else ok (record t { locks = put t.locks blk ((get_lock_val t blk + 1) % int32_mod) })

unfoldable pub table_unlock : LockTable → BlockId → LockTable
unfolding get_lock_val put erase
table_unlock t blk =
    let val = get_lock_val t blk in
    if int32_lt 1 val
    then record t { locks = put t.locks blk (val - 1) }
    else record t { locks = erase t.locks blk }

-- The strings "S" and "X" of the concurrency manager.
pub data LockKind : Type 0 where
  shared exclusive : LockKind

-- `locks_` of one transaction, in the order of its iteration, which is not specified.
pub record ConcurrencyMgr : Type 0 where
  pub locks : List (BlockId × LockKind)

abbrev pub new_manager : ConcurrencyMgr
new_manager = record { locks = [] }

unfoldable pub find : BlockId → List (BlockId × LockKind) → Option LockKind
unfolding block_eq
find blk [] = none
find blk ((b, k) ∷ rest) = if block_eq b blk then some k else find blk rest

-- `locks_[blk] = k`
unfoldable pub assign : BlockId → LockKind → List (BlockId × LockKind) → List (BlockId × LockKind)
unfolding block_eq
assign blk k [] = (blk, k) ∷ []
assign blk k ((b, j) ∷ rest) = if block_eq b blk then (b, k) ∷ rest else (b, j) ∷ assign blk k rest

-- The state of a method: the manager, and the table that all managers share.
pub record Locks : Type 0 where
  pub mine : ConcurrencyMgr
  pub table : LockTable

unfoldable pub s_lock : BlockId → Locks → Result Locks
unfolding find assign
s_lock blk l = elim (find blk l.mine.locks) [
  | some _ ↦ ok l
  | none ↦ do
    table ← table_s_lock l.table blk
    ok (record { mine = record { locks = assign blk shared l.mine.locks }; table = table })
]

abbrev is_exclusive : Option LockKind → Bool
is_exclusive none = false
is_exclusive (some shared) = false
is_exclusive (some exclusive) = true

unfoldable pub manager_has_x_lock : BlockId → ConcurrencyMgr → Bool
unfolding find
manager_has_x_lock blk c = is_exclusive (find blk c.locks)

unfoldable pub x_lock : BlockId → Locks → Result Locks
unfolding manager_has_x_lock s_lock assign
x_lock blk l = if manager_has_x_lock blk l.mine then ok l else (do
  l' ← s_lock blk l
  ok (record l' { mine = record { locks = assign blk exclusive l'.mine.locks } }))

unfoldable pub unlock_each : LockTable → List (BlockId × LockKind) → LockTable
unfolding table_unlock
unlock_each t [] = t
unlock_each t ((blk, _) ∷ rest) = unlock_each (table_unlock t blk) rest

unfoldable pub release : Locks → Locks
unfolding unlock_each
release l = record { mine = record { locks = [] }; table = unlock_each l.table l.mine.locks }
