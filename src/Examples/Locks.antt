-- ===== src/Examples/Locks.antt =====
-- An empty lock table, and a transaction that holds one lock.
use mudopdbmigration.Prelude.{◌≡◌, true, none, [], ◌∷◌, arith, ok}
use mudopdbmigration.BlockId.{BlockId}
use mudopdbmigration.Lock
use mudopdbmigration.Lock.{
  LockTable, Locks, shared, get_lock_val, x_lock, release, put, new_table, new_manager, find,
  manager_has_x_lock,
}
use mudopdbmigration.Lock.Sharing.{IsShared}
use mudopdbmigration.Lock.Exclusion.{
  Accounts, x_lock_granted, release_restores, x_lock_not_exclusive,
}

abbrev block : BlockId
block = record { file_name = 116 ∷ []; number = 3 }

empty-IsShared : IsShared 0 Lock.new_table
unfolding Lock.get_lock_val
empty-IsShared b = omega arith

abbrev nothing_held : Locks
nothing_held = record { mine = Lock.new_manager; table = Lock.new_table }

abbrev one_held : Locks
one_held = record {
  mine = record { locks = (block, shared) ∷ [] };
  table = record { locks = Lock.put (Lock.new_table).locks block 1 };
}

one-IsShared : IsShared 1 one_held.table
unfolding Lock.get_lock_val Lock.put
one-IsShared b = ground arith

one-Accounts : Accounts Lock.new_table one_held
unfolding Lock.get_lock_val Lock.put
one-Accounts b = ground arith

x_lock_granted_example :
    (l' : Locks) × (Lock.x_lock block one_held ≡ ok l')
    × (Lock.manager_has_x_lock block l'.mine ≡ true)
    × IsShared 2 l'.table
    × Accounts Lock.new_table l'
x_lock_granted_example =
    x_lock_granted 1 Lock.new_table block one_held (omega arith) one-IsShared one-Accounts

release_restores_example :
    (Lock.get_lock_val (Lock.release one_held).table block ≡ Lock.get_lock_val Lock.new_table block)
    × (Lock.find block (Lock.release one_held).mine.locks ≡ none)
release_restores_example =
    release_restores 1 Lock.new_table one_held block (omega arith) one-IsShared one-Accounts

x_lock_not_exclusive_example :
    (l : Locks) × (l' : Locks) × (Lock.x_lock block nothing_held ≡ ok l)
    × (Lock.x_lock block (record { mine = Lock.new_manager; table = l.table }) ≡ ok l')
    × (Lock.manager_has_x_lock block l.mine ≡ true)
    × (Lock.manager_has_x_lock block l'.mine ≡ true)
x_lock_not_exclusive_example =
    x_lock_not_exclusive 0 Lock.new_table block (omega arith) empty-IsShared
