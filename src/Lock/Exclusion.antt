-- ===== src/Lock/Exclusion.antt =====
-- What the concurrency manager of one transaction adds to the table, takes back, and excludes.
use mudopdbmigration.Page.{int32_mod}
use mudopdbmigration.Prelude.{
  ℕ, ◌+◌, ◌-◌, ◌%◌, ◌^◌, ◌<◌, ◌≡◌, refl, sym, ap, inl, inr, true, none, some, List, [], ◌∷◌, arith,
  if◌then◌else◌, Bool-cases, Option-cases, ok,
}
use mudopdbmigration.BlockId.{BlockId, block_eq, block_eq_iff}
use mudopdbmigration.Lock
use mudopdbmigration.Lock.{
  LockTable, Locks, LockKind, put, get_lock_val, table_s_lock, shared, find, assign, s_lock,
  exclusive, manager_has_x_lock, x_lock, table_unlock, new_manager, unlock_each, release,
}
use mudopdbmigration.Lock.Sharing.{IsShared, get_lock_val-s_lock, get_lock_val-unlock}

-- The entries for a block.
abbrev pub count : BlockId → List (BlockId × LockKind) → ℕ
count blk [] = 0
count blk ((b, k) ∷ rest) = (if block_eq b blk then 1 else 0) + count blk rest

-- The table is the one before the transaction, and one more for each lock of the transaction.
abbrev pub Accounts : LockTable → Locks → Type 0
Accounts base l =
    (blk : BlockId)
    → Lock.get_lock_val l.table blk ≡ Lock.get_lock_val base blk + count blk l.mine.locks

block_eq_trans_lem : (a b c : BlockId) → block_eq a b ≡ true → block_eq b c ≡ block_eq a c
block_eq_trans_lem a b c h = ap (λ (x : BlockId). block_eq x c) (sym ((block_eq_iff a b).0 h))

count-assign_new :
    (blk other : BlockId) (k : LockKind) (ls : List (BlockId × LockKind))
    → Lock.find blk ls ≡ none
    → count other (Lock.assign blk k ls) ≡ (if block_eq blk other then 1 else 0) + count other ls
unfolding Lock.find Lock.assign
count-assign_new blk other k [] h = refl
count-assign_new blk other k ((b, j) ∷ rest) h = ground (arith, count-assign_new blk other k rest)

count-assign_old :
    (blk other : BlockId) (k j : LockKind) (ls : List (BlockId × LockKind))
    → Lock.find blk ls ≡ some j
    → count other (Lock.assign blk k ls) ≡ count other ls
unfolding Lock.find Lock.assign
count-assign_old blk other k j [] h = cc
count-assign_old blk other k j ((b, i) ∷ rest) h =
    ground (arith, count-assign_old blk other k j rest)

find-assign_self :
    (blk : BlockId) (k : LockKind) (ls : List (BlockId × LockKind))
    → Lock.find blk (Lock.assign blk k ls) ≡ some k
unfolding Lock.find Lock.assign
find-assign_self blk k [] = ground (arith, (block_eq_iff blk blk).1 refl)
find-assign_self blk k ((b, j) ∷ rest) = ground (arith, find-assign_self blk k rest)

pub record Granted (n : ℕ) (base : LockTable) (blk : BlockId) (l l' : Locks) : Type 0 where
  pub accounts : Accounts base l'
  pub bounded : IsShared (n + 1) l'.table
  pub held : (k : LockKind) × (Lock.find blk l'.mine.locks ≡ some k)

abbrev one_more : LockTable → BlockId → LockTable
one_more t blk = record { locks = Lock.put t.locks blk ((Lock.get_lock_val t blk + 1) % int32_mod) }

table_s_lock_granted :
    (n : ℕ) (t : LockTable) (blk : BlockId)
    → n < 2 ^ 31
    → IsShared n t
    → Lock.table_s_lock t blk ≡ ok (one_more t blk)
unfolding Lock.table_s_lock
table_s_lock_granted n t blk h sh = ground (arith, sh blk)

s_lock_new :
    (blk : BlockId) (l : Locks) (t : LockTable)
    → Lock.find blk l.mine.locks ≡ none
    → Lock.table_s_lock l.table blk ≡ ok t
    → Lock.s_lock blk l
      ≡ ok (record { mine = record { locks = Lock.assign blk shared l.mine.locks }; table = t })
unfolding Lock.s_lock
s_lock_new blk l t e f = rw (e, Lock.s_lock) (rw f)

pub s_lock-Granted :
    (n : ℕ) (base : LockTable) (blk : BlockId) (l : Locks)
    → n + 1 < 2 ^ 31
    → IsShared n l.table
    → Accounts base l
    → (l' : Locks) × (Lock.s_lock blk l ≡ ok l') × Granted n base blk l l'
unfolding Lock.s_lock
s_lock-Granted n base blk l h sh a = elim (Option-cases (Lock.find blk l.mine.locks)) [
  | inr (k, e) ↦ (
    l,
    rw (e, Lock.s_lock),
    record { accounts = a; bounded = λ b. omega (arith, sh b); held = (k, e) },
  )
  | inl e ↦
      let t = one_more l.table blk in
      let locked = table_s_lock_granted n l.table blk (omega arith) sh in
      let val =
        λ (b : BlockId). get_lock_val-s_lock l.table t blk b (omega (arith, sh blk)) locked in
      (
        record { mine = record { locks = Lock.assign blk shared l.mine.locks }; table = t },
        s_lock_new blk l t e locked,
        record {
          accounts = λ b. ground (
            arith,
            val b,
            a b,
            a blk,
            count-assign_new blk b shared l.mine.locks e,
            block_eq_iff blk b,
          );
          bounded = λ b. ground (arith, val b, sh b, sh blk);
          held = (shared, find-assign_self blk shared l.mine.locks);
        },
      )
]

-- While every lock value is that of shared locks, a transaction gets each exclusive lock that it asks
-- for, whatever other transactions hold. It adds one shared lock to the table at most, so every lock
-- value is again that of shared locks, and the transaction's own locks stay accounted for.
pub x_lock_granted :
    (n : ℕ) (base : LockTable) (blk : BlockId) (l : Locks)
    → n + 1 < 2 ^ 31
    → IsShared n l.table
    → Accounts base l
    → (l' : Locks) × (Lock.x_lock blk l ≡ ok l')
      × (Lock.manager_has_x_lock blk l'.mine ≡ true)
      × IsShared (n + 1) l'.table
      × Accounts base l'
unfolding Lock.x_lock Lock.manager_has_x_lock
x_lock_granted n base blk l h sh a = elim (Bool-cases (Lock.manager_has_x_lock blk l.mine)) [
  | inl e ↦ (l, rw (e, Lock.x_lock), e, λ b. omega (arith, sh b), a)
  | inr e ↦
      let (l', f, g) = s_lock-Granted n base blk l h sh a in
      let (k, held) = g.held in
      (
        record {
          mine = record { locks = Lock.assign blk exclusive l'.mine.locks };
          table = l'.table;
        },
        rw (e, Lock.x_lock) (rw f),
        rw (find-assign_self blk exclusive l'.mine.locks),
        g.bounded,
        λ b. rw (count-assign_old blk b exclusive k l'.mine.locks held) (g.accounts b),
      )
]

unlock_each-values :
    (n : ℕ) (t : LockTable) (ls : List (BlockId × LockKind)) (blk : BlockId)
    → n < 2 ^ 31
    → IsShared n t
    → Lock.get_lock_val (Lock.unlock_each t ls) blk ≡ Lock.get_lock_val t blk - count blk ls
unfolding Lock.unlock_each
unlock_each-values n t [] blk h sh = omega arith
unlock_each-values n t ((b, k) ∷ rest) blk h sh =
    let one = λ (c : BlockId). get_lock_val-unlock t b c (omega (arith, sh b)) in
    ground (
      arith,
      one blk,
      unlock_each-values n (Lock.table_unlock t b) rest blk h
          (λ c. ground (arith, one c, sh c, sh b)),
      block_eq_iff b blk,
    )

-- Releasing the locks of a transaction whose locks are accounted for leaves each lock value of the
-- table as it was before the transaction, and the transaction without locks, while every lock value
-- is that of shared locks.
pub release_restores :
    (n : ℕ) (base : LockTable) (l : Locks) (blk : BlockId)
    → n < 2 ^ 31
    → IsShared n l.table
    → Accounts base l
    → (Lock.get_lock_val (Lock.release l).table blk ≡ Lock.get_lock_val base blk)
      × (Lock.find blk (Lock.release l).mine.locks ≡ none)
unfolding Lock.release Lock.find
release_restores n base l blk h sh a =
    (omega (arith, unlock_each-values n l.table l.mine.locks blk h sh, a blk), refl)

-- Two transactions without locks that share a table of shared locks both get an exclusive lock on
-- the same block, one after the other, and hold it at the same time.
pub x_lock_not_exclusive :
    (n : ℕ) (t : LockTable) (blk : BlockId)
    → n + 2 < 2 ^ 31
    → IsShared n t
    → (l : Locks) × (l' : Locks) × (Lock.x_lock blk (record { mine = Lock.new_manager; table = t })
        ≡ ok l)
      × (Lock.x_lock blk (record { mine = Lock.new_manager; table = l.table }) ≡ ok l')
      × (Lock.manager_has_x_lock blk l.mine ≡ true)
      × (Lock.manager_has_x_lock blk l'.mine ≡ true)
x_lock_not_exclusive n t blk h sh =
    let (l, e, x, sh', a) =
      x_lock_granted n t blk (record { mine = Lock.new_manager; table = t }) (omega arith) sh
        (λ b. omega arith) in
    let (l', e', x', sh'', a') =
      x_lock_granted (n + 1) l.table blk (record { mine = Lock.new_manager; table = l.table })
        (omega arith) sh' (λ b. omega arith) in
    (l, l', e, e', x, x')
