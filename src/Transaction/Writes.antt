-- ===== src/Transaction/Writes.antt =====
-- What a transaction reads and writes on a block that it has pinned, and what goes to the log.
use mudopdbmigration.Prelude.{
  ℕ, zero, suc, ◌+◌, ◌-◌, ◌^◌, ◌≤◌, ◌<◌, ◌≡◌, refl, ap, ◌∙◌, true, false, Option, some, List, [],
  ◌∷◌, arith, length, get_elem?, set, get_elem?-set_self, copy_bytes, ok,
}
use mudopdbmigration.Page
use mudopdbmigration.Page.{Page, int32_mod, get_int, set_int}
use mudopdbmigration.Page.Access.{InBounds, word, int_bytes, get_int_lem, set_int_lem}
use mudopdbmigration.BlockId.{BlockId}
use mudopdbmigration.Exec.{try_step}
use mudopdbmigration.Log
use mudopdbmigration.Log.{LogMgr, append}
use mudopdbmigration.Log.Records.{IsStack, append-IsStack}
use mudopdbmigration.Buffer.{Buffer}
use mudopdbmigration.Lock
use mudopdbmigration.Lock.{LockTable, Locks, s_lock, x_lock}
use mudopdbmigration.Lock.Sharing.{IsShared}
use mudopdbmigration.Lock.Exclusion.{Accounts, x_lock_granted, s_lock-Granted}
use mudopdbmigration.Recovery.{LogRecord, set_int_record}
use mudopdbmigration.Recovery.Format.{IsStorable, wire, encode-wire}
use mudopdbmigration.Transaction
use mudopdbmigration.Transaction.{Transaction, write_to_log, log_int}

abbrev pub locks_of : Transaction → Locks
locks_of tx = record { mine = tx.concur_mgr; table = tx.lock_table }

-- A transaction that has pinned a block in a buffer, while every lock value is that of shared locks
-- and the transaction's own locks are accounted for.
pub record IsReady (n : ℕ) (base : LockTable) (blk : BlockId) (idx : ℕ) (b : Buffer)
    (tx : Transaction) : Type 0 where
  pub pinned : tx.mybuffers.buffers blk ≡ some idx
  pub held : get_elem? tx.bm.bufferpool idx ≡ some b
  pub few : n + 1 < 2 ^ 31
  pub shared : IsShared n tx.lock_table
  pub accounts : Accounts base (locks_of tx)

abbrev with_locks : Transaction → Locks → Transaction
with_locks tx l = record tx { concur_mgr = l.mine; lock_table = l.table }

abbrev with_buffer : Transaction → ℕ → Buffer → Transaction
with_buffer tx idx b = record tx { bm = record tx.bm { bufferpool = set tx.bm.bufferpool idx b } }

abbrev with_log : Transaction → LogMgr → Transaction
with_log tx lm = record tx { bm = record tx.bm { lm = lm } }

module _ (tx : Transaction) (blk : BlockId) (offset : ℕ) (l : Locks) (idx : ℕ) (b : Buffer)
    (pinned : tx.mybuffers.buffers blk ≡ some idx)
    (held : get_elem? tx.bm.bufferpool idx ≡ some b) where
  get_int_steps :
      Lock.s_lock blk (locks_of tx) ≡ ok l
      → Transaction.get_int blk offset tx ≡ (Page.get_int b.contents offset, with_locks tx l)
  unfolding Transaction.get_int
  get_int_steps e = rw (try_step, e) (rw (try_step, pinned) (rw (try_step, held) refl))

  set_int_steps :
      (val : ℕ) (p : Page)
      → Lock.x_lock blk (locks_of tx) ≡ ok l
      → Page.set_int b.contents offset val ≡ ok p
      → Transaction.set_int blk offset val false tx ≡ (
        ok tt,
        with_buffer (with_locks tx l) idx (record b { contents = p; txnum = some tx.txnum }),
      )
  unfolding Transaction.set_int
  set_int_steps val p e f =
      rw (try_step, e) (rw (try_step, pinned) (rw (try_step, held) (rw f refl)))

  set_int_logged_steps :
      (val old lsn : ℕ) (p : Page) (owner : BlockId) (lm : LogMgr)
      → Lock.x_lock blk (locks_of tx) ≡ ok l
      → Page.get_int b.contents offset ≡ ok old
      → b.blk ≡ some owner
      → Transaction.write_to_log (set_int_record tx.txnum owner offset old) tx.bm.lm ≡ (ok lsn, lm)
      → Page.set_int b.contents offset val ≡ ok p
      → Transaction.set_int blk offset val true tx ≡ (
        ok tt,
        with_buffer
            (with_log (with_locks tx l) lm)
            idx
            (record b { contents = p; txnum = some tx.txnum; lsn = some lsn }),
      )
  unfolding Transaction.set_int Transaction.log_int
  set_int_logged_steps val old lsn p owner lm e g o w f =
      rw (try_step, e)
        (rw (try_step, pinned)
          (rw (try_step, held) (rw (Transaction.log_int, g, o) (rw w (rw f refl)))))

-- The buffer with an integer written.
abbrev pub written : Buffer → ℕ → ℕ → Page
written b offset val = copy_bytes b.contents offset (int_bytes val)

length-gt : {A : Type 0} (xs : List A) (i : ℕ) (x : A) → get_elem? xs i ≡ some x → i < length xs
length-gt [] i x e = cc
length-gt (y ∷ xs) zero x e = omega arith
length-gt (y ∷ xs) (suc i) x e = omega (arith, length-gt xs i x e)

module _ {n : ℕ} {base : LockTable} {blk : BlockId} {idx : ℕ} {b : Buffer} {tx : Transaction}
    (r : IsReady n base blk idx b tx) (offset : ℕ) (inside : InBounds b.contents offset 4) where
  -- On a pinned block a transaction reads the integer of the buffer, its buffers stay as they are,
  -- and it is ready for more.
  pub get_int_pinned :
      n + 2 < 2 ^ 31
      → (tx' : Transaction) × (Transaction.get_int blk offset tx
          ≡ (ok (word b.contents offset), tx'))
        × (tx'.bm ≡ tx.bm)
        × IsReady (n + 1) base blk idx b tx'
  get_int_pinned few =
      let small = r.few in
      let (l, e, g) = s_lock-Granted n base blk (locks_of tx) small r.shared r.accounts in
      (
        with_locks tx l,
        get_int_steps tx blk offset l idx b r.pinned r.held e
            ∙ ap (λ v. (v, with_locks tx l)) (get_int_lem b.contents offset inside),
        refl,
        record {
          pinned = r.pinned;
          held = r.held;
          few = omega arith;
          shared = g.bounded;
          accounts = g.accounts;
        },
      )

  abbrev pub marked : ℕ → Option ℕ → Buffer
  marked val lsn = record b { contents = written b offset val; txnum = some tx.txnum; lsn = lsn }

  with_locks-IsReady :
      (b' : Buffer) (l : Locks) (lm : LogMgr)
      → IsShared (n + 1) l.table
      → Accounts base l
      → n + 2 < 2 ^ 31
      → IsReady (n + 1) base blk idx b' (with_buffer (with_log (with_locks tx l) lm) idx b')
  with_locks-IsReady b' l lm shared accounts few = record {
    pinned = r.pinned;
    held = get_elem?-set_self tx.bm.bufferpool idx b' (length-gt tx.bm.bufferpool idx b r.held);
    few = omega arith;
    shared = shared;
    accounts = accounts;
  }

  -- A write that is not logged returns, changes the one buffer, and nothing of the log.
  pub set_int_unlogged :
      (val : ℕ)
      → n + 2 < 2 ^ 31
      → (tx' : Transaction) × (Transaction.set_int blk offset val false tx ≡ (ok tt, tx'))
        × IsReady (n + 1) base blk idx (marked val b.lsn) tx'
        × (tx'.bm ≡ record tx.bm { bufferpool = set tx.bm.bufferpool idx (marked val b.lsn) })
        × (tx'.txnum ≡ tx.txnum)
  set_int_unlogged val few =
      let small = r.few in
      let (l, e, _, shared, accounts) =
        x_lock_granted n base blk (locks_of tx) small r.shared r.accounts in
      (
        with_buffer (with_locks tx l) idx (marked val b.lsn),
        set_int_steps tx blk offset l idx b r.pinned r.held val (written b offset val) e
            (set_int_lem b.contents offset val inside),
        with_locks-IsReady (marked val b.lsn) l tx.bm.lm shared accounts few,
        refl,
        refl,
      )

  -- The record of the old value.
  abbrev pub old_value : BlockId → LogRecord
  old_value owner = set_int_record tx.txnum owner offset (word b.contents offset)

  write_to_log-wire :
      (owner : BlockId) (lm : LogMgr)
      → IsStorable (old_value owner)
      → Transaction.write_to_log (old_value owner) lm ≡ Log.append (wire (old_value owner)) lm
  unfolding Transaction.write_to_log
  write_to_log-wire owner lm h = rw (Transaction.write_to_log, encode-wire (old_value owner) h) refl

  -- A logged write on a pinned block returns where the log page is a stack of records with room for
  -- one more: it puts the record of the old value on top, changes the integer in the buffer, and
  -- marks the buffer with the transaction and the number of that record.
  pub set_int_logged :
      (val : ℕ) (owner : BlockId) (o : ℕ) (rs : List (List ℕ))
      → n + 2 < 2 ^ 31
      → b.blk ≡ some owner
      → IsStorable (old_value owner)
      → IsStack tx.bm.lm.logpage o rs
      → 8 + length (wire (old_value owner)) ≤ o
      → (tx' : Transaction) × (Transaction.set_int blk offset val true tx ≡ (ok tt, tx'))
        × IsReady (n + 1) base blk idx (marked val (some (tx.bm.lm.latest_lsn + 1))) tx'
        × IsStack tx'.bm.lm.logpage
            (o - (4 + length (wire (old_value owner))))
            (wire (old_value owner) ∷ rs)
        × (tx'.bm.lm.latest_lsn ≡ tx.bm.lm.latest_lsn + 1)
        × (tx'.bm.lm.last_saved_lsn ≡ tx.bm.lm.last_saved_lsn)
        × (tx'.bm.bufferpool
            ≡ set tx.bm.bufferpool idx (marked val (some (tx.bm.lm.latest_lsn + 1))))
        × (tx'.txnum ≡ tx.txnum)
  set_int_logged val owner o rs few ob storable stack room =
      let small = r.few in
      let (l, e, _, shared, accounts) =
        x_lock_granted n base blk (locks_of tx) small r.shared r.accounts in
      let (lm, a, top, latest, saved, _, _) =
        append-IsStack tx.bm.lm (wire (old_value owner)) o rs stack room in
      let b' = marked val (some (tx.bm.lm.latest_lsn + 1)) in
      (
        with_buffer (with_log (with_locks tx l) lm) idx b',
        set_int_logged_steps tx blk offset l idx b r.pinned r.held val (word b.contents offset)
            (tx.bm.lm.latest_lsn + 1) (written b offset val) owner lm e
            (get_int_lem b.contents offset inside) ob
            (write_to_log-wire owner tx.bm.lm storable ∙ a)
            (set_int_lem b.contents offset val inside),
        with_locks-IsReady b' l lm shared accounts few,
        top,
        latest,
        saved,
        refl,
        refl,
      )
