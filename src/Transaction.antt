-- ===== src/Transaction.antt =====
-- include/tx/transaction.hpp, src/tx/transaction.cpp, include/tx/recovery/recoverymgr.hpp,
-- src/tx/recovery/recoverymgr.cpp and the `undo` and `write_to_log` of the log records. The state is
-- that of one transaction beside what it shares: the lock table, and the buffer manager with the
-- log manager and the file manager. What is printed is left out.
pub mod Writes
pub mod Undo
use mudopdbmigration.Prelude.{
  ℕ, ◌+◌, ◌-◌, ◌%◌, Bool, true, false, Option, none, some, List, [], ◌∷◌, get_elem?, set, undefined,
  not_pinned, no_block, Result, ok, err,
}
use mudopdbmigration.Page
use mudopdbmigration.Page.{size_mod, int32_mod, Page}
use mudopdbmigration.BlockId.{BlockId}
use mudopdbmigration.Exec.{Exec, pure, gets, continue, try_step, ◌>>=◌, ◌>>◌}
use mudopdbmigration.File
use mudopdbmigration.File.{FileMgr, file_length}
use mudopdbmigration.Log
use mudopdbmigration.Log.{LogMgr, flush}
use mudopdbmigration.Log.Iterator.{LogIterator, iterator, has_next, next}
use mudopdbmigration.Buffer
use mudopdbmigration.Buffer.{Buffer, set_modified}
use mudopdbmigration.Pool
use mudopdbmigration.Pool.{BufferMgr, flush_all}
use mudopdbmigration.Lock
use mudopdbmigration.Lock.{LockTable, ConcurrencyMgr, Locks, new_manager, s_lock, x_lock, release}
use mudopdbmigration.BufferList
use mudopdbmigration.BufferList.{BufferList, Held, new_list, unpin_all}
use mudopdbmigration.Recovery.{
  LogRecord, encode, checkpoint_record, start_record, commit_record, rollback_record,
  set_int_record, set_string_record,
}
use mudopdbmigration.Recovery.Collect.{records_of, unfinished}

pub record Transaction : Type 0 where
  pub txnum : ℕ
  pub mybuffers : BufferList
  pub concur_mgr : ConcurrencyMgr
  pub lock_table : LockTable
  pub bm : BufferMgr

abbrev pub Tx : Type 0 → Type 0
Tx A = Exec Transaction A

-- The calls of the parts.
abbrev pub locking : (Locks → Result Locks) → Tx (Unit {0})
locking m = try_step λ tx. elim (m (record { mine = tx.concur_mgr; table = tx.lock_table })) [
  | ok l ↦ ok (tt, record tx { concur_mgr = l.mine; lock_table = l.table })
  | err e ↦ err e
]

abbrev pub on_pool : {A : Type 0} → Exec BufferMgr A → Tx A
on_pool m tx = let (r, bm) = m tx.bm in (r, record tx { bm = bm })

abbrev pub on_log : {A : Type 0} → Exec LogMgr A → Tx A
on_log m tx = let (r, lm) = m tx.bm.lm in (r, record tx { bm = record tx.bm { lm = lm } })

abbrev pub on_list : {A : Type 0} → Exec Held A → Tx A
on_list m tx =
    let (r, h) = m (record { list = tx.mybuffers; bm = tx.bm }) in
    (r, record tx { mybuffers = h.list; bm = h.bm })

-- `write_to_log` of each class of records
unfoldable pub write_to_log : LogRecord → Exec LogMgr ℕ
write_to_log r lm = elim (encode r) [ ok p ↦ Log.append p lm | err e ↦ (err e, lm) ]

-- `bm_->buffer(idx)`, undefined out of range
unfoldable pub buffer : ℕ → Tx Buffer
buffer idx =
    try_step
      λ tx. elim (get_elem? tx.bm.bufferpool idx) [ none ↦ err undefined | some b ↦ ok (b, tx) ]

abbrev pub put_buffer : ℕ → Buffer → Tx (Unit {0})
put_buffer idx b tx =
    (ok tt, record tx { bm = record tx.bm { bufferpool = set tx.bm.bufferpool idx b } })

-- The position of the buffer of a block that the transaction has pinned.
unfoldable pub index_of : BlockId → Tx ℕ
index_of blk =
    try_step
      λ tx. elim (tx.mybuffers.buffers blk) [ none ↦ err not_pinned | some idx ↦ ok (idx, tx) ]

abbrev pub from_page : {A : Type 0} → Result A → Tx A
from_page r = λ tx. (r, tx)

-- `NEXT_TX_NUM` is an argument, and the constructor's result holds the number that it gave out.
-- The constructor of the recovery manager writes a start record.
unfoldable pub new_transaction : ℕ → LockTable → BufferMgr → Result (Unit {0}) × Transaction
unfolding write_to_log
new_transaction next_tx_num table bm =
    let tx : Transaction = record {
      txnum = (next_tx_num + 1) % size_mod;
      mybuffers = BufferList.new_list;
      concur_mgr = Lock.new_manager;
      lock_table = table;
      bm = bm;
    } in
    continue (on_log (write_to_log (start_record tx.txnum)) tx) (λ _. pure tt)

unfoldable pub pin : List (BufferMgr → BufferMgr) → BlockId → Tx (Unit {0})
pin sleeps blk = on_list (BufferList.pin sleeps blk)

unfoldable pub unpin : BlockId → Tx (Unit {0})
unpin blk = on_list (BufferList.unpin blk)

unfoldable pub get_int : BlockId → ℕ → Tx ℕ
unfolding index_of buffer
get_int blk offset = do
  locking (Lock.s_lock blk)
  idx ← index_of blk
  buff ← buffer idx
  from_page (Page.get_int buff.contents offset)

unfoldable pub get_string : BlockId → ℕ → Tx (List ℕ)
unfolding index_of buffer
get_string blk offset = do
  locking (Lock.s_lock blk)
  idx ← index_of blk
  buff ← buffer idx
  from_page (Page.get_string buff.contents offset)

-- `RecoveryMgr::set_int` and `set_string`: the old value goes to the log.
unfoldable pub log_int : Buffer → ℕ → Tx ℕ
log_int buff offset tx = elim (Page.get_int buff.contents offset) [
  | err e ↦ (err e, tx)
  | ok oldval ↦ elim buff.blk [
    | none ↦ (err no_block, tx)
    | some blk ↦ on_log (write_to_log (set_int_record tx.txnum blk offset oldval)) tx
  ]
]

unfoldable pub log_string : Buffer → ℕ → Tx ℕ
log_string buff offset tx = elim (Page.get_string buff.contents offset) [
  | err e ↦ (err e, tx)
  | ok oldval ↦ elim buff.blk [
    | none ↦ (err no_block, tx)
    | some blk ↦ on_log (write_to_log (set_string_record tx.txnum blk offset oldval)) tx
  ]
]

-- `if (ok_to_log) lsn = …;`
abbrev pub if_logged : Bool → Tx ℕ → Tx (Option ℕ)
if_logged true m = do lsn ← m; pure (some lsn)
if_logged false m = pure none

-- The change of the page, and the mark of the transaction on the buffer.
unfoldable pub change : ℕ → Buffer → Result Page → Option ℕ → Tx (Unit {0})
unfolding Buffer.set_modified
change idx buff written lsn = do
  page ← from_page written
  txnum ← gets (λ tx. tx.txnum)
  put_buffer idx (Buffer.set_modified (record buff { contents = page }) txnum lsn)

unfoldable pub set_int : BlockId → ℕ → ℕ → Bool → Tx (Unit {0})
unfolding index_of buffer change
set_int blk offset val ok_to_log = do
  locking (Lock.x_lock blk)
  idx ← index_of blk
  buff ← buffer idx
  lsn ← if_logged ok_to_log (log_int buff offset)
  change idx buff (Page.set_int buff.contents offset val) lsn

unfoldable pub set_string : BlockId → ℕ → List ℕ → Bool → Tx (Unit {0})
unfolding index_of buffer change
set_string blk offset val ok_to_log = do
  locking (Lock.x_lock blk)
  idx ← index_of blk
  buff ← buffer idx
  lsn ← if_logged ok_to_log (log_string buff offset)
  change idx buff (Page.set_string buff.contents offset val) lsn

-- The block with the number -1, which stands for the end of a file.
abbrev pub end_of_file : List ℕ → BlockId
end_of_file filename = record { file_name = filename; number = int32_mod - 1 }

abbrev pub with_fm : {A : Type 0} → A × FileMgr → Tx A
with_fm (a, fm) tx = (ok a, record tx { bm = record tx.bm { lm = record tx.bm.lm { fm = fm } } })

unfoldable pub size : List ℕ → Tx ℕ
unfolding Lock.s_lock File.file_length
size filename = do
  locking (Lock.s_lock (end_of_file filename))
  λ tx. with_fm (File.file_length tx.bm.lm.fm filename) tx

unfoldable pub append : List ℕ → Tx BlockId
unfolding Lock.x_lock File.append
append filename = do
  locking (Lock.x_lock (end_of_file filename))
  λ tx. with_fm (File.append tx.bm.lm.fm filename) tx

-- `concur_mgr_.release(); mybuffers_.unpin_all();`
unfoldable pub release_all : Tx (Unit {0})
unfolding Lock.release BufferList.unpin_all
release_all = do locking (λ l. ok (Lock.release l)); on_list BufferList.unpin_all

-- A record to the log, and the log to the disk.
unfoldable pub log_and_flush : LogRecord → Tx (Unit {0})
unfolding write_to_log Log.flush
log_and_flush r = do lsn ← on_log (write_to_log r); on_log (Log.flush lsn)

-- `RecoveryMgr::commit`
unfoldable pub commit_log : Tx (Unit {0})
unfolding Pool.flush_all log_and_flush
commit_log = do
  txnum ← gets (λ tx. tx.txnum)
  on_pool (Pool.flush_all txnum)
  log_and_flush (commit_record txnum)

unfoldable pub commit : Tx (Unit {0})
unfolding commit_log release_all
commit = do commit_log; release_all

-- `undo` of each class of records
unfoldable pub undo : List (BufferMgr → BufferMgr) → LogRecord → Tx (Unit {0})
undo sleeps (set_int_record n blk offset val) = do
  pin sleeps blk
  set_int blk offset val false
  unpin blk
undo sleeps (set_string_record n blk offset val) = do
  pin sleeps blk
  set_string blk offset val false
  unpin blk
undo sleeps _ = pure tt

unfoldable pub undo_each : List (BufferMgr → BufferMgr) → List LogRecord → Tx (Unit {0})
unfolding undo
undo_each sleeps [] = pure tt
undo_each sleeps (r ∷ rest) = do undo sleeps r; undo_each sleeps rest

unfoldable pub do_rollback : ℕ → List (BufferMgr → BufferMgr) → Tx (Unit {0})
unfolding iterator records_of undo_each
do_rollback fuel sleeps = do
  it ← on_log iterator
  txnum ← gets (λ tx. tx.txnum)
  recs ← from_page (records_of fuel txnum it)
  undo_each sleeps recs

unfoldable pub rollback : ℕ → List (BufferMgr → BufferMgr) → Tx (Unit {0})
unfolding do_rollback Pool.flush_all log_and_flush release_all
rollback fuel sleeps = do
  do_rollback fuel sleeps
  txnum ← gets (λ tx. tx.txnum)
  on_pool (Pool.flush_all txnum)
  log_and_flush (rollback_record txnum)
  release_all

unfoldable pub do_recover : ℕ → List (BufferMgr → BufferMgr) → Tx (Unit {0})
unfolding iterator unfinished undo_each
do_recover fuel sleeps = do
  it ← on_log iterator
  recs ← from_page (unfinished fuel [] it)
  undo_each sleeps recs

unfoldable pub recover : ℕ → List (BufferMgr → BufferMgr) → Tx (Unit {0})
unfolding do_recover Pool.flush_all log_and_flush
recover fuel sleeps = do
  txnum ← gets (λ tx. tx.txnum)
  on_pool (Pool.flush_all txnum)
  do_recover fuel sleeps
  on_pool (Pool.flush_all txnum)
  log_and_flush checkpoint_record
