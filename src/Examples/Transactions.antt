-- ===== src/Examples/Transactions.antt =====
-- A transaction that has pinned a block of sixteen bytes, with two slots of eight bytes, of which
-- the second one is used.
use mudopdbmigration.Schema.{empty_schema}
use mudopdbmigration.Layout.{stored_layout}
use mudopdbmigration.Log.Records.{IsStack}
use mudopdbmigration.RecordPage.{next_after, RecordPage}
use mudopdbmigration.RecordPage.Search.{IsFirst, Slotted}
use mudopdbmigration.Recovery.{set_int_record, create_log_record}
use mudopdbmigration.Recovery.Format.{IsStorable}
use mudopdbmigration.BufferList.{BufferList, is_listed, unpin_all}
use mudopdbmigration.File.{FileMgr, file_length}
use mudopdbmigration.Pool.{BufferMgr}
use mudopdbmigration.BlockId.{BlockId, block_eq}
use mudopdbmigration.Lock.{LockTable, put, get_lock_val, shared, new_manager}
use mudopdbmigration.Log.{LogMgr}
use mudopdbmigration.Buffer.{Buffer}
use mudopdbmigration.Page.Access.{word, InBounds}
use mudopdbmigration.Page.{Page, check_bounds, byte_at}
use mudopdbmigration.Page
use mudopdbmigration.Lock
use mudopdbmigration.TableScan
use mudopdbmigration.File
use mudopdbmigration.TableScan.{TableScan, last_number, next}
use mudopdbmigration.TableScan.Next.{next_in_last_block, is_some}
use mudopdbmigration.Prelude.{
  ℕ, ◌≡◌, refl, inl, inr, true, false, Option, none, some, List, [], ◌∷◌, arith, Bool-cases,
  bytes_eq, read_bytes, ok,
}
use mudopdbmigration.Transaction
use mudopdbmigration.Transaction.{Transaction, pin, unpin, get_int, set_int}
use mudopdbmigration.BufferList
use mudopdbmigration.BufferList.Pins.{IsConsistent, buffer_list-IsConsistent}
use mudopdbmigration.Transaction.Writes.{IsReady}
use mudopdbmigration.Transaction.Undo.{set_int-get_int, set_int-undone}
use mudopdbmigration.RecordPage.Next.{next_after-IsFirst}

abbrev block : BlockId
block = record { file_name = 116 ∷ []; number = 0 }

-- The only block of every file.
abbrev buffer_bytes : List ℕ
buffer_bytes = 0 ∷ 0 ∷ 0 ∷ 0 ∷ 0 ∷ 0 ∷ 0 ∷ 7 ∷ 0 ∷ 0 ∷ 0 ∷ 1 ∷ 0 ∷ 0 ∷ 0 ∷ 9 ∷ []

abbrev files : FileMgr
files = record { block_size = 16; files = λ _. some buffer_bytes; open_files = λ _. none }

-- A log page of forty bytes, without records.
abbrev log_page : Page
log_page =
    0 ∷ 0 ∷ 0 ∷ 40 ∷ 0 ∷ 0 ∷ 0 ∷ 0 ∷ 0 ∷ 0 ∷ 0 ∷ 0 ∷ 0 ∷ 0 ∷ 0 ∷ 0 ∷ 0 ∷ 0 ∷ 0 ∷ 0 ∷ 0 ∷ 0 ∷ 0 ∷ 0
    ∷ 0 ∷ 0 ∷ 0 ∷ 0 ∷ 0 ∷ 0 ∷ 0 ∷ 0 ∷ 0 ∷ 0 ∷ 0 ∷ 0 ∷ 0 ∷ 0 ∷ 0 ∷ 0 ∷ []

log_page-IsStack : IsStack log_page 40 []
unfolding Page.get_int check_bounds byte_at
log_page-IsStack = record {
  small = omega arith;
  boundary = refl;
  below = omega arith;
  inside = omega arith;
  records = refl;
}

abbrev log : LogMgr
log = record {
  fm = files;
  logfile = 108 ∷ [];
  logpage = log_page;
  currentblk = record { file_name = 108 ∷ []; number = 0 };
  latest_lsn = 3;
  last_saved_lsn = 0;
}

abbrev buffer : Buffer
buffer = record { contents = buffer_bytes; blk = some block; pins = 1; txnum = none; lsn = none }

abbrev pool : BufferMgr
pool = record { lm = log; bufferpool = buffer ∷ []; num_available = 0 }

abbrev list : BufferList
list = record { buffers = Lock.put (λ _. none) block 0; pins = block ∷ [] }

abbrev no_locks : LockTable
no_locks = record { locks = λ _. none }

abbrev pub tx : Transaction
tx = record {
  txnum = 5;
  mybuffers = list;
  concur_mgr = Lock.new_manager;
  lock_table = no_locks;
  bm = pool;
}

tx-IsReady : IsReady 0 no_locks block 0 buffer tx
unfolding Lock.put block_eq bytes_eq Lock.get_lock_val
tx-IsReady = record {
  pinned = refl;
  held = refl;
  few = omega arith;
  shared = λ blk. omega arith;
  accounts = λ blk. refl;
}

second_word : InBounds buffer.contents 4 4
second_word = record { fits = omega arith; addressable = omega arith }

storable : IsStorable (set_int_record 5 block 4 (word buffer.contents 4))
unfolding word read_bytes
storable =
    (omega arith, record { short = omega arith; numbered = omega arith }, omega arith, omega arith)

list-IsConsistent : IsConsistent list
unfolding Lock.put BufferList.is_listed
list-IsConsistent blk = elim (Bool-cases (block_eq block blk)) [
  | inl e ↦ rw e refl
  | inr e ↦ rw e refl
]

buffer_list-IsConsistent_example :
    IsConsistent (BufferList.pin [] block (record { list = list; bm = pool })).1.list
    × IsConsistent (BufferList.unpin block (record { list = list; bm = pool })).1.list
    × IsConsistent (BufferList.unpin_all (record { list = list; bm = pool })).1.list
buffer_list-IsConsistent_example =
    buffer_list-IsConsistent [] block (record { list = list; bm = pool }) list-IsConsistent

set_int-get_int_example :
    (tx1 : Transaction) × (Transaction.set_int block 4 8 true tx ≡ (ok tt, tx1))
    × (tx2 : Transaction) × (Transaction.get_int block 4 tx1 ≡ (ok 8, tx2))
set_int-get_int_example =
    set_int-get_int tx-IsReady 4 second_word 8 block 40 [] (omega arith) (omega arith) refl storable
      log_page-IsStack (omega arith)

set_int-undone_example :
    (tx1 : Transaction) × (Transaction.set_int block 4 8 true tx ≡ (ok tt, tx1))
    × (o' : ℕ) × (bytes : List ℕ) × IsStack tx1.bm.lm.logpage o' (bytes ∷ [])
    × (old : ℕ) × (create_log_record bytes ≡ ok (set_int_record 5 block 4 old))
    × (Page.get_int buffer.contents 4 ≡ ok old)
    × (tx2 : Transaction) × (Transaction.set_int block 4 old false tx1 ≡ (ok tt, tx2))
    × (tx3 : Transaction) × (Transaction.get_int block 4 tx2 ≡ (ok old, tx3))
set_int-undone_example =
    set_int-undone tx-IsReady 4 second_word 8 block 40 [] (omega arith) (omega arith) refl storable
      log_page-IsStack (omega arith)

abbrev slots : RecordPage
slots = record { blk = block; layout = stored_layout empty_schema (λ _. none) 8 }

slots-Slotted : Slotted slots buffer.contents 16
slots-Slotted = record { flagged = omega arith; whole = refl; small = omega arith }

next_after-IsFirst_example :
    (k : Option ℕ) × (tx' : Transaction) × (next_after 17 slots (some 0) tx ≡ (ok k, tx'))
    × (tx'.bm ≡ pool)
    × IsFirst buffer.contents 8 16 1 1 k
next_after-IsFirst_example =
    next_after-IsFirst no_locks slots 0 buffer 17 0 (some 0) tx slots-Slotted tx-IsReady
      (omega arith) (omega arith) (omega arith)

abbrev scan : TableScan
scan = record {
  tx = tx;
  layout = slots.layout;
  rp = some slots;
  filename = 116 ∷ [];
  currentslot = some 0;
}

last_block : last_number (File.file_length files (116 ∷ [])).0 ≡ ok 0
unfolding File.file_length bytes_eq
last_block = refl

next_in_last_block_example :
    (k : Option ℕ) × (s' : TableScan) × (TableScan.next [] 17 1 scan ≡ (ok (is_some k), s'))
    × (s'.currentslot ≡ k)
    × (s'.tx.bm.bufferpool ≡ buffer ∷ [])
    × IsFirst buffer.contents 8 16 1 1 k
next_in_last_block_example =
    next_in_last_block no_locks [] slots 0 buffer 17 0 0 scan refl last_block slots-Slotted
      tx-IsReady (omega arith) (omega arith) (omega arith)
