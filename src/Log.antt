-- ===== src/Log.antt =====
-- include/log/logmgr.hpp and src/log/logmgr.cpp: the log manager. The records of a page grow from
-- its end towards its start, and its first word is the boundary, the start of the newest record.
-- The file manager that the log manager shares is the field `fm`.
pub mod Iterator
pub mod Records
use mudopdbmigration.Prelude.{
  ℕ, ◌+◌, ◌-◌, ◌%◌, List, [], leb, ◌==◌, if◌then◌else◌, length, int32_lt, Result, ok, err,
}
use mudopdbmigration.Exec.{Exec, pure, gets, try_step, ◌>>=◌, ◌>>◌}
use mudopdbmigration.Page.{
  Page, int32_mod, int32_of_size, size_of_int32, zeroed, get_int, set_int, set_bytes,
}
use mudopdbmigration.BlockId.{BlockId}
use mudopdbmigration.File
use mudopdbmigration.File.{FileMgr, read, write, file_length}

pub record LogMgr : Type 0 where
  pub fm : FileMgr
  pub logfile : List ℕ
  pub logpage : Page
  pub currentblk : BlockId
  pub latest_lsn : ℕ
  pub last_saved_lsn : ℕ

-- `logpage.set_int`, `logpage.set_bytes` and `fm->write` of the log page
unfoldable pub page_set_int : ℕ → ℕ → Exec LogMgr (Unit {0})
page_set_int offset val = try_step λ s. elim (set_int s.logpage offset val) [
  | ok p ↦ ok (tt, record s { logpage = p })
  | err e ↦ err e
]

unfoldable pub page_set_bytes : ℕ → List ℕ → Exec LogMgr (Unit {0})
page_set_bytes offset bytes = try_step λ s. elim (set_bytes s.logpage offset bytes) [
  | ok p ↦ ok (tt, record s { logpage = p })
  | err e ↦ err e
]

unfoldable pub page_get_int : ℕ → Exec LogMgr ℕ
page_get_int offset s = (get_int s.logpage offset, s)

unfoldable pub write_page : BlockId → Exec LogMgr (Unit {0})
write_page blk = try_step λ s. elim (File.write s.fm blk s.logpage) [
  | ok fm' ↦ ok (tt, record s { fm = fm' })
  | err e ↦ err e
]

unfoldable pub append_block : Exec LogMgr BlockId
append_block s = let (blk, fm') = File.append s.fm s.logfile in (ok blk, record s { fm = fm' })

unfoldable pub append_new_block_helper : Exec LogMgr BlockId
unfolding append_block page_set_int write_page int32_of_size
append_new_block_helper = do
  blk ← append_block
  size ← gets (λ s. s.fm.block_size)
  page_set_int 0 (int32_of_size size)
  write_page blk
  pure blk

unfoldable pub append_new_block : Exec LogMgr BlockId
unfolding append_new_block_helper
append_new_block = append_new_block_helper

unfoldable pub flush_impl : Exec LogMgr (Unit {0})
unfolding write_page
flush_impl = do
  blk ← gets (λ s. s.currentblk)
  write_page blk
  λ s. (ok tt, record s { last_saved_lsn = s.latest_lsn })

-- `boundary - bytesneeded`, in `int32_t`
abbrev pub minus_int32 : ℕ → ℕ → ℕ
minus_int32 a b = (a + int32_mod - b) % int32_mod

unfoldable pub set_current : BlockId → Exec LogMgr (Unit {0})
set_current blk s = (ok tt, record s { currentblk = blk })

-- The page is full: it is flushed, and a new block begins.
unfoldable pub next_block : Exec LogMgr ℕ
unfolding flush_impl append_new_block set_current page_get_int
next_block = do flush_impl; blk ← append_new_block; set_current blk; page_get_int 0

unfoldable pub next_lsn : Exec LogMgr ℕ
next_lsn s = (ok (s.latest_lsn + 1), record s { latest_lsn = s.latest_lsn + 1 })

unfoldable pub append : List ℕ → Exec LogMgr ℕ
unfolding page_get_int next_block page_set_bytes page_set_int next_lsn int32_of_size size_of_int32
append logrec =
    let bytesneeded = (int32_of_size (length logrec) + 4) % int32_mod in
    do
      boundary ← page_get_int 0
      boundary' ←
          if int32_lt (minus_int32 boundary bytesneeded) 4 then next_block else pure boundary
      let recpos = minus_int32 boundary' bytesneeded
      page_set_bytes (size_of_int32 recpos) logrec
      page_set_int 0 recpos
      next_lsn

unfoldable pub flush : ℕ → Exec LogMgr (Unit {0})
unfolding flush_impl
flush lsn s = if leb s.last_saved_lsn lsn then flush_impl s else (ok tt, s)

opened : Result BlockId × LogMgr → Result LogMgr
opened (ok blk, s) = ok (record s { currentblk = blk })
opened (err e, s) = err e

loaded : LogMgr → BlockId → Result Page → Result LogMgr
loaded s last (ok p) = ok (record s { currentblk = last; logpage = p })
loaded s last (err e) = err e

-- The constructor.
unfoldable pub open_log : FileMgr → List ℕ → Result LogMgr
unfolding append_new_block_helper zeroed int32_of_size opened loaded
open_log fm logfile =
    let (logsize, fm') = File.file_length fm logfile in
    let fresh : LogMgr = record {
      fm = fm';
      logfile = logfile;
      logpage = zeroed fm'.block_size;
      currentblk = record { file_name = []; number = 0 };
      latest_lsn = 0;
      last_saved_lsn = 0;
    } in
    let last : BlockId = record {
      file_name = logfile;
      number = minus_int32 (int32_of_size logsize) 1;
    } in
    if logsize == 0
    then opened (append_new_block_helper fresh)
    else loaded fresh last (File.read fm' last fresh.logpage)
