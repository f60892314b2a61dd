-- ===== src/Log/Iterator.antt =====
-- include/log/logiterator.hpp and src/log/logiterator.cpp: the records of the log, newest first.
use mudopdbmigration.Prelude.{
  ℕ, ◌+◌, ◌%◌, Bool, ◌||◌, not, List, if◌then◌else◌, read_bytes, int32_lt, no_more_records, Result,
  ok, err, ◌>>=◌,
}
use mudopdbmigration.Exec.{Exec, continue}
use mudopdbmigration.Page.{
  Page, int32_mod, int32_of_size, size_of_int32, zeroed, get_int, get_bytes, get_bytes_length,
}
use mudopdbmigration.BlockId.{BlockId}
use mudopdbmigration.File
use mudopdbmigration.File.{FileMgr, read}
use mudopdbmigration.Log.{LogMgr, minus_int32, flush_impl}

pub record LogIterator : Type 0 where
  pub fm : FileMgr
  pub blk : BlockId
  pub page : Page
  pub currentpos : ℕ
  pub boundary : ℕ

unfoldable pub move_to_block : LogIterator → BlockId → Result LogIterator
move_to_block it blk = do
  page ← File.read it.fm blk it.page
  boundary ← get_int page 0
  ok (record it { page = page; boundary = boundary; currentpos = boundary })

-- The constructor.
unfoldable pub open_iterator : FileMgr → BlockId → Result LogIterator
unfolding move_to_block zeroed
open_iterator fm blk =
    move_to_block
      (record { fm = fm; blk = blk; page = zeroed fm.block_size; currentpos = 0; boundary = 0 }) blk

-- `currentpos_ < static_cast<int32_t>(fm_->block_size())`
unfoldable pub in_page : LogIterator → Bool
unfolding int32_lt int32_of_size
in_page it = int32_lt it.currentpos (int32_of_size it.fm.block_size)

unfoldable pub has_next : LogIterator → Bool
unfolding in_page
has_next it = in_page it || int32_lt 0 it.blk.number

-- The record at the position, and the position behind it.
unfoldable pub take_record : LogIterator → Result (List ℕ × LogIterator)
unfolding size_of_int32 int32_of_size
take_record it = do
  start ← get_bytes it.page (size_of_int32 it.currentpos)
  len ← get_bytes_length it.page (size_of_int32 it.currentpos)
  ok (
    read_bytes it.page start len 0,
    record it { currentpos = (it.currentpos + (4 + int32_of_size len)) % int32_mod },
  )

unfoldable pub next : LogIterator → Result (List ℕ × LogIterator)
unfolding in_page take_record move_to_block
next it =
    if in_page it
    then take_record it
    else if not (int32_lt 0 it.blk.number)
    then err no_more_records
    else let blk : BlockId = record it.blk { number = minus_int32 it.blk.number 1 } in
      (do it' ← move_to_block (record it { blk = blk }) blk; take_record it')

-- `LogMgr::iterator`
unfoldable pub iterator : Exec LogMgr LogIterator
unfolding flush_impl open_iterator
iterator s = continue (flush_impl s) (λ _ s'. (open_iterator s'.fm s'.currentblk, s'))
