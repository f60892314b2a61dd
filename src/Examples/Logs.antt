-- ===== src/Examples/Logs.antt =====
-- Log pages of sixteen bytes, one empty and one with a record of two bytes.
use mudopdbmigration.Prelude.{◌≡◌, refl, none, some, [], ◌∷◌, arith, read_bytes, ok}
use mudopdbmigration.Page.{
  Page, get_int, get_string, check_bounds, byte_at, get_bytes, get_bytes_length,
}
use mudopdbmigration.BlockId.{BlockId}
use mudopdbmigration.File.{FileMgr}
use mudopdbmigration.Log
use mudopdbmigration.Log.{LogMgr}
use mudopdbmigration.Log.Iterator.{LogIterator, take_record}
use mudopdbmigration.Log.Records.{Holds, IsStack, append-IsStack, take_record-Holds}

abbrev files : FileMgr
files = record { block_size = 16; files = λ _. some []; open_files = λ _. none }

abbrev last_block : BlockId
last_block = record { file_name = 108 ∷ []; number = 0 }

abbrev empty_page : Page
empty_page = 0 ∷ 0 ∷ 0 ∷ 16 ∷ 0 ∷ 0 ∷ 0 ∷ 0 ∷ 0 ∷ 0 ∷ 0 ∷ 0 ∷ 0 ∷ 0 ∷ 0 ∷ 0 ∷ []

abbrev filled_page : Page
filled_page = 0 ∷ 0 ∷ 0 ∷ 10 ∷ 0 ∷ 0 ∷ 0 ∷ 0 ∷ 0 ∷ 0 ∷ 0 ∷ 0 ∷ 0 ∷ 2 ∷ 65 ∷ 66 ∷ []

abbrev log : LogMgr
log = record {
  fm = files;
  logfile = 108 ∷ [];
  logpage = empty_page;
  currentblk = last_block;
  latest_lsn = 3;
  last_saved_lsn = 2;
}

empty-IsStack : IsStack empty_page 16 []
unfolding get_int check_bounds byte_at
empty-IsStack = record {
  small = omega arith;
  boundary = refl;
  below = omega arith;
  inside = omega arith;
  records = refl;
}

append-IsStack_example :
    (s' : LogMgr) × (Log.append (65 ∷ 66 ∷ []) log ≡ (ok 4, s'))
    × IsStack s'.logpage 10 ((65 ∷ 66 ∷ []) ∷ [])
    × (s'.latest_lsn ≡ 4)
    × (s'.last_saved_lsn ≡ 2)
    × (s'.currentblk ≡ last_block)
    × (s'.fm ≡ files)
append-IsStack_example = append-IsStack log (65 ∷ 66 ∷ []) 16 [] empty-IsStack (omega arith)

abbrev iterator : LogIterator
iterator = record {
  fm = files;
  blk = last_block;
  page = filled_page;
  currentpos = 10;
  boundary = 10;
}

filled-Holds : Holds filled_page 10 ((65 ∷ 66 ∷ []) ∷ [])
unfolding get_string get_bytes check_bounds get_int byte_at get_bytes_length read_bytes
filled-Holds = (refl, refl)

take_record-Holds_example :
    (it' : LogIterator) × (take_record iterator ≡ ok (65 ∷ 66 ∷ [], it'))
    × Holds it'.page it'.currentpos []
    × (it'.page ≡ filled_page)
    × (it'.blk ≡ last_block)
take_record-Holds_example = take_record-Holds iterator (65 ∷ 66 ∷ []) [] (omega arith) filled-Holds
