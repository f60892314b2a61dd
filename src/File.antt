-- ===== src/File.antt =====
-- include/file/filemgr.hpp and src/file/filemgr.cpp: blocks of the files of one directory.
-- The directory is a function from names to contents, and a stream's reads, writes and appends act
-- on the contents. The constructor (creating the directory, removing `temp` files) is not modelled.
pub mod ReadBack
use mudopdbmigration.Prelude.{
  ℕ, ◌+◌, ◌-◌, ◌*◌, ◌/◌, ◌%◌, Option, none, some, List, [], ◌++◌, ltb, leb, if◌then◌else◌, length,
  replicate, copy_bytes, read_bytes, update, open_failed, io_failed, Result, ok, err,
}
use mudopdbmigration.Page.{Page, size_mod, max_size, int32_of_size, size_of_int32}
use mudopdbmigration.BlockId.{BlockId}

pub record FileMgr : Type 0 where
  pub block_size : ℕ
  pub files : List ℕ → Option (List ℕ)
  pub open_files : List ℕ → Option ℕ

-- `static_cast<size_t>(blk.number()) * blocksize_`
unfoldable pub position : FileMgr → BlockId → ℕ
unfolding size_of_int32
position fm blk = size_of_int32 blk.number * fm.block_size % size_mod

-- A block that is missing leaves the page as it was.
unfoldable pub read : FileMgr → BlockId → Page → Result Page
unfolding position
read fm blk page = elim (fm.files blk.file_name) [
  | none ↦ ok page
  | some bytes ↦
      if ltb (length bytes) ((position fm blk + length page) % size_mod)
      then ok page
      else if leb (position fm blk + length page) (length bytes)
      then ok (read_bytes bytes (position fm blk) (length page) 0)
      else err io_failed
]

-- A write behind the end of a file fills the gap with zeros.
unfoldable pub write_at : List ℕ → ℕ → List ℕ → List ℕ
write_at bytes pos page =
    copy_bytes (bytes ++ replicate (pos + length page - length bytes) 0) pos page

unfoldable pub update_file_size : FileMgr → List ℕ → FileMgr
unfolding update
update_file_size fm filename = elim (fm.files filename) [
  | some bytes ↦ record fm {
    open_files = update fm.open_files filename (some (length bytes / fm.block_size));
  }
  | none ↦ record fm { open_files = update fm.open_files filename (some 0) }
]

-- A stream that is opened for input and output does not create its file.
unfoldable pub write : FileMgr → BlockId → Page → Result FileMgr
unfolding position write_at update_file_size update
write fm blk page = elim (fm.files blk.file_name) [
  | none ↦ err open_failed
  | some bytes ↦
      if leb max_size (position fm blk + length page)
      then err io_failed
      else ok (
          update_file_size
            (record fm {
              files = update fm.files blk.file_name (some (write_at bytes (position fm blk) page));
            })
            blk.file_name)
]

unfoldable pub file_length : FileMgr → List ℕ → ℕ × FileMgr
unfolding update
file_length fm filename = elim (fm.open_files filename) [
  | some n ↦ (n, fm)
  | none ↦ elim (fm.files filename) [
    | none ↦ (0, record fm { open_files = update fm.open_files filename (some 0) })
    | some bytes ↦ (
      length bytes / fm.block_size,
      record fm {
        open_files = update fm.open_files filename (some (length bytes / fm.block_size));
      },
    )
  ]
]

-- A stream that is opened for appending creates its file, and writes at its end.
abbrev contents_or_empty : Option (List ℕ) → List ℕ
contents_or_empty none = []
contents_or_empty (some bytes) = bytes

unfoldable pub append : FileMgr → List ℕ → BlockId × FileMgr
unfolding file_length int32_of_size update
append fm filename =
    let (new_blknum, fm') = file_length fm filename in
    (
      record { file_name = filename; number = int32_of_size new_blknum },
      record fm' {
        files =
            update fm'.files filename
              (some (contents_or_empty (fm'.files filename) ++ replicate fm'.block_size 0));
        open_files = update fm'.open_files filename (some (new_blknum + 1));
      },
    )
