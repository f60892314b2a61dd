-- ===== src/Recovery.antt =====
-- include/tx/recovery/*.hpp and src/tx/recovery/*record.cpp: the log records and their bytes.
-- `write_to_log` of each class appends the page that `encode` gives here to the log.
pub mod Format
pub mod RoundTrip
pub mod Collect
use mudopdbmigration.Prelude.{
  ℕ, ◌+◌, Option, none, some, List, ◌==◌, if◌then◌else◌, length, unknown_record, Result, ok, err,
  ◌>>=◌, ◌>>◌,
}
use mudopdbmigration.Page.{
  Page, size_mod, int32_mod, is_negative, zeroed, get_int, set_int, get_string, set_string,
  max_length, int32_of_size, size_of_int32,
}
use mudopdbmigration.BlockId.{BlockId}

pub data Op : Type 0 where
  checkpoint start commit rollback setint setstring : Op

unfoldable pub op_code : Op → ℕ
op_code checkpoint = 0
op_code start = 1
op_code commit = 2
op_code rollback = 3
op_code setint = 4
op_code setstring = 5

-- One constructor for each subclass of `LogRecord`, with its fields.
pub data LogRecord : Type 0 where
  checkpoint_record : LogRecord
  start_record commit_record rollback_record : ℕ → LogRecord
  set_int_record : ℕ → BlockId → ℕ → ℕ → LogRecord
  set_string_record : ℕ → BlockId → ℕ → List ℕ → LogRecord

unfoldable pub op : LogRecord → Op
op checkpoint_record = checkpoint
op (start_record _) = start
op (commit_record _) = commit
op (rollback_record _) = rollback
op (set_int_record _ _ _ _) = setint
op (set_string_record _ _ _ _) = setstring

unfoldable pub tx_number : LogRecord → Option ℕ
tx_number checkpoint_record = none
tx_number (start_record txnum) = some txnum
tx_number (commit_record txnum) = some txnum
tx_number (rollback_record txnum) = some txnum
tx_number (set_int_record txnum _ _ _) = some txnum
tx_number (set_string_record txnum _ _ _) = some txnum

-- The bytes of a checkpoint record.
unfoldable pub encode_checkpoint : Result Page
unfolding op_code
encode_checkpoint = set_int (zeroed 4) 0 (op_code checkpoint)

-- The bytes of a start, commit or rollback record.
unfoldable pub encode_start : ℕ → Result Page
unfolding op_code int32_of_size
encode_start txnum = do p ← set_int (zeroed 8) 0 (op_code start); set_int p 4 (int32_of_size txnum)

unfoldable pub encode_commit : ℕ → Result Page
unfolding op_code int32_of_size
encode_commit txnum = do
  p ← set_int (zeroed 8) 0 (op_code commit)
  set_int p 4 (int32_of_size txnum)

unfoldable pub encode_rollback : ℕ → Result Page
unfolding op_code int32_of_size
encode_rollback txnum = do
  p ← set_int (zeroed 8) 0 (op_code rollback)
  set_int p 4 (int32_of_size txnum)

unfoldable pub encode_set_int : ℕ → BlockId → ℕ → ℕ → Result Page
unfolding op_code int32_of_size
encode_set_int txnum blk offset val =
    let tpos : ℕ = 4 in
    let fpos = tpos + 4 in
    let bpos = fpos + max_length (length blk.file_name) in
    let opos = bpos + 4 in
    let vpos = opos + 4 in
    do
      p0 ← set_int (zeroed (vpos + 4)) 0 (op_code setint)
      p1 ← set_int p0 tpos (int32_of_size txnum)
      p2 ← set_string p1 fpos blk.file_name
      p3 ← set_int p2 bpos blk.number
      p4 ← set_int p3 opos (int32_of_size offset)
      set_int p4 vpos val

unfoldable pub encode_set_string : ℕ → BlockId → ℕ → List ℕ → Result Page
unfolding op_code int32_of_size
encode_set_string txnum blk offset val =
    let tpos : ℕ = 4 in
    let fpos = tpos + 4 in
    let bpos = fpos + max_length (length blk.file_name) in
    let opos = bpos + 4 in
    let vpos = opos + 4 in
    let reclen = vpos + max_length (length val) in
    do
      p0 ← set_int (zeroed reclen) 0 (op_code setstring)
      p1 ← set_int p0 tpos (int32_of_size txnum)
      p2 ← set_string p1 fpos blk.file_name
      p3 ← set_int p2 bpos blk.number
      p4 ← set_int p3 opos (int32_of_size offset)
      set_string p4 vpos val

unfoldable pub encode : LogRecord → Result Page
encode checkpoint_record = encode_checkpoint
encode (start_record txnum) = encode_start txnum
encode (commit_record txnum) = encode_commit txnum
encode (rollback_record txnum) = encode_rollback txnum
encode (set_int_record txnum blk offset val) = encode_set_int txnum blk offset val
encode (set_string_record txnum blk offset val) = encode_set_string txnum blk offset val

-- The constructors of the subclasses, which read the record from its page.
unfoldable pub read_txnum : Page → Result ℕ
unfolding size_of_int32
read_txnum p = do w ← get_int p 4; ok (size_of_int32 w)

unfoldable pub read_set_int : Page → Result LogRecord
unfolding size_of_int32
read_set_int p =
    let tpos : ℕ = 4 in
    let fpos = tpos + 4 in
    do
      txnum ← get_int p tpos
      filename ← get_string p fpos
      let bpos = fpos + max_length (length filename)
      blknum ← get_int p bpos
      let opos = bpos + 4
      offset ← get_int p opos
      let vpos = opos + 4
      val ← get_int p vpos
      ok (
          set_int_record (size_of_int32 txnum) (record { file_name = filename; number = blknum })
            (size_of_int32 offset) val)

unfoldable pub read_set_string : Page → Result LogRecord
unfolding size_of_int32
read_set_string p =
    let tpos : ℕ = 4 in
    let fpos = tpos + 4 in
    do
      txnum ← get_int p tpos
      filename ← get_string p fpos
      let bpos = fpos + max_length (length filename)
      blknum ← get_int p bpos
      let opos = bpos + 4
      offset ← get_int p opos
      let vpos = opos + 4
      val ← get_string p vpos
      ok (
          set_string_record (size_of_int32 txnum) (record { file_name = filename; number = blknum })
            (size_of_int32 offset) val)

unfoldable pub create_log_record : List ℕ → Result LogRecord
unfolding op_code read_txnum read_set_int read_set_string
create_log_record bytes = do
  type ← get_int bytes 0
  if type == op_code checkpoint
      then ok checkpoint_record
      else if type == op_code start
      then (do n ← read_txnum bytes; ok (start_record n))
      else if type == op_code commit
      then (do n ← read_txnum bytes; ok (commit_record n))
      else if type == op_code rollback
      then (do n ← read_txnum bytes; ok (rollback_record n))
      else if type == op_code setint
      then read_set_int bytes
      else if type == op_code setstring
      then read_set_string bytes
      else err unknown_record
