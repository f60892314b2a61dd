-- ===== src/Buffer.antt =====
-- include/buffer/buffer.hpp and src/buffer/buffer.cpp: a page with its block, its pins, and the
-- transaction and log number of its last change. The log manager that a buffer shares, with the
-- file manager in it, is passed along. Pins are counted below 2 ^ 31.
pub mod WriteAhead
use mudopdbmigration.Prelude.{ℕ, ◌+◌, ◌-◌, ◌%◌, Bool, Option, none, some, int32_lt, Result, ok, err}
use mudopdbmigration.Page.{Page, int32_mod, zeroed}
use mudopdbmigration.BlockId.{BlockId}
use mudopdbmigration.Exec.{Exec, gets, throw, ◌>>=◌, ◌>>◌}
use mudopdbmigration.File
use mudopdbmigration.File.{FileMgr, read, write}
use mudopdbmigration.Log
use mudopdbmigration.Log.{LogMgr}

-- `pins_` is an `int32_t`: its bit pattern.
pub record Buffer : Type 0 where
  pub contents : Page
  pub blk : Option BlockId
  pub pins : ℕ
  pub txnum : Option ℕ
  pub lsn : Option ℕ

-- The constructor.
unfoldable pub new_buffer : FileMgr → Buffer
unfolding zeroed
new_buffer fm = record {
  contents = zeroed fm.block_size;
  blk = none;
  pins = 0;
  txnum = none;
  lsn = none;
}

unfoldable pub set_modified : Buffer → ℕ → Option ℕ → Buffer
set_modified b txnum none = record b { txnum = some txnum }
set_modified b txnum (some lsn) = record b { txnum = some txnum; lsn = some lsn }

unfoldable pub is_pinned : Buffer → Bool
unfolding int32_lt
is_pinned b = int32_lt 0 b.pins

abbrev pub modifying_tx : Buffer → Option ℕ
modifying_tx b = b.txnum

unfoldable pub pin : Buffer → Buffer
pin b = record b { pins = (b.pins + 1) % int32_mod }

unfoldable pub unpin : Buffer → Buffer
unpin b = record b { pins = (b.pins + int32_mod - 1) % int32_mod }

-- The state of a method of a buffer: the buffer, and the log manager that it shares.
pub record State : Type 0 where
  pub buffer : Buffer
  pub lm : LogMgr

abbrev pub on_log : Result (Unit {0}) × LogMgr → State → Result (Unit {0}) × State
on_log (r, lm) s = (r, record s { lm = lm })

-- `if (lsn_.has_value()) lm_->flush(lsn_.value());`
unfoldable pub flush_log : Exec State (Unit {0})
unfolding Log.flush
flush_log s = elim s.buffer.lsn [ none ↦ (ok tt, s) | some lsn ↦ on_log (Log.flush lsn s.lm) s ]

abbrev pub on_file : Result FileMgr → State → Result (Unit {0}) × State
on_file (ok fm) s = (ok tt, record s { lm = record s.lm { fm = fm } })
on_file (err e) s = (err e, s)

-- `if (blk_.has_value()) fm_->write(blk_.value(), contents_);`
unfoldable pub write_block : Exec State (Unit {0})
write_block s = elim s.buffer.blk [
  | none ↦ (ok tt, s)
  | some blk ↦ on_file (File.write s.lm.fm blk s.buffer.contents) s
]

unfoldable pub mark_clean : Exec State (Unit {0})
mark_clean s = (ok tt, record s { buffer = record s.buffer { txnum = none } })

unfoldable pub write_out : Exec State (Unit {0})
unfolding flush_log write_block mark_clean
write_out = do flush_log; write_block; mark_clean

unfoldable pub flush : Exec State (Unit {0})
unfolding write_out
flush s = elim s.buffer.txnum [ none ↦ (ok tt, s) | some _ ↦ write_out s ]

unfoldable pub set_block : BlockId → Exec State (Unit {0})
set_block blk s = (ok tt, record s { buffer = record s.buffer { blk = some blk } })

unfoldable pub load : BlockId → Exec State (Unit {0})
load blk s = elim (File.read s.lm.fm blk s.buffer.contents) [
  | ok p ↦ (ok tt, record s { buffer = record s.buffer { contents = p } })
  | err e ↦ (err e, s)
]

unfoldable pub clear_pins : Exec State (Unit {0})
clear_pins s = (ok tt, record s { buffer = record s.buffer { pins = 0 } })

unfoldable pub assign_to_block : BlockId → Exec State (Unit {0})
unfolding flush set_block load clear_pins
assign_to_block blk = do flush; set_block blk; load blk; clear_pins
