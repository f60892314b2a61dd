-- ===== src/Buffer/WriteAhead.antt =====
-- What a flush and a new assignment do to a buffer, and the write-ahead rule.
use mudopdbmigration.File.ReadBack.{
  write-other_file, write-IsOnDisk, IsOnDisk, write_other-IsOnDisk,
}
use mudopdbmigration.Page.{Page}
use mudopdbmigration.Prelude.{
  ℕ, ◌≤◌, ◌≡◌, refl, sym, ap, ◌∙◌, ◌≢◌, ◌⊎◌, inl, inr, true, none, some, List, arith, leb, Result,
  ok, err, Result-cases,
}
use mudopdbmigration.BlockId.{BlockId}
use mudopdbmigration.Exec.{continue, ◌>>◌, try_step}
use mudopdbmigration.File
use mudopdbmigration.File.{FileMgr, write, read}
use mudopdbmigration.Log
use mudopdbmigration.Log.{LogMgr, flush}
use mudopdbmigration.Buffer
use mudopdbmigration.Buffer.{
  State, Buffer, flush_log, write_block, mark_clean, write_out, set_block, load, clear_pins,
  assign_to_block, on_log, on_file,
}

-- A flush writes the buffer out, and changes nothing of it but the mark of the transaction.
pub record Kept (s t : State) : Type 0 where
  pub blk : t.buffer.blk ≡ s.buffer.blk
  pub pins : t.buffer.pins ≡ s.buffer.pins
  pub contents : t.buffer.contents ≡ s.buffer.contents

flush_log-Kept : (s : State) → Kept s (Buffer.flush_log s).1
unfolding Buffer.flush_log
flush_log-Kept s = ground arith

write_block-Kept : (s : State) → Kept s (Buffer.write_block s).1
unfolding Buffer.write_block
write_block-Kept s = ground arith

Kept-trans : {s t u : State} → Kept s t → Kept t u → Kept s u
Kept-trans h k = record {
  blk = k.blk ∙ h.blk;
  pins = k.pins ∙ h.pins;
  contents = k.contents ∙ h.contents;
}

mark_clean-Kept : (s : State) → Kept s (Buffer.mark_clean s).1
unfolding Buffer.mark_clean
mark_clean-Kept s = record { blk = refl; pins = refl; contents = refl }

pub flush-Kept : (s : State) → Kept s (Buffer.flush s).1
unfolding Buffer.flush Buffer.write_out
flush-Kept s = ground (
  arith,
  flush_log-Kept s,
  write_block-Kept (Buffer.flush_log s).1,
  mark_clean-Kept (Buffer.write_block (Buffer.flush_log s).1).1,
)

-- A buffer that is assigned to a block, or whose assignment throws.
pub record Assigned (s : State) (target : BlockId) (r : Result (Unit {0})) (t : State)
    : Type 0 where
  pub pins : (t.buffer.pins ≡ s.buffer.pins) ⊎ (t.buffer.pins ≡ 0)
  pub blk : (t.buffer.blk ≡ s.buffer.blk) ⊎ (t.buffer.blk ≡ some target)
  pub done : r ≡ ok tt → (t.buffer.blk ≡ some target) × (t.buffer.pins ≡ 0)

pub assign_to_block-Assigned :
    (blk : BlockId) (s : State)
    → Assigned s blk (Buffer.assign_to_block blk s).0 (Buffer.assign_to_block blk s).1
unfolding Buffer.assign_to_block Buffer.set_block Buffer.load Buffer.clear_pins
assign_to_block-Assigned blk s =
    let k = flush-Kept s in
    let p = k.pins in
    let b = k.blk in
    record { pins = ground (arith, p); blk = ground (arith, b); done = ground (arith, p) }

-- A log flush that does not throw leaves the log saved up to the number that was asked for.
pub log_flush-saved :
    (l : ℕ) (lm : LogMgr)
    → l ≤ lm.latest_lsn
    → (Log.flush l lm).0 ≡ ok tt
    → l ≤ (Log.flush l lm).1.last_saved_lsn
unfolding Log.flush
log_flush-saved l lm h e = ground arith

-- A changed buffer with a log number and a block.
abbrev pub changed : Buffer → LogMgr → ℕ → ℕ → BlockId → State
changed b lm tx l blk = record {
  buffer = record b { blk = some blk; txnum = some tx; lsn = some l };
  lm = lm;
}

-- What the flush of the log leaves behind: the log page on disk and the number saved, or the files
-- as they were.
LogFlushed : ℕ → LogMgr → Result (Unit {0}) × LogMgr → Type 0
LogFlushed l lm (ok _, after) =
    IsOnDisk after.fm lm.currentblk lm.logpage
    × (l ≤ after.last_saved_lsn)
    × ((name : List ℕ) → lm.currentblk.file_name ≢ name → after.fm.files name ≡ lm.fm.files name)
LogFlushed l lm (err _, after) = after.fm.files ≡ lm.fm.files

log_flush-LogFlushed :
    (l : ℕ) (lm : LogMgr)
    → l ≤ lm.latest_lsn
    → leb lm.last_saved_lsn l ≡ true
    → LogFlushed l lm (Log.flush l lm)
unfolding Log.flush LogFlushed
log_flush-LogFlushed l lm h needed =
    elim (Result-cases (File.write lm.fm lm.currentblk lm.logpage)) [
      | inl (fm, e) ↦ rw needed (
          rw (try_step, e)
            (
              write-IsOnDisk lm.fm fm lm.currentblk lm.logpage e,
              h,
              λ name ne. write-other_file lm.fm fm lm.currentblk name lm.logpage e ne,
            ))
      | inr (x, e) ↦ rw needed (rw (try_step, e) refl)
    ]

-- A flush of a changed buffer: the log page and the contents are on disk, the number is saved and
-- the buffer clean, or it throws, the buffer's file is as it was and the buffer is still marked.
pub WrittenAhead : LogMgr → ℕ → ℕ → BlockId → Page → Result (Unit {0}) × State → Type 0
WrittenAhead lm tx l blk contents (ok _, t) =
    IsOnDisk t.lm.fm lm.currentblk lm.logpage
    × IsOnDisk t.lm.fm blk contents
    × (l ≤ t.lm.last_saved_lsn)
    × (t.buffer.txnum ≡ none)
WrittenAhead lm tx l blk contents (err _, t) =
    (t.lm.fm.files blk.file_name ≡ lm.fm.files blk.file_name) × (t.buffer.txnum ≡ some tx)

written-WrittenAhead :
    (b : Buffer) (lm after : LogMgr) (tx l : ℕ) (blk : BlockId) (w : Result FileMgr)
    → lm.currentblk.file_name ≢ blk.file_name
    → LogFlushed l lm (ok tt, after)
    → File.write after.fm blk b.contents ≡ w
    → WrittenAhead lm tx l blk b.contents
        (continue (Buffer.on_file w (changed b after tx l blk)) (λ _. Buffer.mark_clean))
unfolding Buffer.mark_clean LogFlushed WrittenAhead
written-WrittenAhead b lm after tx l blk (ok fm) ne (page, saved, others) e = (
  write_other-IsOnDisk after.fm fm blk lm.currentblk b.contents lm.logpage e (λ q. ne (sym q)) page,
  write-IsOnDisk after.fm fm blk b.contents e,
  saved,
  refl,
)
written-WrittenAhead b lm after tx l blk (err x) ne (page, saved, others) e =
    (others blk.file_name ne, refl)

logged-WrittenAhead :
    (b : Buffer) (lm : LogMgr) (tx l : ℕ) (blk : BlockId) (r : Result (Unit {0}) × LogMgr)
    → lm.currentblk.file_name ≢ blk.file_name
    → LogFlushed l lm r
    → WrittenAhead lm tx l blk b.contents (
        continue
          (Buffer.on_log r (changed b lm tx l blk))
          (λ _. Buffer.write_block >> Buffer.mark_clean))
unfolding Buffer.write_block WrittenAhead LogFlushed
logged-WrittenAhead b lm tx l blk (ok _, after) ne h =
    written-WrittenAhead b lm after tx l blk (File.write after.fm blk b.contents) ne h refl
logged-WrittenAhead b lm tx l blk (err x, after) ne h = (ap (λ f. f blk.file_name) h, refl)

-- The write-ahead rule. Take a changed buffer whose log number the log has given out and has not
-- passed with a flush, and whose block is not in the log's file. When the flush of the buffer
-- returns, the log's page and the buffer's contents are both what is read back from disk, the log is
-- saved up to that number and the buffer is clean. When it throws, the file of the buffer's block
-- has the bytes it had and the buffer is still marked as changed. So the file is changed only
-- where the log's page is on disk.
pub flush-write_ahead :
    (b : Buffer) (lm : LogMgr) (tx l : ℕ) (blk : BlockId)
    → l ≤ lm.latest_lsn
    → lm.last_saved_lsn ≤ l
    → lm.currentblk.file_name ≢ blk.file_name
    → WrittenAhead lm tx l blk b.contents (Buffer.flush (changed b lm tx l blk))
unfolding Buffer.flush Buffer.flush_log
flush-write_ahead b lm tx l blk h needed ne =
    logged-WrittenAhead b lm tx l blk (Log.flush l lm) ne
      (log_flush-LogFlushed l lm h (ground arith))
