-- ===== src/TableScan/Next.antt =====
-- The step of a scan to the next record in the last block of its file.
use mudopdbmigration.Lock.Exclusion.{s_lock-Granted}
use mudopdbmigration.Buffer.{Buffer}
use mudopdbmigration.BlockId.{BlockId}
use mudopdbmigration.Lock.{LockTable}
use mudopdbmigration.File
use mudopdbmigration.Transaction
use mudopdbmigration.RecordPage
use mudopdbmigration.Exec.{continue, try_step}
use mudopdbmigration.Prelude.{
  ℕ, suc, ◌+◌, ◌*◌, ◌^◌, ◌≤◌, ◌<◌, ◌≡◌, refl, sym, ap, subst, ◌∙◌, inl, inr, Bool, true, false,
  Option, none, some, List, ==_iff, Option-cases, ok,
}
use mudopdbmigration.Transaction.{Transaction, end_of_file, size}
use mudopdbmigration.Transaction.Writes.{IsReady, locks_of}
use mudopdbmigration.RecordPage.{RecordPage, block_size, search_from, next_after, used}
use mudopdbmigration.RecordPage.Search.{
  Slotted, IsFirst, search_from-Searched, behind, first_slot-behind,
}
use mudopdbmigration.TableScan.{TableScan, Waits, next, next_slot, at_last_block, last_number}

size_returns :
    (n : ℕ) (base : LockTable) (blk : BlockId) (idx : ℕ) (b : Buffer) (tx : Transaction)
    (filename : List ℕ)
    → IsReady n base blk idx b tx
    → (tx' : Transaction) × (Transaction.size filename tx
        ≡ (ok (File.file_length tx.bm.lm.fm filename).0, tx'))
      × (tx'.bm.bufferpool ≡ tx.bm.bufferpool)
unfolding Transaction.size
size_returns n base blk idx b tx filename r =
    let few = r.few in
    let eof = end_of_file filename in
    let (l, e, _) = s_lock-Granted n base eof (locks_of tx) few r.shared r.accounts in
    let (_, fm) = File.file_length tx.bm.lm.fm filename in
    (
      record tx {
        concur_mgr = l.mine;
        lock_table = l.table;
        bm = record tx.bm { lm = record tx.bm.lm { fm = fm } };
      },
      rw (try_step, e) refl,
      refl,
    )

module _ (rp : RecordPage) (s : TableScan) (here : s.rp ≡ some rp) where
  next_slot_found :
      (slots : ℕ) (k : Option ℕ) (tx' : Transaction)
      → RecordPage.next_after slots rp s.currentslot s.tx ≡ (ok k, tx')
      → next_slot slots s ≡ (ok k, record s { tx = tx'; currentslot = k })
  unfolding next_slot
  next_slot_found slots k tx' e = rw (next_slot, here) (rw e refl)

  at_last_block-true :
      (n : ℕ) (tx' : Transaction)
      → Transaction.size s.filename s.tx ≡ (ok n, tx')
      → last_number n ≡ ok rp.blk.number
      → at_last_block s ≡ (ok true, record s { tx = tx' })
  unfolding at_last_block
  at_last_block-true n tx' e l =
      rw (at_last_block, here) (rw e (rw (l, (==_iff rp.blk.number rp.blk.number).1 refl) refl))

module _ (waits : Waits) (slots rounds : ℕ) (s s' : TableScan) where
  next_hit :
      (k : ℕ)
      → next_slot slots s ≡ (ok (some k), s')
      → next waits slots (suc rounds) s ≡ (ok true, s')
  unfolding next
  next_hit k e = rw (next, e) refl

  next_end :
      (s'' : TableScan)
      → next_slot slots s ≡ (ok none, s')
      → at_last_block s' ≡ (ok true, s'')
      → next waits slots (suc rounds) s ≡ (ok false, s'')
  unfolding next
  next_end s'' e f = rw (next, e) (rw (continue, f) refl)

-- `has_value()`
abbrev pub is_some : Option ℕ → Bool
is_some none = false
is_some (some _) = true

module _ (base : LockTable) (waits : Waits) (rp : RecordPage) (idx : ℕ) (b : Buffer)
    (slots rounds n : ℕ) (s : TableScan) (here : s.rp ≡ some rp)
    (last : last_number (File.file_length s.tx.bm.lm.fm s.filename).0 ≡ ok rp.blk.number)
    (fit : Slotted rp b.contents (block_size s.tx)) (r : IsReady n base rp.blk idx b s.tx)
    (reached : behind s.currentslot * rp.layout.slotsize ≤ block_size s.tx)
    (enough : block_size s.tx < behind s.currentslot * rp.layout.slotsize + slots)
    (few : n + slots + 1 < 2 ^ 31) where
  -- Where the page of a table scan is the last block of its file, the transaction has pinned it,
  -- every lock value is that of shared locks, the slots have room for a flag, and the search
  -- starts within the block and has more fuel than there are bytes left, `next` returns whether a
  -- slot behind the current one is used. The scan then stands on the first such slot, or on none,
  -- and the buffers stay as they are.
  pub next_in_last_block :
      (k : Option ℕ) × (s' : TableScan) × (next waits slots (suc rounds) s ≡ (ok (is_some k), s'))
      × (s'.currentslot ≡ k)
      × (s'.tx.bm.bufferpool ≡ s.tx.bm.bufferpool)
      × IsFirst b.contents rp.layout.slotsize (block_size s.tx) 1 (behind s.currentslot) k
  unfolding RecordPage.next_after
  next_in_last_block =
      let found =
        search_from-Searched base rp idx b (block_size s.tx) slots n (behind s.currentslot) used
          s.tx fit r refl reached enough few in
      let start = first_slot-behind rp b.contents (block_size s.tx) fit s.currentslot reached in
      let step =
        next_slot_found rp s here slots found.result found.after
          (ap (λ c. search_from slots rp c used s.tx) start ∙ found.returns) in
      let s1 = record s { tx = found.after; currentslot = found.result } in
      let searched = λ (k : Option ℕ) (e : found.result ≡ k).
        subst (IsFirst b.contents rp.layout.slotsize (block_size s.tx) 1 (behind s.currentslot)) e
          found.first in
      elim (Option-cases found.result) [
        | inr (k, e) ↦ (
          some k,
          s1,
          next_hit waits slots rounds s s1 k (step ∙ ap (λ o. (ok o, s1)) e),
          e,
          ap (λ m. m.bufferpool) found.same,
          searched (some k) e,
        )
        | inl e ↦
            let (tx2, g, same) =
              size_returns found.steps base rp.blk idx b found.after s.filename found.ready in
            let sized =
              subst (λ m. last_number (File.file_length m.lm.fm s.filename).0 ≡ ok rp.blk.number)
                (sym found.same) last in
            (
              none,
              record s1 { tx = tx2 },
              next_end waits slots rounds s s1 (record s1 { tx = tx2 })
                  (step ∙ ap (λ o. (ok o, s1)) e) (at_last_block-true rp s1 here _ tx2 g sized),
              e,
              same ∙ ap (λ m. m.bufferpool) found.same,
              searched none e,
            )
      ]
