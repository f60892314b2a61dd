-- ===== src/RecordPage/Next.antt =====
-- The slots that `next_after` runs through, and those that `insert_after` finds full.
use mudopdbmigration.Buffer.{Buffer}
use mudopdbmigration.Lock.{LockTable}
use mudopdbmigration.Prelude.{
  ℕ, ◌+◌, ◌*◌, ◌^◌, ◌≤◌, ◌<◌, ◌≡◌, refl, ap, subst, ◌∙◌, ◌≢◌, inl, inr, Option, none, Option-cases,
  ok,
}
use mudopdbmigration.Transaction.{Transaction}
use mudopdbmigration.Transaction.Writes.{IsReady}
use mudopdbmigration.RecordPage.{
  block_size, RecordPage, next_after, insert_after, search_from, empty, used,
}
use mudopdbmigration.RecordPage.Search.{
  Slotted, IsFirst, search_from-Searched, flag_at, behind, first_slot-behind,
}

module _ (base : LockTable) (rp : RecordPage) (idx : ℕ) (b : Buffer) (fuel n : ℕ) (slot : Option ℕ)
    (tx : Transaction) (s : Slotted rp b.contents (block_size tx))
    (r : IsReady n base rp.blk idx b tx)
    (reached : behind slot * rp.layout.slotsize ≤ block_size tx)
    (enough : block_size tx < behind slot * rp.layout.slotsize + fuel)
    (few : n + fuel + 1 < 2 ^ 31) where
  -- On a block that the transaction has pinned, while every lock value is that of shared locks,
  -- where the slots have room for a flag and the search starts within the block and has more fuel
  -- than there are bytes left, `next_after` returns the first used slot behind the one given, or
  -- none if no such slot is used, and the buffers stay as they are.
  pub next_after-IsFirst :
      (k : Option ℕ) × (tx' : Transaction) × (next_after fuel rp slot tx ≡ (ok k, tx'))
      × (tx'.bm ≡ tx.bm)
      × IsFirst b.contents rp.layout.slotsize (block_size tx) 1 (behind slot) k
  unfolding next_after
  next_after-IsFirst =
      let found =
        search_from-Searched base rp idx b (block_size tx) fuel n (behind slot) used tx s r refl
          reached enough few in
      let start = first_slot-behind rp b.contents (block_size tx) s slot reached in
      (
        found.result,
        found.after,
        ap (λ c. search_from fuel rp c used tx) start ∙ found.returns,
        found.same,
        found.first,
      )

  -- On a block that the transaction has pinned, while every lock value is that of shared locks,
  -- where the slots have room for a flag, the search starts within the block and has more fuel
  -- than there are bytes left, and no slot behind the one given is empty, `insert_after` returns
  -- none, and the buffers stay as they are.
  pub insert_after_full :
      ((j : ℕ)
        → behind slot ≤ j
        → (j + 1) * rp.layout.slotsize ≤ block_size tx
        → flag_at b.contents rp.layout.slotsize j ≢ 0)
      → (tx' : Transaction) × (insert_after fuel rp slot tx ≡ (ok none, tx')) × (tx'.bm ≡ tx.bm)
  unfolding insert_after
  insert_after_full full =
      let found =
        search_from-Searched base rp idx b (block_size tx) fuel n (behind slot) empty tx s r refl
          reached enough few in
      let start = first_slot-behind rp b.contents (block_size tx) s slot reached in
      elim (Option-cases found.result) [
        | inl e ↦ (found.after, rw start (rw (found.returns, e) refl), found.same)
        | inr (k, e) ↦
            let first =
              subst (IsFirst b.contents rp.layout.slotsize (block_size tx) 0 (behind slot)) e
                found.first in
            absurd (full k first.0 first.1 first.2)
      ]
