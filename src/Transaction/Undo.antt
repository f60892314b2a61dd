-- ===== src/Transaction/Undo.antt =====
-- A logged write of an integer, its log record, and the write that takes it back.
use mudopdbmigration.Recovery.RoundTrip.{create_log_record-encode}
use mudopdbmigration.Recovery.{set_int_record, create_log_record}
use mudopdbmigration.Page.RoundTrip.{word-copy_self}
use mudopdbmigration.Log.Records.{IsStack}
use mudopdbmigration.Recovery.Format.{wire, IsStorable, encode-wire}
use mathlib.Core.List.{append-nil}
use mudopdbmigration.Transaction
use mudopdbmigration.Page
use mudopdbmigration.Transaction.{Transaction, get_int, set_int}
use mudopdbmigration.Page.{int32_mod, Page}
use mudopdbmigration.Page.Access.{InBounds, int_bytes, word, get_int_lem, copy_InBounds}
use mudopdbmigration.BlockId.{BlockId}
use mudopdbmigration.Buffer.{Buffer}
use mudopdbmigration.Lock.{LockTable}
use mudopdbmigration.Prelude.{
  ℕ, ◌+◌, ◌-◌, ◌^◌, ◌≤◌, ◌<◌, ◌≡◌, sym, ap, subst, ◌∙◌, true, false, some, List, [], ◌∷◌, arith,
  length, copy_bytes, ok, ◌>>=◌,
}
use mudopdbmigration.Transaction.Writes.{
  IsReady, written, get_int_pinned, marked, set_int_unlogged, old_value, set_int_logged,
}

written-word :
    (b : Buffer) (offset val : ℕ)
    → InBounds b.contents offset 4
    → val < int32_mod
    → word (written b offset val) offset ≡ val
written-word b offset val inside small =
    subst (λ w. word (copy_bytes b.contents offset w) offset ≡ val) (append-nil (int_bytes val))
      (word-copy_self b.contents offset val [] inside small)

module _ {n : ℕ} {base : LockTable} {blk : BlockId} {idx : ℕ} {b : Buffer} {tx : Transaction}
    (r : IsReady n base blk idx b tx) (offset : ℕ) (inside : InBounds b.contents offset 4) (val : ℕ)
    (owner : BlockId) (o : ℕ) (rs : List (List ℕ)) (small : val < int32_mod) (few : n + 4 < 2 ^ 31)
    (held : b.blk ≡ some owner) (storable : IsStorable (old_value r offset inside owner))
    (stack : IsStack tx.bm.lm.logpage o rs)
    (room : 8 + length (wire (old_value r offset inside owner)) ≤ o) where
  -- On a block that the transaction has pinned, while every lock value is that of shared locks and
  -- the page of the log is a stack of records with room for one more, a logged write of an integer
  -- returns where the old value, its place and the buffer's block can be stored in a record, and
  -- the transaction's next read of that place returns the integer.
  pub set_int-get_int :
      (tx1 : Transaction) × (Transaction.set_int blk offset val true tx ≡ (ok tt, tx1))
      × (tx2 : Transaction) × (Transaction.get_int blk offset tx1 ≡ (ok val, tx2))
  set_int-get_int =
      let (tx1, e, ready, _, _, _, _, _) =
        set_int_logged r offset inside val owner o rs (omega arith) held storable stack room in
      let in1 = copy_InBounds b.contents offset (int_bytes val) offset 4 inside in
      let (tx2, g, _, _) = get_int_pinned ready offset in1 (omega arith) in
      (tx1, e, tx2, g ∙ ap (λ w. (ok w, tx2)) (written-word b offset val inside small))

  -- On a block that the transaction has pinned, while every lock value is that of shared locks and
  -- the page of the log is a stack of records with room for one more, and where the old value, its
  -- place and the buffer's block can be stored in a record, a logged write of an integer returns
  -- and leaves a record on top of that stack that decodes to the old value and its place. The
  -- unlogged write of that value, as `undo` makes it, returns, and the next read gives the old
  -- value.
  pub set_int-undone :
      (tx1 : Transaction) × (Transaction.set_int blk offset val true tx ≡ (ok tt, tx1))
      × (o' : ℕ) × (bytes : List ℕ) × IsStack tx1.bm.lm.logpage o' (bytes ∷ rs)
      × (old : ℕ) × (create_log_record bytes ≡ ok (set_int_record tx.txnum owner offset old))
      × (Page.get_int b.contents offset ≡ ok old)
      × (tx2 : Transaction) × (Transaction.set_int blk offset old false tx1 ≡ (ok tt, tx2))
      × (tx3 : Transaction) × (Transaction.get_int blk offset tx2 ≡ (ok old, tx3))
  set_int-undone =
      let (tx1, e, ready, top, _, _, _, _) =
        set_int_logged r offset inside val owner o rs (omega arith) held storable stack room in
      let old = word b.contents offset in
      let rec = old_value r offset inside owner in
      let b1 = marked r offset inside val (some (tx.bm.lm.latest_lsn + 1)) in
      let in1 = copy_InBounds b.contents offset (int_bytes val) offset 4 inside in
      let (tx2, e2, ready2, _, _) = set_int_unlogged ready offset in1 old (omega arith) in
      let in2 = copy_InBounds b1.contents offset (int_bytes old) offset 4 in1 in
      let (tx3, g, _, _) = get_int_pinned ready2 offset in2 (omega arith) in
      (
        tx1,
        e,
        o - (4 + length (wire rec)),
        wire rec,
        top,
        old,
        sym (ap (λ x. x >>= create_log_record) (encode-wire rec storable))
            ∙ create_log_record-encode rec storable,
        get_int_lem b.contents offset inside,
        tx2,
        e2,
        tx3,
        g ∙ ap (λ w. (ok w, tx3)) (written-word b1 offset old in1 storable.3),
      )
