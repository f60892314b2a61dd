-- ===== src/TableScan.antt =====
-- include/record/tablescan.hpp and src/record/tablescan.cpp: a scan over the record pages of the
-- blocks of a file. The state holds the transaction that the scan shares. Every `pin` is given the
-- same list of steps of other threads for its wait.
pub mod Next
use mudopdbmigration.Layout.{Layout}
use mudopdbmigration.Page.{int32_mod}
use mudopdbmigration.Pool.{BufferMgr}
use mudopdbmigration.BlockId.{BlockId}
use mudopdbmigration.Exec.{Exec, continue, pure, gets, throw, ◌>>=◌, ◌>>◌}
use mudopdbmigration.Prelude.{
  ℕ, zero, suc, ◌+◌, ◌-◌, ◌%◌, ◌^◌, Bool, true, false, Option, none, some, List, [], ◌∷◌, ◌++◌,
  ◌==◌, if◌then◌else◌, undefined, no_value, out_of_fuel, Result, ok, err,
}
use mudopdbmigration.Schema
use mudopdbmigration.Schema.{integer, varchar, FieldType, Schema, field_type}
use mudopdbmigration.Constant.{Constant, int_val, string_val, as_int, as_string}
use mudopdbmigration.Transaction
use mudopdbmigration.Transaction.{Transaction, Tx, unpin, size, append}
use mudopdbmigration.RecordPage
use mudopdbmigration.RecordPage.{RecordPage, new_record_page, format, next_after, insert_after}
use mudopdbmigration.Rid.{Rid}

pub record TableScan : Type 0 where
  pub tx : Transaction
  pub layout : Layout
  pub rp : Option RecordPage
  pub filename : List ℕ
  pub currentslot : Option ℕ

abbrev pub Waits : Type 0
Waits = List (BufferMgr → BufferMgr)

abbrev pub on_tx : {A : Type 0} → Tx A → Exec TableScan A
on_tx m s = let (r, tx) = m s.tx in (r, record s { tx = tx })

-- `rp_->`
abbrev pub page : Exec TableScan RecordPage
page s = elim s.rp [ none ↦ (err undefined, s) | some rp ↦ (ok rp, s) ]

-- `currentslot_.value()`
abbrev pub current : Exec TableScan ℕ
current s = elim s.currentslot [ none ↦ (err no_value, s) | some slot ↦ (ok slot, s) ]

abbrev pub set_slot : Option ℕ → Exec TableScan (Unit {0})
set_slot slot s = (ok tt, record s { currentslot = slot })

abbrev pub set_page : RecordPage → Exec TableScan (Unit {0})
set_page rp s = (ok tt, record s { rp = some rp })

unfoldable pub close : Exec TableScan (Unit {0})
unfolding Transaction.unpin
close s = elim s.rp [ none ↦ (ok tt, s) | some rp ↦ on_tx (Transaction.unpin rp.blk) s ]

abbrev pub block_of : TableScan → ℕ → BlockId
block_of s blknum = record { file_name = s.filename; number = blknum }

-- The steps that `move_to_block`, `move_to_rid` and `move_to_new_block` share.
abbrev pub open_page : Waits → BlockId → Exec TableScan (Unit {0})
open_page waits blk = do
  layout ← gets (λ s. s.layout)
  rp ← on_tx (new_record_page waits blk layout)
  set_page rp

unfoldable pub move_to_block : Waits → ℕ → Exec TableScan (Unit {0})
unfolding close new_record_page
move_to_block waits blknum = do
  close
  blk ← gets (λ s. block_of s blknum)
  open_page waits blk
  set_slot none

-- The loop of `format` takes fuel.
unfoldable pub move_to_new_block : Waits → ℕ → Exec TableScan (Unit {0})
unfolding close new_record_page Transaction.append RecordPage.format
move_to_new_block waits slots = do
  close
  filename ← gets (λ s. s.filename)
  blk ← on_tx (Transaction.append filename)
  open_page waits blk
  rp ← page
  on_tx (RecordPage.format slots rp)
  set_slot none

unfoldable pub move_to_rid : Waits → Rid → Exec TableScan (Unit {0})
unfolding close new_record_page
move_to_rid waits rid = do
  close
  blk ← gets (λ s. block_of s rid.blknum)
  open_page waits blk
  set_slot (some rid.slot)

-- `static_cast<int32_t>(…) - 1`, undefined for the smallest `int32_t`
abbrev pub last_number : ℕ → Result ℕ
last_number size =
    if size % int32_mod == 2 ^ 31
    then err undefined
    else ok ((size % int32_mod + int32_mod - 1) % int32_mod)

unfoldable pub at_last_block : Exec TableScan Bool
unfolding Transaction.size
at_last_block = do
  rp ← page
  filename ← gets (λ s. s.filename)
  size ← on_tx (Transaction.size filename)
  λ s. elim (last_number size) [ err e ↦ (err e, s) | ok last ↦ (ok (rp.blk.number == last), s) ]

-- `rp_->block().number() + 1`, undefined for the largest `int32_t`
unfoldable pub next_number : Exec TableScan ℕ
next_number = do
  rp ← page
  if rp.blk.number == 2 ^ 31 - 1 then throw undefined else pure ((rp.blk.number + 1) % int32_mod)

unfoldable pub new_table_scan :
    Waits → ℕ → Transaction → List ℕ → Layout → Result (Unit {0}) × TableScan
unfolding Transaction.size move_to_block move_to_new_block
new_table_scan waits slots tx tablename layout =
    let s : TableScan = record {
      tx = tx;
      layout = layout;
      rp = none;
      filename = tablename ++ b'.' ∷ b't' ∷ b'b' ∷ b'l' ∷ [];
      currentslot = none;
    } in
    continue (on_tx (Transaction.size s.filename) s)
      λ size. if size == 0 then move_to_new_block waits slots else move_to_block waits 0

unfoldable pub before_first : Waits → Exec TableScan (Unit {0})
unfolding move_to_block
before_first waits = move_to_block waits 0

-- `currentslot_ = rp_->next_after(currentslot_)`
unfoldable pub next_slot : ℕ → Exec TableScan (Option ℕ)
next_slot slots = do
  rp ← page
  slot ← gets (λ s. s.currentslot)
  found ← on_tx (RecordPage.next_after slots rp slot)
  set_slot found
  pure found

-- The loop over the blocks takes fuel, and `slots` is the fuel of the search in each.
unfoldable pub next : Waits → ℕ → ℕ → Exec TableScan Bool
unfolding at_last_block next_number move_to_block
next waits slots zero s = (err out_of_fuel, s)
next waits slots (suc fuel) s = continue (next_slot slots s) λ found. elim found [
  | some _ ↦ pure true
  | none ↦ do
    last ← at_last_block
    elim last [
      | true ↦ pure false
      | false ↦ do blknum ← next_number; move_to_block waits blknum; next waits slots fuel
    ]
]

-- `currentslot_ = rp_->insert_after(currentslot_)`
unfoldable pub insert_slot : ℕ → Exec TableScan (Option ℕ)
insert_slot slots = do
  rp ← page
  slot ← gets (λ s. s.currentslot)
  found ← on_tx (RecordPage.insert_after slots rp slot)
  set_slot found
  pure found

unfoldable pub insert : Waits → ℕ → ℕ → Exec TableScan (Unit {0})
unfolding at_last_block next_number move_to_block move_to_new_block
insert waits slots zero s = (err out_of_fuel, s)
insert waits slots (suc fuel) s = continue (insert_slot slots s) λ found. elim found [
  | some _ ↦ pure tt
  | none ↦ do
    last ← at_last_block
    elim last [
      | true ↦ move_to_new_block waits slots
      | false ↦ do blknum ← next_number; move_to_block waits blknum
    ]
    insert waits slots fuel
]

unfoldable pub get_int : List ℕ → Exec TableScan ℕ
unfolding RecordPage.get_int
get_int fldname = do rp ← page; slot ← current; on_tx (RecordPage.get_int rp slot fldname)

unfoldable pub get_string : List ℕ → Exec TableScan (List ℕ)
unfolding RecordPage.get_string
get_string fldname = do rp ← page; slot ← current; on_tx (RecordPage.get_string rp slot fldname)

abbrev pub field_kind : List ℕ → Exec TableScan FieldType
field_kind fldname s = (Schema.field_type s.layout.schema fldname, s)

unfoldable pub get_val : List ℕ → Exec TableScan Constant
unfolding get_int get_string
get_val fldname = do
  kind ← field_kind fldname
  elim kind [
    | integer ↦ do i ← get_int fldname; pure (int_val i)
    | varchar ↦ do v ← get_string fldname; pure (string_val v)
  ]

unfoldable pub has_field : List ℕ → TableScan → Bool
unfolding Schema.has_field
has_field fldname s = Schema.has_field s.layout.schema fldname

unfoldable pub set_int : List ℕ → ℕ → Exec TableScan (Unit {0})
unfolding RecordPage.set_int
set_int fldname val = do rp ← page; slot ← current; on_tx (RecordPage.set_int rp slot fldname val)

unfoldable pub set_string : List ℕ → List ℕ → Exec TableScan (Unit {0})
unfolding RecordPage.set_string
set_string fldname val = do
  rp ← page
  slot ← current
  on_tx (RecordPage.set_string rp slot fldname val)

-- `.value()` of an optional
abbrev pub value_of : {A : Type 0} → Option A → Exec TableScan A
value_of none s = (err no_value, s)
value_of (some a) s = (ok a, s)

unfoldable pub set_val : List ℕ → Constant → Exec TableScan (Unit {0})
unfolding set_int set_string as_int as_string
set_val fldname val = do
  kind ← field_kind fldname
  elim kind [
    | integer ↦ do i ← value_of (as_int val); set_int fldname i
    | varchar ↦ do v ← value_of (as_string val); set_string fldname v
  ]

unfoldable pub delete_record : Exec TableScan (Unit {0})
unfolding RecordPage.delete_record
delete_record = do rp ← page; slot ← current; on_tx (RecordPage.delete_record rp slot)

unfoldable pub get_rid : Exec TableScan (Option Rid)
get_rid s = elim s.currentslot [
  | none ↦ (ok none, s)
  | some slot ↦ continue (page s) λ rp. pure (some (record { blknum = rp.blk.number; slot = slot }))
]
