-- ===== src/RecordPage.antt =====
-- include/record/recordpage.hpp and src/record/recordpage.cpp: the slots of a block, read and
-- written through the transaction. Offsets are computed in `size_t` and wrap.
pub mod Search
pub mod Next
use mudopdbmigration.Page.{size_mod}
use mudopdbmigration.BlockId.{BlockId}
use mudopdbmigration.Pool.{BufferMgr}
use mudopdbmigration.Exec.{continue, gets, throw, pure}
use mudopdbmigration.Exec.{◌>>=◌, ◌>>◌}
use mudopdbmigration.Schema.{field_type, integer, varchar}
use mudopdbmigration.Prelude.{
  ℕ, zero, suc, ◌+◌, ◌*◌, ◌%◌, Bool, true, false, Option, none, some, List, [], ◌∷◌, leb, ◌==◌,
  out_of_fuel, Result, ok, err,
}
use mudopdbmigration.Transaction
use mudopdbmigration.Transaction.{Tx, Transaction, from_page, pin, size}
use mudopdbmigration.Layout
use mudopdbmigration.Layout.{Layout, offset}

pub record RecordPage : Type 0 where
  pub blk : BlockId
  pub layout : Layout

pub data Flag : Type 0 where
  empty used : Flag

abbrev pub flag_code : Flag → ℕ
flag_code empty = 0
flag_code used = 1

unfoldable pub new_record_page : List (BufferMgr → BufferMgr) → BlockId → Layout → Tx RecordPage
new_record_page sleeps blk layout = do
  Transaction.pin sleeps blk
  pure (record { blk = blk; layout = layout })

unfoldable pub slot_offset : RecordPage → ℕ → ℕ
slot_offset rp slot = slot * rp.layout.slotsize % size_mod

-- `offset(slot) + layout_.offset(fldname)`
unfoldable pub field_position : RecordPage → ℕ → List ℕ → Result ℕ
unfolding slot_offset
field_position rp slot fldname = elim (Layout.offset rp.layout fldname) [
  | err e ↦ err e
  | ok off ↦ ok ((slot_offset rp slot + off) % size_mod)
]

unfoldable pub get_int : RecordPage → ℕ → List ℕ → Tx ℕ
unfolding field_position
get_int rp slot fldname = do
  fldpos ← from_page (field_position rp slot fldname)
  Transaction.get_int rp.blk fldpos

unfoldable pub get_string : RecordPage → ℕ → List ℕ → Tx (List ℕ)
unfolding field_position
get_string rp slot fldname = do
  fldpos ← from_page (field_position rp slot fldname)
  Transaction.get_string rp.blk fldpos

unfoldable pub set_int : RecordPage → ℕ → List ℕ → ℕ → Tx (Unit {0})
unfolding field_position
set_int rp slot fldname val = do
  fldpos ← from_page (field_position rp slot fldname)
  Transaction.set_int rp.blk fldpos val true

unfoldable pub set_string : RecordPage → ℕ → List ℕ → List ℕ → Tx (Unit {0})
unfolding field_position
set_string rp slot fldname val = do
  fldpos ← from_page (field_position rp slot fldname)
  Transaction.set_string rp.blk fldpos val true

unfoldable pub set_flag : RecordPage → ℕ → Flag → Tx (Unit {0})
set_flag rp slot flag = Transaction.set_int rp.blk (slot_offset rp slot) (flag_code flag) true

unfoldable pub delete_record : RecordPage → ℕ → Tx (Unit {0})
unfolding set_flag
delete_record rp slot = set_flag rp slot empty

-- `slot + 1` and the product wrap.
unfoldable pub is_valid_slot : RecordPage → ℕ → ℕ → Bool
is_valid_slot rp block_size slot = leb (slot_offset rp ((slot + 1) % size_mod)) block_size

abbrev pub block_size : Transaction → ℕ
block_size tx = tx.bm.lm.fm.block_size

-- The loop of `format` over the fields of a slot.
unfoldable pub format_fields : RecordPage → ℕ → List (List ℕ) → Tx (Unit {0})
unfolding field_position
format_fields rp slot [] = pure tt
format_fields rp slot (fldname ∷ rest) = do
  fldpos ← from_page (field_position rp slot fldname)
  kind ← from_page (field_type rp.layout.schema fldname)
  elim kind [
    | integer ↦ Transaction.set_int rp.blk fldpos 0 false
    | varchar ↦ Transaction.set_string rp.blk fldpos [] false
  ]
  format_fields rp slot rest

-- The loop of `format` over the slots takes fuel.
unfoldable pub format_from : ℕ → RecordPage → ℕ → Tx (Unit {0})
unfolding format_fields
format_from zero rp slot tx = (err out_of_fuel, tx)
format_from (suc fuel) rp slot tx = elim (is_valid_slot rp (block_size tx) slot) [
  | false ↦ (ok tt, tx)
  | true ↦
      continue (Transaction.set_int rp.blk (slot_offset rp slot) (flag_code empty) false tx) λ _.
        format_fields rp slot rp.layout.schema.fields >> format_from fuel rp ((slot + 1) % size_mod)
]

unfoldable pub format : ℕ → RecordPage → Tx (Unit {0})
unfolding format_from
format fuel rp = format_from fuel rp 0

-- The loop of `search_after` takes fuel.
unfoldable pub search_from : ℕ → RecordPage → ℕ → Flag → Tx (Option ℕ)
search_from zero rp current flag tx = (err out_of_fuel, tx)
search_from (suc fuel) rp current flag tx = elim (is_valid_slot rp (block_size tx) current) [
  | false ↦ (ok none, tx)
  | true ↦ continue (Transaction.get_int rp.blk (slot_offset rp current) tx) λ f.
      elim (f == flag_code flag) [
        | true ↦ pure (some current)
        | false ↦ search_from fuel rp ((current + 1) % size_mod) flag
      ]
]

abbrev pub first_slot : Option ℕ → ℕ
first_slot none = 0
first_slot (some slot) = (slot + 1) % size_mod

unfoldable pub search_after : ℕ → RecordPage → Option ℕ → Flag → Tx (Option ℕ)
unfolding search_from
search_after fuel rp slot flag = search_from fuel rp (first_slot slot) flag

unfoldable pub next_after : ℕ → RecordPage → Option ℕ → Tx (Option ℕ)
unfolding search_after
next_after fuel rp slot = search_after fuel rp slot used

unfoldable pub insert_after : ℕ → RecordPage → Option ℕ → Tx (Option ℕ)
unfolding search_after
insert_after fuel rp slot = do
  newslot ← search_after fuel rp slot empty
  elim newslot [ none ↦ pure none | some s ↦ do set_flag rp s used; pure (some s) ]
