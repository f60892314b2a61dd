-- ===== src/Materialize/Cost/Bounds.antt =====
-- The number of blocks of a materialised table is the least that holds its records.
use mudopdbmigration.Prelude.{
  ℕ, ◌+◌, ◌-◌, ◌*◌, ◌/◌, ◌%◌, ◌≤◌, ◌<◌, ◌≡◌, refl, false, arith, ◌==◌, ok,
}
use native.Mathlib.Nat.{div-add-mod', mod-lt}
use mudopdbmigration.Page.{size_mod}
use mudopdbmigration.Layout.{Layout, layout_of}
use mudopdbmigration.Plan.{Plan, schema, records_output}
use mudopdbmigration.Materialize.Cost.{at_least_one, blocks_for, materialize_blocks_accessed}

blocks_for_lem :
    (n rpb : ℕ)
    → 0 < rpb
    → n + rpb ≤ size_mod
    → (n ≤ blocks_for n rpb * rpb) × (blocks_for n rpb * rpb < n + rpb)
unfolding blocks_for
blocks_for_lem n rpb pos fits =
    let m : (n + rpb - 1) % size_mod ≡ n + rpb - 1 = omega arith in
    let d = div-add-mod' (n + rpb - 1) rpb in
    let l = mod-lt (n + rpb - 1) pos in rw m (omega arith, omega arith)

at_least_one_pos : (n : ℕ) → 0 < at_least_one n
at_least_one_pos n = ground arith

-- The blocks that a plan estimates for its sorted or materialised records are just enough: with
-- `rpb` records in a block, which is at least one, all the records fit in them and fewer blocks would
-- not hold them. The schema has a layout whose slots are not empty, and the number of records
-- leaves room for a block's records below 2^64.
pub materialize_blocks_accessed-bounds :
    (blocksize : ℕ) (p : Plan) (layout : Layout)
    → layout_of (schema p) ≡ ok layout
    → 0 < layout.slotsize
    → records_output p + at_least_one (blocksize / layout.slotsize) ≤ size_mod
    → (blocks : ℕ) × (materialize_blocks_accessed blocksize p ≡ ok blocks)
      × (records_output p ≤ blocks * at_least_one (blocksize / layout.slotsize))
      × (blocks * at_least_one (blocksize / layout.slotsize)
          < records_output p + at_least_one (blocksize / layout.slotsize))
unfolding materialize_blocks_accessed
materialize_blocks_accessed-bounds blocksize p layout laid pos fits =
    let rpb = at_least_one (blocksize / layout.slotsize) in
    let nonzero : (layout.slotsize == 0) ≡ false = ground arith in
    let (enough, least) =
      blocks_for_lem (records_output p) rpb (at_least_one_pos (blocksize / layout.slotsize)) fits in
    (blocks_for (records_output p) rpb, rw laid (rw nonzero refl), enough, least)
