-- ===== src/BufferList.antt =====
-- include/tx/bufferlist.hpp and src/tx/bufferlist.cpp: the buffers that one transaction has pinned.
-- A method acts on the list and on the buffer manager that it shares.
pub mod Pins
use mudopdbmigration.Prelude.{
  ℕ, Bool, false, ◌||◌, Option, none, some, List, [], ◌∷◌, ◌++◌, if◌then◌else◌, block_not_found,
  Result, ok, err,
}
use mudopdbmigration.BlockId.{BlockId, block_eq}
use mudopdbmigration.Exec.{Exec, pure, continue}
use mudopdbmigration.Lock
use mudopdbmigration.Lock.{BlockMap, put, erase}
use mudopdbmigration.Pool
use mudopdbmigration.Pool.{BufferMgr, and_then}

pub record BufferList : Type 0 where
  pub buffers : BlockMap ℕ
  pub pins : List BlockId

abbrev pub new_list : BufferList
new_list = record { buffers = λ _. none; pins = [] }

pub record Held : Type 0 where
  pub list : BufferList
  pub bm : BufferMgr

abbrev pub get_index : BufferList → BlockId → Option ℕ
get_index l blk = l.buffers blk

-- A call of the buffer manager.
abbrev pub on_pool {ℓ} : {A : Type ℓ} → Result A × BufferMgr → Held → Result A × Held
on_pool (r, bm) h = (r, record h { bm = bm })

abbrev pub pinned_at : BlockId → ℕ → Exec Held (Unit {0})
pinned_at blk idx h = (
  ok tt,
  record h {
    list = record { buffers = Lock.put h.list.buffers blk idx; pins = h.list.pins ++ blk ∷ [] };
  },
)

-- The sleeps of `BufferMgr::pin` are an argument, as they are there.
unfoldable pub pin : List (BufferMgr → BufferMgr) → BlockId → Exec Held (Unit {0})
unfolding Pool.pin
pin sleeps blk h = continue (on_pool (Pool.pin sleeps blk h.bm) h) (pinned_at blk)

-- `pins_` without the first entry for a block, if it has one.
unfoldable pub erase_first : BlockId → List BlockId → List BlockId
unfolding block_eq
erase_first blk [] = []
erase_first blk (b ∷ bs) = if block_eq b blk then bs else b ∷ erase_first blk bs

unfoldable pub is_listed : BlockId → List BlockId → Bool
unfolding block_eq
is_listed blk [] = false
is_listed blk (b ∷ bs) = block_eq b blk || is_listed blk bs

unfoldable pub without : BlockId → BufferList → BufferList
unfolding erase_first is_listed
without blk l =
    let pins = erase_first blk l.pins in
    record {
      pins = pins;
      buffers = if is_listed blk pins then l.buffers else Lock.erase l.buffers blk;
    }

unfoldable pub unpin : BlockId → Exec Held (Unit {0})
unfolding Pool.unpin without
unpin blk h = elim (h.list.buffers blk) [
  | none ↦ (err block_not_found, h)
  | some idx ↦
      continue (on_pool (Pool.unpin idx h.bm) h)
        λ _ h'. (ok tt, record h' { list = without blk h'.list })
]

-- The loop over the pins.
unfoldable pub unpin_each : BufferList → List BlockId → BufferMgr → Result (Unit {0}) × BufferMgr
unfolding Pool.unpin
unpin_each l [] bm = (ok tt, bm)
unpin_each l (blk ∷ rest) bm = elim (l.buffers blk) [
  | none ↦ unpin_each l rest bm
  | some idx ↦ Pool.and_then (Pool.unpin idx bm) (λ _. unpin_each l rest)
]

unfoldable pub unpin_all : Exec Held (Unit {0})
unfolding unpin_each
unpin_all h =
    continue (on_pool (unpin_each h.list h.list.pins h.bm) h)
      λ _ h'. (ok tt, record h' { list = new_list })
