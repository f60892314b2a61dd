-- ===== src/Pool.antt =====
-- include/buffer/buffermgr.hpp and src/buffer/buffermgr.cpp: the pool of buffers.
-- `size_t` counters do not wrap but where they could fall below zero, and an index is a position in
-- the pool; the file manager and the log manager that all buffers share are the field `lm`.
-- Time enters `pin` as the list of the sleeps that the waiting time allows.
pub mod Search
pub mod Available
pub mod Pinning
pub mod Outcome
use mudopdbmigration.Prelude.{
  ℕ, zero, suc, ◌+◌, ◌-◌, ◌%◌, Bool, true, false, not, Option, none, some, List, [], ◌∷◌, ◌==◌,
  if◌then◌else◌, length, get_elem?, set, replicate, undefined, buffer_abort, Result, ok, err,
}
use mudopdbmigration.Page.{Page, size_mod}
use mudopdbmigration.BlockId.{BlockId, block_eq}
use mudopdbmigration.Exec.{Exec, pure}
use mudopdbmigration.Log.{LogMgr, flush}
use mudopdbmigration.Buffer
use mudopdbmigration.Buffer.{Buffer, new_buffer, is_pinned, State, assign_to_block}

pub record BufferMgr : Type 0 where
  pub lm : LogMgr
  pub bufferpool : List Buffer
  pub num_available : ℕ

-- The constructor.
unfoldable pub new_pool : LogMgr → ℕ → BufferMgr
unfolding Buffer.new_buffer
new_pool lm numbuffs = record {
  lm = lm;
  bufferpool = replicate numbuffs (Buffer.new_buffer lm.fm);
  num_available = numbuffs;
}

abbrev pub available : BufferMgr → ℕ
available bm = bm.num_available

-- `block_opt.has_value() && block_opt.value() == blk`
unfoldable pub holds_block : BlockId → Buffer → Bool
unfolding block_eq
holds_block blk b = elim b.blk [ none ↦ false | some other ↦ block_eq other blk ]

-- The first position from `i` on whose buffer passes the test.
unfoldable pub find_from : (Buffer → Bool) → ℕ → List Buffer → Option ℕ
find_from test i [] = none
find_from test i (b ∷ bs) = if test b then some i else find_from test (i + 1) bs

unfoldable pub find_existing_buffer : BlockId → List Buffer → Option ℕ
unfolding find_from holds_block
find_existing_buffer blk pool = find_from (holds_block blk) 0 pool

unfoldable pub choose_unpinned_buffer : List Buffer → Option ℕ
unfolding find_from Buffer.is_pinned
choose_unpinned_buffer pool = find_from (λ b. not (Buffer.is_pinned b)) 0 pool

abbrev pub put_back :
    BufferMgr → ℕ → Result (Unit {0}) × Buffer.State → Result (Unit {0}) × BufferMgr
put_back bm idx (r, s) = (r, record bm { lm = s.lm; bufferpool = set bm.bufferpool idx s.buffer })

-- A method of the buffer at a position of the pool.
unfoldable pub on_buffer : ℕ → Exec Buffer.State (Unit {0}) → Exec BufferMgr (Unit {0})
on_buffer idx m bm = elim (get_elem? bm.bufferpool idx) [
  | none ↦ (err undefined, bm)
  | some b ↦ put_back bm idx (m (record { buffer = b; lm = bm.lm }))
]

-- The pins of the buffer at a position, and the count of available buffers.
unfoldable pub pin_buffer : ℕ → Exec BufferMgr ℕ
unfolding Buffer.is_pinned Buffer.pin
pin_buffer idx bm = elim (get_elem? bm.bufferpool idx) [
  | none ↦ (err undefined, bm)
  | some b ↦ (
    ok idx,
    record bm {
      bufferpool = set bm.bufferpool idx (Buffer.pin b);
      num_available =
          if Buffer.is_pinned b
          then bm.num_available
          else (bm.num_available + size_mod - 1) % size_mod;
    },
  )
]

abbrev pub and_then {ℓ} : {A B S : Type ℓ} → Result A × S → (A → Exec S B) → Result B × S
and_then (ok a, s) f = f a s
and_then (err e, s) f = (err e, s)

unfoldable pub assign_and_pin : BlockId → Option ℕ → Exec BufferMgr (Option ℕ)
unfolding on_buffer pin_buffer Buffer.assign_to_block
assign_and_pin blk none bm = (ok none, bm)
assign_and_pin blk (some idx) bm =
    and_then (on_buffer idx (Buffer.assign_to_block blk) bm)
      λ _ bm'. and_then (pin_buffer idx bm') (λ i. pure (some i))

unfoldable pub try_to_pin : BlockId → Exec BufferMgr (Option ℕ)
unfolding find_existing_buffer choose_unpinned_buffer assign_and_pin pin_buffer
try_to_pin blk bm = elim (find_existing_buffer blk bm.bufferpool) [
  | some idx ↦ and_then (pin_buffer idx bm) (λ i. pure (some i))
  | none ↦ assign_and_pin blk (choose_unpinned_buffer bm.bufferpool) bm
]

-- The loop of `pin`. Each entry of the list is one sleep before the waiting time is over, and says
-- what other threads do to the pool meanwhile.
abbrev retry :
    Result (Option ℕ) × BufferMgr → (BufferMgr → Result ℕ × BufferMgr) → Result ℕ × BufferMgr
retry (ok (some idx), bm) again = (ok idx, bm)
retry (ok none, bm) again = again bm
retry (err e, bm) again = (err e, bm)

unfoldable pub pin : List (BufferMgr → BufferMgr) → BlockId → Exec BufferMgr ℕ
unfolding try_to_pin
pin [] blk bm = retry (try_to_pin blk bm) (λ bm'. (err buffer_abort, bm'))
pin (others ∷ rest) blk bm = retry (try_to_pin blk bm) (λ bm'. pin rest blk (others bm'))

unfoldable pub unpin : ℕ → Exec BufferMgr (Unit {0})
unfolding Buffer.unpin Buffer.is_pinned
unpin idx bm = elim (get_elem? bm.bufferpool idx) [
  | none ↦ (err undefined, bm)
  | some b ↦ (
    ok tt,
    record bm {
      bufferpool = set bm.bufferpool idx (Buffer.unpin b);
      num_available =
          if Buffer.is_pinned (Buffer.unpin b)
          then bm.num_available
          else (bm.num_available + 1) % size_mod;
    },
  )
]

abbrev modified_by : ℕ → Option ℕ → Bool
modified_by txnum none = false
modified_by txnum (some tx) = tx == txnum

-- The loop over the buffers, `left` of which are still to come.
flush_from : ℕ → ℕ → ℕ → Exec BufferMgr (Unit {0})
unfolding on_buffer Buffer.flush
flush_from zero idx txnum bm = (ok tt, bm)
flush_from (suc left) idx txnum bm = elim (get_elem? bm.bufferpool idx) [
  | none ↦ (ok tt, bm)
  | some b ↦ elim (modified_by txnum (Buffer.modifying_tx b)) [
    | true ↦ and_then (on_buffer idx Buffer.flush bm) (λ _. flush_from left (idx + 1) txnum)
    | false ↦ flush_from left (idx + 1) txnum bm
  ]
]

unfoldable pub flush_all : ℕ → Exec BufferMgr (Unit {0})
unfolding flush_from
flush_all txnum bm = flush_from (length bm.bufferpool) 0 txnum bm
