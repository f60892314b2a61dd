-- ===== src/Pool/Outcome.antt =====
-- The outcome of an attempt to pin a block.
use native.Mathlib.Nat.{zero-add}
use mudopdbmigration.Buffer.WriteAhead.{assign_to_block-Assigned}
use mudopdbmigration.Prelude.{
  ℕ, ◌+◌, ◌^◌, ◌≤◌, ◌<◌, ◌≡◌, refl, inl, inr, Bool, true, false, not, Option, none, some, List, [],
  ◌∷◌, arith, Option-cases, get_elem?, get_elem?-set_self, int32_lt, Result, ok, err,
}
use mudopdbmigration.BlockId.{BlockId, block_eq_iff}
use mudopdbmigration.Buffer
use mudopdbmigration.Buffer.{Buffer, State, is_pinned, pin, assign_to_block}
use mudopdbmigration.Pool
use mudopdbmigration.Pool.{
  BufferMgr, holds_block, find_existing_buffer, pin_buffer, choose_unpinned_buffer, put_back,
  on_buffer, and_then, assign_and_pin, try_to_pin,
}
use mudopdbmigration.Pool.Search.{All, find_from-found, All-get, find_from-missed}
use mudopdbmigration.Pool.Available.{IsValid, on_buffer-IsValid}
use mudopdbmigration.Pool.Pinning.{
  PinnedStay, some_index, length-gt, some_index_state, chosen_free, PinnedStay-refl,
  pin_buffer-PinnedStay, on_buffer-PinnedStay, PinnedStay-trans, still_pinned,
}

-- A buffer is returned, the pool is full, or an exception passes through.
abbrev pub Outcome : BufferMgr → BlockId → Result (Option ℕ) × BufferMgr → Type 0
Outcome bm blk (ok (some i), bm') =
    (b : Buffer) × (get_elem? bm'.bufferpool i ≡ some b)
    × (b.blk ≡ some blk)
    × (Buffer.is_pinned b ≡ true)
Outcome bm blk (ok none, bm') =
    (bm' ≡ bm)
    × All (λ b. Buffer.is_pinned b ≡ true) bm.bufferpool
    × All (λ b. Pool.holds_block blk b ≡ false) bm.bufferpool
Outcome bm blk (err e, bm') = Unit

holds_block_sound : (blk : BlockId) (b : Buffer) → Pool.holds_block blk b ≡ true → b.blk ≡ some blk
unfolding Pool.holds_block
holds_block_sound blk b h = elim (Option-cases b.blk) [
  | inl e ↦ ground arith
  | inr (other, e) ↦ ground (arith, block_eq_iff other blk)
]

not-All :
    (test : Buffer → Bool) (bs : List Buffer)
    → All (λ b. not (test b) ≡ false) bs
    → All (λ b. test b ≡ true) bs
not-All test [] h = tt
not-All test (b ∷ bs) h = (ground arith, not-All test bs h.1)

module _ (n : ℕ) (h : n + 1 < 2 ^ 31) where
  pinned_pin : (b : Buffer) → b.pins ≤ n → Buffer.is_pinned (Buffer.pin b) ≡ true
  unfolding Buffer.is_pinned Buffer.pin int32_lt
  pinned_pin b small = ground arith

  pin_buffer-Outcome :
      (bm bm' : BufferMgr) (blk : BlockId) (idx : ℕ) (b : Buffer)
      → IsValid n bm'
      → get_elem? bm'.bufferpool idx ≡ some b
      → b.blk ≡ some blk
      → Outcome bm blk (some_index (Pool.pin_buffer idx bm'))
  unfolding Pool.pin_buffer
  pin_buffer-Outcome bm bm' blk idx b v e f =
      rw (e, Pool.pin_buffer)
        (
          Buffer.pin b,
          get_elem?-set_self bm'.bufferpool idx (Buffer.pin b) (length-gt bm'.bufferpool idx b e),
          unfold Buffer.pin in f,
          pinned_pin b (All-get (λ b. b.pins ≤ n) bm'.bufferpool idx b v.pins e),
        )

  existing-Outcome :
      (bm : BufferMgr) (blk : BlockId) (idx : ℕ)
      → IsValid n bm
      → Pool.find_existing_buffer blk bm.bufferpool ≡ some idx
      → Outcome bm blk (some_index (Pool.pin_buffer idx bm))
  unfolding Pool.find_existing_buffer
  existing-Outcome bm blk idx v e =
      let (k, b, p, q, r) = find_from-found (Pool.holds_block blk) 0 bm.bufferpool idx e in
      pin_buffer-Outcome bm bm blk idx b v (rw (p, zero-add) q) (holds_block_sound blk b r)

  assigned-Outcome :
      (bm : BufferMgr) (blk : BlockId) (idx : ℕ) (b : Buffer)
      → (r : Result (Unit {0}) × State) → get_elem? bm.bufferpool idx ≡ some b
      → IsValid n (Pool.put_back bm idx r).1
      → (r.0 ≡ ok tt → r.1.buffer.blk ≡ some blk)
      → Outcome bm blk
          (Pool.and_then (Pool.put_back bm idx r) (λ _ bm'. some_index (Pool.pin_buffer idx bm')))
  assigned-Outcome bm blk idx b (ok _, s) e v done =
      pin_buffer-Outcome bm _ blk idx s.buffer v
        (get_elem?-set_self bm.bufferpool idx s.buffer (length-gt bm.bufferpool idx b e))
        (done refl)
  assigned-Outcome bm blk idx b (err x, s) e v done = tt

  assign_and_pin-Outcome :
      (bm : BufferMgr) (blk : BlockId) (o : Option ℕ)
      → IsValid n bm
      → Pool.find_existing_buffer blk bm.bufferpool ≡ none
      → Pool.choose_unpinned_buffer bm.bufferpool ≡ o
      → Outcome bm blk (Pool.assign_and_pin blk o bm)
  unfolding Pool.assign_and_pin Pool.choose_unpinned_buffer Pool.find_existing_buffer
  assign_and_pin-Outcome bm blk none v none_held none_free = (
    refl,
    not-All Buffer.is_pinned bm.bufferpool
        (find_from-missed (λ b. not (Buffer.is_pinned b)) 0 bm.bufferpool none_free),
    find_from-missed (Pool.holds_block blk) 0 bm.bufferpool none_held,
  )
  assign_and_pin-Outcome bm blk (some idx) v none_held e =
      let (b, q, f) = chosen_free bm idx e in
      let s : State = record { buffer = b; lm = bm.lm } in
      let a = assign_to_block-Assigned blk s in
      let kept = on_buffer-IsValid n bm idx b blk (omega arith) q f v in
      rw (q, Pool.on_buffer)
        (assigned-Outcome bm blk idx b (Buffer.assign_to_block blk s) q
          (rw (q, Pool.on_buffer) at kept) (λ d. (a.done d).0))

-- An attempt to pin in a valid pool returns the position of a pinned buffer that is assigned to the
-- block, or, with the pool unchanged, finds every buffer pinned and none assigned to the block, or
-- throws.
pub try_to_pin-Outcome :
    (n : ℕ) (bm : BufferMgr) (blk : BlockId)
    → n + 1 < 2 ^ 31
    → IsValid n bm
    → Outcome bm blk (Pool.try_to_pin blk bm)
unfolding Pool.try_to_pin
try_to_pin-Outcome n bm blk h v =
    elim (Option-cases (Pool.find_existing_buffer blk bm.bufferpool)) [
      | inl e ↦
          rw (e, Pool.try_to_pin)
            (assign_and_pin-Outcome n h bm blk (Pool.choose_unpinned_buffer bm.bufferpool) v e refl)
      | inr (idx, e) ↦ rw (e, Pool.try_to_pin) (existing-Outcome n h bm blk idx v e)
    ]

assign_and_pin-PinnedStay :
    (n : ℕ) (bm : BufferMgr) (blk : BlockId) (o : Option ℕ)
    → n + 1 < 2 ^ 31
    → IsValid n bm
    → Pool.choose_unpinned_buffer bm.bufferpool ≡ o
    → PinnedStay bm (Pool.assign_and_pin blk o bm).1
unfolding Pool.assign_and_pin
assign_and_pin-PinnedStay n bm blk none h v e = PinnedStay-refl bm
assign_and_pin-PinnedStay n bm blk (some idx) h v e =
    let (b, q, f) = chosen_free bm idx e in
    go (Pool.on_buffer idx (Buffer.assign_to_block blk) bm)
      (on_buffer-IsValid n bm idx b blk (omega arith) q f v) (on_buffer-PinnedStay bm idx b blk q f)
  where
    go :
        (r : Result (Unit {0}) × BufferMgr)
        → IsValid n r.1
        → PinnedStay bm r.1
        → PinnedStay bm (Pool.and_then r (λ _ bm'. some_index (Pool.pin_buffer idx bm'))).1
    go (ok _, bm') w s = rw some_index_state (
        PinnedStay-trans bm bm' (Pool.pin_buffer idx bm').1
          (λ j b b' p more e. still_pinned n bm' j b b' (omega arith) w p more e) s
          (pin_buffer-PinnedStay n bm' idx h w))
    go (err x, bm') w s = s

-- Whatever comes of an attempt to pin in a valid pool, no pinned buffer loses its block, its contents or a pin.
pub try_to_pin_stays :
    (n : ℕ) (bm : BufferMgr) (blk : BlockId)
    → n + 1 < 2 ^ 31
    → IsValid n bm
    → PinnedStay bm (Pool.try_to_pin blk bm).1
unfolding Pool.try_to_pin
try_to_pin_stays n bm blk h v = elim (Option-cases (Pool.find_existing_buffer blk bm.bufferpool)) [
  | inl e ↦
      rw (e, Pool.try_to_pin)
        (assign_and_pin-PinnedStay n bm blk (Pool.choose_unpinned_buffer bm.bufferpool) h v refl)
  | inr (idx, e) ↦
      rw (e, Pool.try_to_pin) (rw some_index_state (pin_buffer-PinnedStay n bm idx h v))
]
