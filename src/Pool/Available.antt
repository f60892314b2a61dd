-- ===== src/Pool/Available.antt =====
-- The count of available buffers is right, and pinned buffers stay where they are.
use mudopdbmigration.Page.{size_mod}
use mudopdbmigration.Log.{LogMgr}
use mudopdbmigration.Prelude.{
  ℕ, ◌+◌, ◌^◌, ◌≤◌, ◌<◌, ◌≡◌, refl, inl, inr, false, some, List, [], ◌∷◌, arith, Option-cases,
  length, get_elem?, set, length-set, ok,
}
use mudopdbmigration.BlockId.{BlockId}
use mudopdbmigration.Buffer
use mudopdbmigration.Buffer.{Buffer, State, is_pinned, pin, unpin, assign_to_block}
use mudopdbmigration.Buffer.WriteAhead.{assign_to_block-Assigned}
use mudopdbmigration.Pool
use mudopdbmigration.Pool.{BufferMgr, pin_buffer, on_buffer}
use mudopdbmigration.Pool.Search.{All, free, unpinned, All-get, All-set, unpinned-set}

-- The count is that of the unpinned buffers, and no pin count is negative or above `n`.
pub record IsValid (n : ℕ) (bm : BufferMgr) : Type 0 where
  pub counted : bm.num_available ≡ unpinned bm.bufferpool
  pub fits : length bm.bufferpool < size_mod
  pub pins : All (λ b. b.pins ≤ n) bm.bufferpool

unpinned-le-length : (bs : List Buffer) → unpinned bs ≤ length bs
unpinned-le-length [] = omega arith
unpinned-le-length (b ∷ bs) = ground (arith, unpinned-le-length bs)

pub All-mono : (n : ℕ) (bs : List Buffer) → All (λ b. b.pins ≤ n) bs → All (λ b. b.pins ≤ n + 1) bs
All-mono n [] h = tt
All-mono n (b ∷ bs) h = (omega arith, All-mono n bs h.1)

-- Putting back a buffer that is as free as the one before.
pub put_back-IsValid :
    (n : ℕ) (bm : BufferMgr) (lm : LogMgr) (i : ℕ) (b b' : Buffer)
    → IsValid n bm
    → get_elem? bm.bufferpool i ≡ some b
    → free b' ≡ free b
    → b'.pins ≤ n
    → IsValid n (record bm { lm = lm; bufferpool = set bm.bufferpool i b' })
put_back-IsValid n bm lm i b b' v e same small = record {
  counted = omega (arith, unpinned-set bm.bufferpool i b b' e);
  fits = omega (arith, length-set bm.bufferpool i b');
  pins = All-set (λ b. b.pins ≤ n) bm.bufferpool i b' v.pins small;
}

pub pin_buffer-IsValid :
    (n : ℕ) (bm : BufferMgr) (idx : ℕ)
    → n + 1 < 2 ^ 31
    → IsValid n bm
    → IsValid (n + 1) (Pool.pin_buffer idx bm).1
unfolding Pool.pin_buffer Buffer.pin Buffer.is_pinned
pin_buffer-IsValid n bm idx h v = elim (Option-cases (get_elem? bm.bufferpool idx)) [
  | inl e ↦
      rw (e, Pool.pin_buffer)
        (record { counted = v.counted; fits = v.fits; pins = All-mono n bm.bufferpool v.pins })
  | inr (b, e) ↦
      let small = All-get (λ b. b.pins ≤ n) bm.bufferpool idx b v.pins e in
      rw (e, Pool.pin_buffer)
        (record {
          counted = ground (
            arith,
            unpinned-set bm.bufferpool idx b (Buffer.pin b) e,
            unpinned-le-length bm.bufferpool,
          );
          fits = omega (arith, length-set bm.bufferpool idx (Buffer.pin b));
          pins =
              All-set (λ b. b.pins ≤ n + 1) bm.bufferpool idx (Buffer.pin b)
                (All-mono n bm.bufferpool v.pins) (ground arith);
        })
]

-- In a valid pool, unpinning a buffer with a pin succeeds and leaves the pool valid: the count of
-- available buffers is that of the unpinned ones.
pub unpin-IsValid :
    (n : ℕ) (bm : BufferMgr) (idx : ℕ) (b : Buffer)
    → n < 2 ^ 31
    → get_elem? bm.bufferpool idx ≡ some b
    → 0 < b.pins
    → IsValid n bm
    → ((Pool.unpin idx bm).0 ≡ ok tt) × IsValid n (Pool.unpin idx bm).1
unfolding Pool.unpin Buffer.unpin Buffer.is_pinned
unpin-IsValid n bm idx b h e pinned v =
    let small = All-get (λ b. b.pins ≤ n) bm.bufferpool idx b v.pins e in
    rw (e, Pool.unpin)
      (
        refl,
        record {
          counted = ground (
            arith,
            unpinned-set bm.bufferpool idx b (Buffer.unpin b) e,
            unpinned-le-length (set bm.bufferpool idx (Buffer.unpin b)),
            length-set bm.bufferpool idx (Buffer.unpin b),
          );
          fits = omega (arith, length-set bm.bufferpool idx (Buffer.unpin b));
          pins = All-set (λ b. b.pins ≤ n) bm.bufferpool idx (Buffer.unpin b) v.pins (ground arith);
        },
      )

pub on_buffer-IsValid :
    (n : ℕ) (bm : BufferMgr) (idx : ℕ) (b : Buffer) (blk : BlockId)
    → n < 2 ^ 31
    → get_elem? bm.bufferpool idx ≡ some b
    → Buffer.is_pinned b ≡ false
    → IsValid n bm
    → IsValid n (Pool.on_buffer idx (Buffer.assign_to_block blk) bm).1
unfolding Pool.on_buffer Buffer.is_pinned
on_buffer-IsValid n bm idx b blk h e f v =
    let s : State = record { buffer = b; lm = bm.lm } in
    let a = assign_to_block-Assigned blk s in
    let small = All-get (λ b. b.pins ≤ n) bm.bufferpool idx b v.pins e in
    let pins = a.pins in
    let t = (Buffer.assign_to_block blk s).1 in
    rw (e, Pool.on_buffer)
      (put_back-IsValid n bm t.lm idx b t.buffer v e (ground arith) (omega arith))
