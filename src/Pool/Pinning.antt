-- ===== src/Pool/Pinning.antt =====
-- What `try_to_pin` guarantees: the count, the buffer that it returns, and the pinned buffers.
use native.Mathlib.Nat.{zero-add}
use mudopdbmigration.Prelude.{
  ℕ, zero, suc, ◌+◌, ◌^◌, ◌≤◌, ◌<◌, ◌≡◌, refl, ◌∙◌, ◌≢◌, inl, inr, true, false, not, Option, none,
  some, List, [], ◌∷◌, arith, ◌==◌, Bool-cases, Option-cases, length, get_elem?, get_elem?-set_self,
  get_elem?-set_ne, int32_lt, Result, ok, err,
}
use mudopdbmigration.BlockId.{BlockId}
use mudopdbmigration.Exec.{pure}
use mudopdbmigration.Buffer
use mudopdbmigration.Buffer.{Buffer, State, is_pinned, assign_to_block, pin}
use mudopdbmigration.Pool
use mudopdbmigration.Pool.{
  BufferMgr, find_existing_buffer, choose_unpinned_buffer, on_buffer, pin_buffer, and_then,
  assign_and_pin, try_to_pin,
}
use mudopdbmigration.Pool.Search.{find_from-found, All-get}
use mudopdbmigration.Pool.Available.{IsValid, All-mono, pin_buffer-IsValid, on_buffer-IsValid}

abbrev pub some_index : Result ℕ × BufferMgr → Result (Option ℕ) × BufferMgr
some_index r = Pool.and_then r (λ i. pure (some i))

pub some_index_state : (r : Result ℕ × BufferMgr) → (some_index r).1 ≡ r.1
some_index_state (ok i, bm) = refl
some_index_state (err e, bm) = refl

IsValid-suc : (n : ℕ) (bm : BufferMgr) → IsValid n bm → IsValid (n + 1) bm
IsValid-suc n bm v = record {
  counted = v.counted;
  fits = v.fits;
  pins = All-mono n bm.bufferpool v.pins;
}

-- The buffer that the second search finds is free.
pub chosen_free :
    (bm : BufferMgr) (idx : ℕ)
    → Pool.choose_unpinned_buffer bm.bufferpool ≡ some idx
    → (b : Buffer) × (get_elem? bm.bufferpool idx ≡ some b) × (Buffer.is_pinned b ≡ false)
unfolding Pool.choose_unpinned_buffer
chosen_free bm idx e =
    let (k, b, p, q, r) = find_from-found (λ b. not (Buffer.is_pinned b)) 0 bm.bufferpool idx e in
    (b, rw (p, zero-add) q, ground arith)

then_pin-IsValid :
    (n : ℕ) (idx : ℕ) (r : Result (Unit {0}) × BufferMgr)
    → n + 1 < 2 ^ 31
    → IsValid n r.1
    → IsValid (n + 1) (Pool.and_then r (λ _ bm'. some_index (Pool.pin_buffer idx bm'))).1
then_pin-IsValid n idx (ok _, bm) h v = rw some_index_state (pin_buffer-IsValid n bm idx h v)
then_pin-IsValid n idx (err e, bm) h v = IsValid-suc n bm v

assign_and_pin-IsValid :
    (n : ℕ) (bm : BufferMgr) (blk : BlockId) (o : Option ℕ)
    → Pool.choose_unpinned_buffer bm.bufferpool ≡ o
    → n + 1 < 2 ^ 31
    → IsValid n bm
    → IsValid (n + 1) (Pool.assign_and_pin blk o bm).1
unfolding Pool.assign_and_pin
assign_and_pin-IsValid n bm blk none e h v = IsValid-suc n bm v
assign_and_pin-IsValid n bm blk (some idx) e h v =
    let (b, q, f) = chosen_free bm idx e in
    then_pin-IsValid n idx (Pool.on_buffer idx (Buffer.assign_to_block blk) bm) h
      (on_buffer-IsValid n bm idx b blk (omega arith) q f v)

-- Whatever comes of an attempt to pin in a valid pool, a buffer, a full pool or an exception, the
-- count of available buffers stays that of the unpinned buffers. The bound on the
-- pin counts grows by one, and stays below 2 ^ 31.
pub try_to_pin-IsValid :
    (n : ℕ) (bm : BufferMgr) (blk : BlockId)
    → n + 1 < 2 ^ 31
    → IsValid n bm
    → IsValid (n + 1) (Pool.try_to_pin blk bm).1
unfolding Pool.try_to_pin
try_to_pin-IsValid n bm blk h v =
    elim (Option-cases (Pool.find_existing_buffer blk bm.bufferpool)) [
      | inl e ↦
          rw (e, Pool.try_to_pin)
            (assign_and_pin-IsValid n bm blk (Pool.choose_unpinned_buffer bm.bufferpool) refl h v)
      | inr (idx, e) ↦
          rw (e, Pool.try_to_pin) (rw some_index_state (pin_buffer-IsValid n bm idx h v))
    ]

-- A pinned buffer keeps its block and its contents, and none of its pins is taken.
abbrev pub PinnedStay : BufferMgr → BufferMgr → Type 0
PinnedStay bm bm' =
    (j : ℕ) (b : Buffer)
    → get_elem? bm.bufferpool j ≡ some b
    → Buffer.is_pinned b ≡ true
    → (b' : Buffer) × (get_elem? bm'.bufferpool j ≡ some b')
      × (b'.blk ≡ b.blk)
      × (b'.contents ≡ b.contents)
      × (b.pins ≤ b'.pins)

pub PinnedStay-refl : (bm : BufferMgr) → PinnedStay bm bm
PinnedStay-refl bm j b e p = (b, e, refl, refl, omega arith)

pub length-gt : {A : Type 0} (xs : List A) (i : ℕ) (x : A) → get_elem? xs i ≡ some x → i < length xs
length-gt [] i x e = cc
length-gt (y ∷ xs) zero x e = omega arith
length-gt (y ∷ xs) (suc i) x e = omega (arith, length-gt xs i x e)

pub pin_buffer-PinnedStay :
    (n : ℕ) (bm : BufferMgr) (idx : ℕ)
    → n + 1 < 2 ^ 31
    → IsValid n bm
    → PinnedStay bm (Pool.pin_buffer idx bm).1
unfolding Pool.pin_buffer Buffer.pin
pin_buffer-PinnedStay n bm idx h v j b e p = elim (Option-cases (get_elem? bm.bufferpool idx)) [
  | inl m ↦ rw (m, Pool.pin_buffer) (b, e, refl, refl, omega arith)
  | inr (b0, m) ↦
      rw (m, Pool.pin_buffer)
        (elim (Bool-cases (idx == j)) [
          | inl same ↦
              let small = All-get (λ b. b.pins ≤ n) bm.bufferpool j b v.pins e in
              let here : idx ≡ j = ground arith in
              let found =
                get_elem?-set_self bm.bufferpool j (Buffer.pin b) (length-gt bm.bufferpool j b e) in
              let equal : b0 ≡ b = ground arith in
              (Buffer.pin b, rw (here, equal) found, refl, refl, omega arith)
          | inr other ↦ (
            b,
            get_elem?-set_ne bm.bufferpool idx j (Buffer.pin b0) (ground arith) ∙ e,
            refl,
            refl,
            omega arith,
          )
        ])
]

pub on_buffer-PinnedStay :
    (bm : BufferMgr) (idx : ℕ) (b0 : Buffer) (blk : BlockId)
    → get_elem? bm.bufferpool idx ≡ some b0
    → Buffer.is_pinned b0 ≡ false
    → PinnedStay bm (Pool.on_buffer idx (Buffer.assign_to_block blk) bm).1
unfolding Pool.on_buffer
on_buffer-PinnedStay bm idx b0 blk m f j b e p =
    let apart : idx ≢ j = λ same. ground arith in
    rw (m, Pool.on_buffer)
      (b, get_elem?-set_ne bm.bufferpool idx j _ apart ∙ e, refl, refl, omega arith)

pub PinnedStay-trans :
    (bm bm' bm'' : BufferMgr)
    → ((j : ℕ) (b b' : Buffer)
        → Buffer.is_pinned b ≡ true
        → b.pins ≤ b'.pins
        → get_elem? bm'.bufferpool j ≡ some b'
        → Buffer.is_pinned b' ≡ true)
    → PinnedStay bm bm'
    → PinnedStay bm' bm''
    → PinnedStay bm bm''
PinnedStay-trans bm bm' bm'' up h k j b e p =
    let (b', e', blk', contents', more') = h j b e p in
    let (b'', e'', blk'', contents'', more'') = k j b' e' (up j b b' p more' e') in
    (b'', e'', blk'' ∙ blk', contents'' ∙ contents', omega arith)

pub still_pinned :
    (n : ℕ) (bm : BufferMgr) (j : ℕ) (b b' : Buffer)
    → n < 2 ^ 31
    → IsValid n bm
    → Buffer.is_pinned b ≡ true
    → b.pins ≤ b'.pins
    → get_elem? bm.bufferpool j ≡ some b'
    → Buffer.is_pinned b' ≡ true
unfolding Buffer.is_pinned int32_lt
still_pinned n bm j b b' h v p more e =
    let small = All-get (λ b. b.pins ≤ n) bm.bufferpool j b' v.pins e in ground arith
