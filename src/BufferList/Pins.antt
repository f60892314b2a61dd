-- ===== src/BufferList/Pins.antt =====
-- A block has a buffer exactly as long as it is among the pins.
use mudopdbmigration.Prelude.{
  ℕ, ◌≡◌, refl, sym, inl, inr, Bool, true, false, ◌||◌, Option, none, some, List, [], ◌∷◌, ◌++◌,
  arith, Bool-cases, Option-cases, Result, ok, err,
}
use mudopdbmigration.BlockId.{BlockId, block_eq, block_eq_iff}
use mudopdbmigration.Exec.{continue}
use mudopdbmigration.Lock
use mudopdbmigration.Lock.{put, erase}
use mudopdbmigration.Pool
use mudopdbmigration.Pool.{BufferMgr, pin, unpin}
use mudopdbmigration.BufferList
use mudopdbmigration.BufferList.{
  Held, BufferList, new_list, on_pool, pinned_at, erase_first, is_listed, without, unpin_each,
  unpin_all,
}

abbrev pub has_buffer : Option ℕ → Bool
has_buffer none = false
has_buffer (some _) = true

abbrev pub IsConsistent : BufferList → Type 0
IsConsistent l = (blk : BlockId) → has_buffer (l.buffers blk) ≡ BufferList.is_listed blk l.pins

is_listed-append :
    (x blk : BlockId) (bs : List BlockId)
    → BufferList.is_listed x (bs ++ blk ∷ []) ≡ (BufferList.is_listed x bs || block_eq blk x)
unfolding BufferList.is_listed
is_listed-append x blk [] = ground arith
is_listed-append x blk (b ∷ bs) = ground (arith, is_listed-append x blk bs)

is_listed-erase_ne :
    (x blk : BlockId) (bs : List BlockId)
    → block_eq blk x ≡ false
    → BufferList.is_listed x (BufferList.erase_first blk bs) ≡ BufferList.is_listed x bs
unfolding BufferList.is_listed BufferList.erase_first
is_listed-erase_ne x blk [] h = refl
is_listed-erase_ne x blk (b ∷ bs) h =
    ground (arith, is_listed-erase_ne x blk bs h, block_eq_iff b blk, block_eq_iff b x)

pinned_at-IsConsistent :
    (blk : BlockId) (idx : ℕ) (l : BufferList)
    → IsConsistent l
    → IsConsistent (record { buffers = Lock.put l.buffers blk idx; pins = l.pins ++ blk ∷ [] })
unfolding Lock.put
pinned_at-IsConsistent blk idx l c x = elim (Bool-cases (block_eq blk x)) [
  | inl e ↦ ground (arith, is_listed-append x blk l.pins)
  | inr e ↦ ground (arith, is_listed-append x blk l.pins, c x)
]

without-IsConsistent :
    (blk : BlockId) (idx : ℕ) (l : BufferList)
    → l.buffers blk ≡ some idx
    → IsConsistent l
    → IsConsistent (BufferList.without blk l)
unfolding BufferList.without Lock.erase
without-IsConsistent blk idx l e c x =
    let rest = BufferList.erase_first blk l.pins in
    elim (Bool-cases (block_eq blk x)) [
      | inl q ↦
          let same = (block_eq_iff blk x).0 q in
          elim (Bool-cases (BufferList.is_listed blk rest)) [
            | inl f ↦ rw (f, ← same, e) (sym f)
            | inr f ↦ rw (f, q, ← same) (sym f)
          ]
      | inr q ↦ elim (Bool-cases (BufferList.is_listed blk rest)) [
        | inl f ↦ rw (f, is_listed-erase_ne x blk l.pins q) (c x)
        | inr f ↦ rw (f, q, is_listed-erase_ne x blk l.pins q) (c x)
      ]
    ]

pinned_result :
    (blk : BlockId) (h : Held) (r : Result ℕ × BufferMgr)
    → IsConsistent h.list
    → IsConsistent (continue (BufferList.on_pool r h) (BufferList.pinned_at blk)).1.list
pinned_result blk h (ok idx, bm) c = pinned_at-IsConsistent blk idx h.list c
pinned_result blk h (err e, bm) c = c

unpinned_result :
    (blk : BlockId) (idx : ℕ) (h : Held) (r : Result (Unit {0}) × BufferMgr)
    → h.list.buffers blk ≡ some idx
    → IsConsistent h.list
    → IsConsistent
        (continue
          (BufferList.on_pool r h)
          (λ _ h'. (ok tt, record h' { list = BufferList.without blk h'.list }))).1.list
unpinned_result blk idx h (ok _, bm) e c = without-IsConsistent blk idx h.list e c
unpinned_result blk idx h (err x, bm) e c = c

released_result :
    (h : Held) (r : Result (Unit {0}) × BufferMgr)
    → IsConsistent h.list
    → IsConsistent
        (continue
          (BufferList.on_pool r h)
          (λ _ h'. (ok tt, record h' { list = BufferList.new_list }))).1.list
unfolding BufferList.is_listed
released_result h (ok _, bm) c = λ blk. refl
released_result h (err x, bm) c = c

-- Whatever `pin`, `unpin` and `unpin_all` end in, the list stays consistent: a block has a buffer
-- exactly if it is among the pins.
pub buffer_list-IsConsistent :
    (sleeps : List (BufferMgr → BufferMgr)) (blk : BlockId) (h : Held)
    → IsConsistent h.list
    → IsConsistent (BufferList.pin sleeps blk h).1.list
      × IsConsistent (BufferList.unpin blk h).1.list
      × IsConsistent (BufferList.unpin_all h).1.list
unfolding BufferList.pin BufferList.unpin BufferList.unpin_all
buffer_list-IsConsistent sleeps blk h c = (
  pinned_result blk h (Pool.pin sleeps blk h.bm) c,
  elim (Option-cases (h.list.buffers blk)) [
    | inl e ↦ rw (e, BufferList.unpin) c
    | inr (idx, e) ↦ rw (e, BufferList.unpin) (unpinned_result blk idx h (Pool.unpin idx h.bm) e c)
  ],
  released_result h (BufferList.unpin_each h.list h.list.pins h.bm) c,
)
