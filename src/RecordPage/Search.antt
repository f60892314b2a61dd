-- ===== src/RecordPage/Search.antt =====
-- The search for the next slot with a flag.
use mudopdbmigration.Buffer.{Buffer}
use mudopdbmigration.Lock.{LockTable}
use mudopdbmigration.Page.Access.{word, InBounds}
use mudopdbmigration.Page.{max_size, Page, size_mod}
use mudopdbmigration.Prelude.{
  ℕ, zero, suc, ◌+◌, ◌*◌, ◌%◌, ◌^◌, ◌≤◌, ◌<◌, ◌≡◌, refl, sym, ap, subst, ◌∙◌, ◌≢◌, inl, inr, true,
  false, Option, none, some, arith, leb, ◌==◌, leb→le, ==_iff, Bool-cases, length, ok,
}
use mudopdbmigration.Transaction
use mudopdbmigration.Exec.{continue}
use native.Mathlib.Nat.{mul-le-mul_left, mul-le-mul_right}
use mudopdbmigration.Transaction.{Transaction, get_int, size}
use mudopdbmigration.Transaction.Writes.{IsReady, get_int_pinned}
use mudopdbmigration.RecordPage.{
  RecordPage, Flag, flag_code, first_slot, search_from, is_valid_slot, slot_offset, block_size,
}

-- The flag of a slot in a page of slots of `size` bytes.
abbrev pub flag_at : Page → ℕ → ℕ → ℕ
flag_at p size slot = word p (slot * size)

-- The first slot at or behind `start` that has the flag `code`, or none. A slot has to end within
-- the first `room` bytes.
abbrev pub IsFirst : Page → ℕ → ℕ → ℕ → ℕ → Option ℕ → Type 0
IsFirst p size room code start none =
    (j : ℕ) → start ≤ j → (j + 1) * size ≤ room → flag_at p size j ≢ code
IsFirst p size room code start (some k) =
    (start ≤ k)
    × ((k + 1) * size ≤ room)
    × (flag_at p size k ≡ code)
    × ((j : ℕ) → start ≤ j → j < k → flag_at p size j ≢ code)

-- The least number of a slot behind the one given, or of any slot if none is given.
abbrev pub behind : Option ℕ → ℕ
behind none = 0
behind (some slot) = slot + 1

module _ (rp : RecordPage) (flag : Flag) (fuel c : ℕ) (tx tx' : Transaction) (v : ℕ) where
  search_from_end :
      is_valid_slot rp (block_size tx) c ≡ false
      → search_from (suc fuel) rp c flag tx ≡ (ok none, tx)
  unfolding search_from
  search_from_end e = rw (search_from, e) refl

  search_from_hit :
      is_valid_slot rp (block_size tx) c ≡ true
      → Transaction.get_int rp.blk (slot_offset rp c) tx ≡ (ok v, tx')
      → (v == flag_code flag) ≡ true
      → search_from (suc fuel) rp c flag tx ≡ (ok (some c), tx')
  unfolding search_from
  search_from_hit e g h = rw (search_from, e) (rw g (rw (continue, h) refl))

  search_from_miss :
      is_valid_slot rp (block_size tx) c ≡ true
      → Transaction.get_int rp.blk (slot_offset rp c) tx ≡ (ok v, tx')
      → (v == flag_code flag) ≡ false
      → search_from (suc fuel) rp c flag tx ≡ search_from fuel rp ((c + 1) % size_mod) flag tx'
  unfolding search_from
  search_from_miss e g h = rw (search_from, e) (rw g (rw (continue, h) refl))

-- The slots of a record page and the page that its block's buffer holds.
pub record Slotted (rp : RecordPage) (p : Page) (room : ℕ) : Type 0 where
  pub flagged : 4 ≤ rp.layout.slotsize
  pub whole : length p ≡ room
  pub small : room + rp.layout.slotsize < max_size

module _ (rp : RecordPage) (p : Page) (room : ℕ) (s : Slotted rp p room) (c : ℕ)
    (reached : c * rp.layout.slotsize ≤ room) where
  next_offset : (c + 1) * rp.layout.slotsize ≡ c * rp.layout.slotsize + rp.layout.slotsize
  next_offset = grind arith

  index_small : c ≤ room
  index_small =
      let flagged = s.flagged in
      let positive : 1 ≤ rp.layout.slotsize = omega arith in
      omega (arith, mul-le-mul_left c positive)

  slot_offset_lem : slot_offset rp c ≡ c * rp.layout.slotsize
  unfolding slot_offset
  slot_offset_lem = let small = s.small in omega arith

  is_valid_slot_lem : is_valid_slot rp room c ≡ leb ((c + 1) * rp.layout.slotsize) room
  unfolding is_valid_slot slot_offset
  is_valid_slot_lem =
      let small = s.small in
      let wrapped : (c + 1) % size_mod ≡ c + 1 = omega (arith, index_small) in
      let unwrapped : (c + 1) * rp.layout.slotsize % size_mod ≡ (c + 1) * rp.layout.slotsize =
        omega (arith, next_offset) in
      rw wrapped (rw unwrapped refl)

-- The search for a slot behind another one starts there.
pub first_slot-behind :
    (rp : RecordPage) (p : Page) (room : ℕ)
    → Slotted rp p room
    → (slot : Option ℕ) → behind slot * rp.layout.slotsize ≤ room
    → first_slot slot ≡ behind slot
first_slot-behind rp p room s none reached = refl
first_slot-behind rp p room s (some k) reached =
    let small = s.small in let within = index_small rp p room s (k + 1) reached in omega arith

IsFirst-step :
    (p : Page) (size room code c : ℕ) (r : Option ℕ)
    → flag_at p size c ≢ code
    → IsFirst p size room code (c + 1) r
    → IsFirst p size room code c r
IsFirst-step p size room code c none ne first = λ j le fits. elim (Bool-cases (j == c)) [
  | inl e ↦ subst (λ i. flag_at p size i ≢ code) (sym ((==_iff j c).0 e)) ne
  | inr e ↦ first j (ground arith) fits
]
IsFirst-step p size room code c (some k) ne first = (
  ground (arith, first.0),
  first.1,
  first.2,
  λ j le lt. elim (Bool-cases (j == c)) [
    | inl e ↦ subst (λ i. flag_at p size i ≢ code) (sym ((==_iff j c).0 e)) ne
    | inr e ↦ first.3 j (ground arith) lt
  ],
)

-- What a search returns: the first slot with the flag, or none. The buffers stay as they are.
pub record Searched (base : LockTable) (rp : RecordPage) (idx : ℕ) (b : Buffer) (room fuel n c : ℕ)
    (flag : Flag) (tx : Transaction) : Type 0 where
  pub result : Option ℕ
  pub after : Transaction
  pub returns : search_from fuel rp c flag tx ≡ (ok result, after)
  pub same : after.bm ≡ tx.bm
  pub steps : ℕ
  pub counted : steps ≤ n + fuel
  pub ready : IsReady steps base rp.blk idx b after
  pub first : IsFirst b.contents rp.layout.slotsize room (flag_code flag) c result

-- The read of the flag of a slot that ends within the block.
flag_read :
    (base : LockTable) (rp : RecordPage) (idx : ℕ) (b : Buffer) (room n c : ℕ) (tx : Transaction)
    → Slotted rp b.contents room
    → IsReady n base rp.blk idx b tx
    → c * rp.layout.slotsize ≤ room
    → (c + 1) * rp.layout.slotsize ≤ room
    → n + 2 < 2 ^ 31
    → (tx' : Transaction) × (Transaction.get_int rp.blk (slot_offset rp c) tx
        ≡ (ok (flag_at b.contents rp.layout.slotsize c), tx'))
      × (tx'.bm ≡ tx.bm)
      × IsReady (n + 1) base rp.blk idx b tx'
flag_read base rp idx b room n c tx s r reached fits few =
    let next = next_offset rp b.contents room s c reached in
    let flagged = s.flagged in
    let whole = s.whole in
    let small = s.small in
    let inside : InBounds b.contents (c * rp.layout.slotsize) 4 = record {
      fits = omega arith;
      addressable = omega arith;
    } in
    let (tx', g, same, r') = get_int_pinned r (c * rp.layout.slotsize) inside few in
    (
      tx',
      ap (λ o. Transaction.get_int rp.blk o tx) (slot_offset_lem rp b.contents room s c reached)
          ∙ g,
      same,
      r',
    )

-- A search that starts within the block and has enough fuel returns the first slot with the flag.
pub search_from-Searched :
    (base : LockTable) (rp : RecordPage) (idx : ℕ) (b : Buffer) (room fuel n c : ℕ) (flag : Flag)
    (tx : Transaction)
    → Slotted rp b.contents room
    → IsReady n base rp.blk idx b tx
    → block_size tx ≡ room
    → c * rp.layout.slotsize ≤ room
    → room < c * rp.layout.slotsize + fuel
    → n + fuel + 1 < 2 ^ 31
    → Searched base rp idx b room fuel n c flag tx
search_from-Searched base rp idx b room zero n c flag tx s r sized reached enough few =
    absurd (omega arith)
search_from-Searched base rp idx b room (suc fuel) n c flag tx s r sized reached enough few =
    let big = (c + 1) * rp.layout.slotsize in
    let next = next_offset rp b.contents room s c reached in
    let valid =
      ap (λ w. is_valid_slot rp w c) sized ∙ is_valid_slot_lem rp b.contents room s c reached in
    elim (Bool-cases (leb big room)) [
      | inr e ↦ record {
        result = none;
        after = tx;
        returns = search_from_end rp flag fuel c tx tx 0 (valid ∙ e);
        same = refl;
        steps = n;
        counted = omega arith;
        ready = r;
        first = λ j le f q.
            let up : c + 1 ≤ j + 1 = omega arith in
            absurd (ground (arith, mul-le-mul_right rp.layout.slotsize up));
      }
      | inl e ↦
          let fits : big ≤ room = leb→le big room e in
          let (tx', read, same, r') =
            flag_read base rp idx b room n c tx s r reached fits (omega arith) in
          let v = flag_at b.contents rp.layout.slotsize c in
          elim (Bool-cases (v == flag_code flag)) [
            | inl h ↦ record {
              result = some c;
              after = tx';
              returns = search_from_hit rp flag fuel c tx tx' v (valid ∙ e) read h;
              same = same;
              steps = n + 1;
              counted = omega arith;
              ready = r';
              first = (
                omega arith,
                fits,
                (==_iff v (flag_code flag)).0 h,
                λ j le lt. absurd (omega arith),
              );
            }
            | inr h ↦
                let small = s.small in
                let small_index = index_small rp b.contents room s c reached in
                let wrapped : (c + 1) % size_mod ≡ c + 1 = omega arith in
                let rest =
                  search_from-Searched base rp idx b room fuel (n + 1) (c + 1) flag tx' s r'
                    (ap (λ m. m.lm.fm.block_size) same ∙ sized) fits (omega (arith, next))
                    (omega arith) in
                let miss = search_from_miss rp flag fuel c tx tx' v (valid ∙ e) read h in
                let counted = rest.counted in
                record {
                  result = rest.result;
                  after = rest.after;
                  returns = miss ∙ ap (λ i. search_from fuel rp i flag tx') wrapped ∙ rest.returns;
                  same = rest.same ∙ same;
                  steps = rest.steps;
                  counted = omega arith;
                  ready = rest.ready;
                  first =
                      IsFirst-step b.contents rp.layout.slotsize room (flag_code flag) c rest.result
                        (λ q. cc (h, (==_iff v (flag_code flag)).1 q)) rest.first;
                }
          ]
    ]
