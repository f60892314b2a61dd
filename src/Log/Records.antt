-- ===== src/Log/Records.antt =====
-- A log page as a stack of records, the newest on top.
use mudopdbmigration.Log.Iterator.{LogIterator, take_record}
use mudopdbmigration.Prelude.{
  ℕ, ◌+◌, ◌-◌, ◌%◌, ◌^◌, ◌≤◌, ◌<◌, ◌≡◌, refl, inr, false, List, [], ◌∷◌, ◌++◌, arith, length,
  copy_bytes, length-copy_bytes, int32_lt, ok,
}
use mudopdbmigration.Page.{
  Page, max_size, int32_mod, int32_of_size, size_of_int32, get_int, set_bytes, get_string,
  set_string, get_bytes, get_bytes_length,
}
use mudopdbmigration.Page.Access.{
  InBounds, int_bytes, set_int_lem, set_string_lem, check_bounds_lem, get_int_lem, get_string_inv,
}
use mudopdbmigration.Page.RoundTrip.{get_int-set_int, get_string-set_string, get_string-copy_ne}
use mudopdbmigration.Exec.{try_step}
use mudopdbmigration.Log
use mudopdbmigration.Log.{
  LogMgr, append, page_set_int, page_set_bytes, page_get_int, minus_int32, next_lsn,
}

-- The records of a page from an offset to its end.
abbrev pub Holds : Page → ℕ → List (List ℕ) → Type 0
Holds p o [] = o ≡ length p
Holds p o (r ∷ rs) = (get_string p o ≡ ok r) × Holds p (o + (4 + length r)) rs

-- A page whose first word is the start of its records.
pub record IsStack (p : Page) (o : ℕ) (rs : List (List ℕ)) : Type 0 where
  pub small : length p < 2 ^ 31
  pub boundary : get_int p 0 ≡ ok o
  pub below : 4 ≤ o
  pub inside : o ≤ length p
  pub records : Holds p o rs

Holds-copy :
    (p : Page) (at : ℕ) (ds : List ℕ) (o : ℕ) (rs : List (List ℕ))
    → length p < max_size
    → at + length ds ≤ o
    → Holds p o rs
    → Holds (copy_bytes p at ds) o rs
Holds-copy p at ds o [] small h k = omega (arith, length-copy_bytes p at ds)
Holds-copy p at ds o (r ∷ rs) small h (e, k) = (
  get_string-copy_ne p at ds o r small e (inr h),
  Holds-copy p at ds (o + (4 + length r)) rs small (omega arith) k,
)

module _ (s : LogMgr) (rec : List ℕ) (o : ℕ) (rs : List (List ℕ)) (h : IsStack s.logpage o rs)
    (room : 8 + length rec ≤ o) where
  abbrev recpos : ℕ
  recpos = o - (4 + length rec)

  abbrev with_record : Page
  with_record = copy_bytes s.logpage recpos (int_bytes (length rec) ++ rec)

  abbrev with_boundary : Page
  with_boundary = copy_bytes with_record 0 (int_bytes recpos)

  length-with_record : length with_record ≡ length s.logpage
  length-with_record = length-copy_bytes s.logpage recpos (int_bytes (length rec) ++ rec)

  fits : InBounds s.logpage recpos (4 + length rec)
  fits =
      let a = h.inside in
      let b = h.small in record { fits = omega arith; addressable = omega arith }

  room_for_boundary : InBounds with_record 0 4
  room_for_boundary =
      let a = h.inside in
      let b = h.small in
      record {
        fits = omega (arith, length-with_record);
        addressable = omega (arith, length-with_record);
      }

  recpos_small : recpos < 2 ^ 31
  recpos_small = let a = h.inside in let b = h.small in omega arith

  recpos_lem : Log.minus_int32 o ((int32_of_size (length rec) + 4) % int32_mod) ≡ recpos
  unfolding int32_of_size
  recpos_lem = let a = h.inside in let b = h.small in omega arith

  fits_here : int32_lt recpos 4 ≡ false
  unfolding int32_lt
  fits_here = let a = recpos_small in ground arith

  position_lem : size_of_int32 recpos ≡ recpos
  unfolding size_of_int32
  position_lem = let a = recpos_small in ground arith

  record_written : set_bytes s.logpage recpos rec ≡ ok with_record
  unfolding set_string
  record_written =
      let a = h.inside in let b = h.small in set_string_lem s.logpage recpos rec fits (omega arith)

  abbrev appended : LogMgr
  appended = record s { logpage = with_boundary; latest_lsn = s.latest_lsn + 1 }

  append_room : Log.append rec s ≡ (ok (s.latest_lsn + 1), appended)
  unfolding Log.append Log.page_get_int Log.page_set_bytes Log.page_set_int Log.next_lsn
  append_room =
      rw (h.boundary, recpos_lem, fits_here, recpos_lem, position_lem)
        (rw (try_step, record_written)
          (rw (try_step, set_int_lem with_record 0 recpos room_for_boundary) refl))

  record_read : get_string with_record recpos ≡ ok rec
  record_read =
      let a = h.inside in
      let b = h.small in
      rw (set_string_lem s.logpage recpos rec fits (omega arith)) at
        (get_string-set_string s.logpage recpos rec fits (omega arith))

  with_record-Holds : Holds with_record recpos (rec ∷ rs)
  with_record-Holds =
      let a = h.inside in
      let b = h.small in
      (
        record_read,
        Holds-copy s.logpage recpos (int_bytes (length rec) ++ rec) (recpos + (4 + length rec)) rs
            (omega arith) (omega arith) (rw ap-o h.records),
      )
    where
      ap-o : recpos + (4 + length rec) ≡ o
      ap-o = omega arith

  -- Where the log page is a stack of records, shorter than 2 ^ 31 bytes, and a record and the
  -- boundary fit in front of them, `append` returns
  -- the next log number and changes nothing but the page and the number: the new page is the
  -- stack with the record on top.
  pub append-IsStack :
      (s' : LogMgr) × (Log.append rec s ≡ (ok (s.latest_lsn + 1), s'))
      × IsStack s'.logpage recpos (rec ∷ rs)
      × (s'.latest_lsn ≡ s.latest_lsn + 1)
      × (s'.last_saved_lsn ≡ s.last_saved_lsn)
      × (s'.currentblk ≡ s.currentblk)
      × (s'.fm ≡ s.fm)
  append-IsStack =
      let a = h.inside in
      let b = h.small in
      let l = length-copy_bytes with_record 0 (int_bytes recpos) in
      (
        appended,
        append_room,
        record {
          small = omega (arith, l, length-with_record);
          boundary =
              rw (set_int_lem with_record 0 recpos room_for_boundary) at
                (get_int-set_int with_record 0 recpos room_for_boundary (omega arith));
          below = omega arith;
          inside = omega (arith, l, length-with_record);
          records =
              Holds-copy with_record 0 (int_bytes recpos) recpos (rec ∷ rs)
                (omega (arith, length-with_record)) (omega arith) with_record-Holds;
        },
        refl,
        refl,
        refl,
        refl,
      )

module _ (p : Page) (o : ℕ) (r : List ℕ) (small : length p < 2 ^ 31)
    (e : get_string p o ≡ ok r) where
  get_bytes_lem : get_bytes p o ≡ ok (o + 4)
  unfolding get_bytes
  get_bytes_lem =
      let (b, w, _, l) = get_string_inv p o r (omega arith) e in
      let f = b.fits in
      let h : InBounds p o 4 = record { fits = omega arith; addressable = omega arith } in
      let k : InBounds p (o + 4) (length r) = record {
        fits = omega arith;
        addressable = omega arith;
      } in
      ground (
        arith,
        get_int_lem p o h,
        check_bounds_lem p o 4 h,
        check_bounds_lem p (o + 4) (length r) k,
        w,
      )

  get_bytes_length_lem : get_bytes_length p o ≡ ok (length r)
  unfolding get_bytes_length
  get_bytes_length_lem =
      let (b, w, _, l) = get_string_inv p o r (omega arith) e in
      let f = b.fits in
      let h : InBounds p o 4 = record { fits = omega arith; addressable = omega arith } in
      ground (arith, get_int_lem p o h, check_bounds_lem p o 4 h, w)

position_of_small : (o : ℕ) → o < 2 ^ 31 → size_of_int32 o ≡ o
unfolding size_of_int32
position_of_small o h = ground arith

next_of_small :
    (o n : ℕ) → o + (4 + n) ≤ 2 ^ 31 → (o + (4 + int32_of_size n)) % int32_mod ≡ o + (4 + n)
unfolding int32_of_size
next_of_small o n h = omega arith

-- Over the records of a page shorter than 2 ^ 31 bytes an iterator at the start of one takes that record, and then stands at the
-- start of the next.
pub take_record-Holds :
    (it : LogIterator) (r : List ℕ) (rs : List (List ℕ))
    → length it.page < 2 ^ 31
    → Holds it.page it.currentpos (r ∷ rs)
    → (it' : LogIterator) × (take_record it ≡ ok (r, it'))
      × Holds it'.page it'.currentpos rs
      × (it'.page ≡ it.page)
      × (it'.blk ≡ it.blk)
unfolding take_record
take_record-Holds it r rs small (e, h) =
    let o = it.currentpos in
    let (b, _, same, _) = get_string_inv it.page o r (omega arith) e in
    let f = b.fits in
    let at : size_of_int32 o ≡ o = position_of_small o (omega arith) in
    let next : (o + (4 + int32_of_size (length r))) % int32_mod ≡ o + (4 + length r) =
      next_of_small o (length r) (omega arith) in
    (
      record it { currentpos = o + (4 + length r) },
      rw
          (
            at,
            get_bytes_lem it.page o r small e,
            get_bytes_length_lem it.page o r small e,
            next,
            ← same,
          )
          refl,
      h,
      refl,
      refl,
    )
