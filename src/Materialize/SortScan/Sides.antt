-- ===== src/Materialize/SortScan/Sides.antt =====
-- The records that a sort scan has still to give from each of its runs, and how a run moves on.
use mudopdbmigration.Prelude.{
  ℕ, ◌≡◌, refl, subst, ◌∙◌, inl, inr, Bool, true, false, Option, none, some, List, [], ◌∷◌, arith,
  Bool-cases, Option-cases, ok,
}
use mudopdbmigration.Query.Scan.{Scan, Runs, Row}
use mudopdbmigration.Materialize.Compare.Order.{less}
use mudopdbmigration.Materialize.SortScan.{SortScan, is_at, advance}
use mudopdbmigration.Materialize.SortScan.Merge.{merge, AllComparable}

module _ {S : Type 0} {Good : S → Type 0} {scan : Scan S} (runs : Runs Good scan)
    (fields : List (List ℕ)) (keys : (a : S) → Good a → AllComparable fields (runs.rest a)) where
  -- The records of a run that are still to come. Where the scan is to move on first, its current
  -- record is not among them.
  abbrev pub side : Bool → Bool → Option S → List Row
  side moves more none = []
  side true more (some a) = runs.rest a
  side false true (some a) = scan.get_val a ∷ runs.rest a
  side false false (some a) = []

  abbrev pub all_of : Option S → List Row
  all_of none = []
  all_of (some a) = runs.all a

  abbrev pub GoodSide : ℕ → Option ℕ → Bool → Option S → Type 0
  GoodSide k idx more none = (more ≡ false) × (is_at k idx ≡ false)
  GoodSide k idx more (some a) = Good a × AllComparable fields (side (is_at k idx) more (some a))

  abbrev pub left_of : SortScan S → List Row
  left_of s = side (is_at 1 s.currentidx) s.hasmore1 s.s1

  abbrev pub right_of : SortScan S → List Row
  right_of s = side (is_at 2 s.currentidx) s.hasmore2 s.s2

  abbrev pub rows_left : SortScan S → List Row
  rows_left s = merge (less fields) (left_of s) (right_of s)

  -- A run that has moved on: the records that are left, and the invariant for any index.
  pub record Moved (a : S) (rows all : List Row) : Type 0 where
    pub more : Bool
    pub after : S
    pub returns : scan.next a ≡ ok (more, after)
    pub good : Good after
    pub left : side false more (some after) ≡ rows
    pub same : runs.all after ≡ all

  pub next-Moved :
      (a : S) (rows all : List Row)
      → Good a
      → runs.rest a ≡ rows
      → runs.all a ≡ all
      → Moved a rows all
  next-Moved a [] all g e f =
      let (a', n, g', same) = runs.at_end a g e in
      record { more = false; after = a'; returns = n; good = g'; left = refl; same = same ∙ f }
  next-Moved a (r ∷ rs) all g e f =
      let (a', n, g', rest, same, v) = runs.at_row a r rs g e in
      record {
        more = true;
        after = a';
        returns = n;
        good = g';
        left = rw (v, rest) refl;
        same = same ∙ f;
      }

  pub side_nil :
      (k : ℕ) (idx : Option ℕ) (more : Bool) (o : Option S)
      → GoodSide k idx more o
      → side false more o ≡ []
      → more ≡ false
  side_nil k idx more none g e = g.0
  side_nil k idx false (some a) g e = refl
  side_nil k idx true (some a) g e = absurd cc

  pub side_cons :
      (more : Bool) (o : Option S) (r : Row) (rs : List Row)
      → side false more o ≡ r ∷ rs
      → (a : S) × (o ≡ some a) × (more ≡ true) × (scan.get_val a ≡ r) × (runs.rest a ≡ rs)
  side_cons more none r rs e = absurd cc
  side_cons false (some a) r rs e = absurd cc
  side_cons true (some a) r rs e = (a, refl, refl, cc, cc)

  abbrev pub IsOpen : Option S → Type 0
  IsOpen none = ⊥
  IsOpen (some a) = Unit

  -- The invariant of a sort scan: it has a first run.
  pub record GoodSort (s : SortScan S) : Type 0 where
    pub first : GoodSide 1 s.currentidx s.hasmore1 s.s1
    pub second : GoodSide 2 s.currentidx s.hasmore2 s.s2
    pub run : IsOpen s.s1

  pub record Advanced (s s' : SortScan S) : Type 0 where
    pub good : GoodSort s'
    pub left : side false s'.hasmore1 s'.s1 ≡ left_of s
    pub right : side false s'.hasmore2 s'.s2 ≡ right_of s
    pub same1 : all_of s'.s1 ≡ all_of s.s1
    pub same2 : all_of s'.s2 ≡ all_of s.s2

  is_at_one : (idx : Option ℕ) → is_at 1 idx ≡ true → is_at 2 idx ≡ false
  is_at_one none e = cc
  is_at_one (some i) e = ground arith

  advance_first :
      (a : S) (s : SortScan S)
      → s.s1 ≡ some a
      → GoodSort s
      → is_at 1 s.currentidx ≡ true
      → (s' : SortScan S) × (advance scan s ≡ ok s') × Advanced s s'
  unfolding advance
  advance_first a s e g h =
      let ga = subst (GoodSide 1 s.currentidx s.hasmore1) e g.first in
      let m = next-Moved a (runs.rest a) (runs.all a) ga.0 refl refl in
      (
        record s { s1 = some m.after; hasmore1 = m.more },
        rw (h, e) (rw m.returns refl),
        record {
          good = record {
            first = (m.good, rw h (keys m.after m.good));
            second = g.second;
            run = tt;
          };
          left = rw (h, e) m.left;
          right = rw (is_at_one s.currentidx h) refl;
          same1 = rw e m.same;
          same2 = refl;
        },
      )

  advance_second :
      (b : S) (s : SortScan S)
      → s.s2 ≡ some b
      → GoodSort s
      → is_at 1 s.currentidx ≡ false
      → is_at 2 s.currentidx ≡ true
      → (s' : SortScan S) × (advance scan s ≡ ok s') × Advanced s s'
  unfolding advance
  advance_second b s e g h k =
      let gb = subst (GoodSide 2 s.currentidx s.hasmore2) e g.second in
      let m = next-Moved b (runs.rest b) (runs.all b) gb.0 refl refl in
      (
        record s { s2 = some m.after; hasmore2 = m.more },
        rw (h, k, e) (rw m.returns refl),
        record {
          good = record {
            first = g.first;
            second = (m.good, rw k (keys m.after m.good));
            run = g.run;
          };
          left = rw h refl;
          right = rw (k, e) m.left;
          same1 = refl;
          same2 = rw e m.same;
        },
      )

  advance_none :
      (s : SortScan S)
      → GoodSort s
      → is_at 1 s.currentidx ≡ false
      → is_at 2 s.currentidx ≡ false
      → (s' : SortScan S) × (advance scan s ≡ ok s') × Advanced s s'
  unfolding advance
  advance_none s g h k = (
    s,
    rw (h, k) refl,
    record { good = g; left = rw h refl; right = rw k refl; same1 = refl; same2 = refl },
  )

  not_at :
      (k : ℕ) (idx : Option ℕ) (more : Bool) (o : Option S)
      → o ≡ none
      → GoodSide k idx more o
      → is_at k idx ≡ false
  not_at k idx more o e g = (subst (GoodSide k idx more) e g).1

  pub advance_returns :
      (s : SortScan S) → GoodSort s → (s' : SortScan S) × (advance scan s ≡ ok s') × Advanced s s'
  advance_returns s g = elim (Bool-cases (is_at 1 s.currentidx)) [
    | inl h ↦ elim (Option-cases s.s1) [
      | inl e ↦ absurd (cc (not_at 1 s.currentidx s.hasmore1 s.s1 e g.first))
      | inr (a, e) ↦ advance_first a s e g h
    ]
    | inr h ↦ elim (Bool-cases (is_at 2 s.currentidx)) [
      | inl k ↦ elim (Option-cases s.s2) [
        | inl e ↦ absurd (cc (not_at 2 s.currentidx s.hasmore2 s.s2 e g.second))
        | inr (b, e) ↦ advance_second b s e g h k
      ]
      | inr k ↦ advance_none s g h k
    ]
  ]

  pub side-IsComparable :
      (k : ℕ) (idx : Option ℕ) (more : Bool) (o : Option S)
      → GoodSide k idx more o
      → AllComparable fields (side (is_at k idx) more o)
  side-IsComparable k idx more none g = tt
  side-IsComparable k idx more (some a) g = g.1
