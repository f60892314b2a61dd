-- ===== src/Materialize/SortScan/Opened.antt =====
-- The constructor of a sort scan.
use mudopdbmigration.Prelude.{ℕ, ◌≡◌, refl, sym, subst, ◌∙◌, none, some, List, ◌∷◌, Result, ok}
use mudopdbmigration.Query.Scan.{Scan, Runs, Row}
use mudopdbmigration.Materialize.SortScan.{SortScan, new_sort_scan}
use mudopdbmigration.Materialize.SortScan.Merge.{merge, AllComparable}
use mudopdbmigration.Materialize.SortScan.Sides.{GoodSort, rows_left, next-Moved}
use mudopdbmigration.Materialize.SortScan.Rows.{merged}
use mudopdbmigration.Materialize.Compare.Order.{less}

module _ {T S : Type 0} {Good : S → Type 0} {scan : Scan S} (runs : Runs Good scan)
    (fields : List (List ℕ)) (keys : (a : S) → Good a → AllComparable fields (runs.rest a))
    (open_run : T → Result S) where
  -- A run whose scan opens before its first record.
  pub record Opens (run : T) (rows : List Row) : Type 0 where
    pub scan_of : S
    pub returns : open_run run ≡ ok scan_of
    pub good : Good scan_of
    pub rest : runs.rest scan_of ≡ rows
    pub all : runs.all scan_of ≡ rows

  -- The constructor on two runs or more opens the first two and gives a scan of their merged
  -- records, all of them still to come.
  pub new_sort_scan-GoodSort :
      (run1 run2 : T) (others : List T) (rs ts : List Row)
      → Opens run1 rs
      → Opens run2 ts
      → (s : SortScan S) × (new_sort_scan open_run scan (run1 ∷ run2 ∷ others) ≡ ok s)
        × GoodSort runs fields keys s
        × (rows_left runs fields keys s ≡ merge (less fields) rs ts)
        × (merged runs fields keys s ≡ merge (less fields) rs ts)
  unfolding new_sort_scan
  new_sort_scan-GoodSort run1 run2 others rs ts o1 o2 =
      let m1 = next-Moved runs fields keys o1.scan_of rs rs o1.good o1.rest o1.all in
      let m2 = next-Moved runs fields keys o2.scan_of ts ts o2.good o2.rest o2.all in
      let c1 = subst (AllComparable fields) (o1.rest ∙ sym m1.left) (keys o1.scan_of o1.good) in
      let c2 = subst (AllComparable fields) (o2.rest ∙ sym m2.left) (keys o2.scan_of o2.good) in
      (
        record {
          s1 = some m1.after;
          s2 = some m2.after;
          currentidx = none;
          hasmore1 = m1.more;
          hasmore2 = m2.more;
          saved1 = none;
          saved2 = none;
        },
        rw (o1.returns, o2.returns) (rw (m1.returns) (rw m2.returns refl)),
        record { first = (m1.good, c1); second = (m2.good, c2); run = tt },
        rw (m1.left, m2.left) refl,
        rw (m1.same, m2.same) refl,
      )
