-- ===== src/Materialize/SortScan/Rows.antt =====
-- A sort scan is a scan of the merged rows of its runs.
use mudopdbmigration.Prelude.{
  ℕ, ◌+◌, ◌<◌, ◌≡◌, refl, sym, ap, subst, ◌∙◌, inl, inr, Bool, true, false, Option, none, some,
  List, [], ◌∷◌, ◌++◌, arith, Bool-cases, Option-cases, length, ok, ◌>>=◌,
}
use mathlib.Core.List.{Perm}
use mudopdbmigration.Query.Scan.{Scan, Runs, Row, drain, drain-rest}
use mudopdbmigration.Materialize.SortScan.{
  SortScan, sort_before_first, sort_next, sort_scan, sort_get_val, restarted, sort_has_field,
}
use mudopdbmigration.Materialize.SortScan.Merge.{merge, AllComparable}
use mudopdbmigration.Materialize.SortScan.Sides.{
  all_of, GoodSort, IsOpen, rows_left, side, next-Moved, GoodSide, left_of, right_of,
}
use mudopdbmigration.Materialize.SortScan.Steps.{GoodSort-Step, at_end, ended, stepped}
use mudopdbmigration.Materialize.SortScan.Sorted.{IsSorted, merge-IsSorted, merge-perm}
use mudopdbmigration.Materialize.Compare.Order.{less}

module _ {S : Type 0} {Good : S → Type 0} {scan : Scan S} (runs : Runs Good scan)
    (fields : List (List ℕ)) (keys : (a : S) → Good a → AllComparable fields (runs.rest a)) where
  abbrev pub merged : SortScan S → List Row
  merged s = merge (less fields) (all_of runs fields keys s.s1) (all_of runs fields keys s.s2)

  restarted_lem :
      (a : S)
      → Good a
      → (m : Bool) × (a' : S) × (restarted scan a ≡ ok (m, a'))
        × Good a'
        × (side runs fields keys false m (some a') ≡ runs.all a)
        × AllComparable fields (side runs fields keys false m (some a'))
        × (runs.all a' ≡ runs.all a)
  restarted_lem a g =
      let (a1, e, g1, rest, all) = runs.reset a g in
      let m = next-Moved runs fields keys a1 (runs.all a) (runs.all a) g1 rest all in
      (
        m.more,
        m.after,
        rw e m.returns,
        m.good,
        m.left,
        subst (AllComparable fields) (sym (m.left ∙ sym rest)) (keys a1 g1),
        m.same,
      )

  record Reset (s : SortScan S) : Type 0 where
    after : SortScan S
    returns : sort_before_first scan s ≡ ok after
    good : GoodSort runs fields keys after
    left : rows_left runs fields keys after ≡ merged s
    same : merged after ≡ merged s

  reset_one :
      (s : SortScan S) (a a' : S) (m : Bool)
      → s.s1 ≡ some a
      → s.s2 ≡ none
      → restarted scan a ≡ ok (m, a')
      → sort_before_first scan s ≡ ok (record s { currentidx = none; s1 = some a'; hasmore1 = m })
  unfolding sort_before_first
  reset_one s a a' m e1 e2 n = rw e1 (
      rw n (
        ap
          (λ o. elim o [
            | none ↦ ok (record s { currentidx = none; s1 = some a'; hasmore1 = m })
            | some b ↦ (do
              (more2, b') ← restarted scan b
              ok (record s {
                currentidx = none;
                s1 = some a';
                hasmore1 = m;
                s2 = some b';
                hasmore2 = more2;
              }))
          ])
          e2))

  -- The first run is at its first record again, and the second one too where there is one.
  GoodSort-Reset :
      (s : SortScan S) (o1 o2 : Option S)
      → s.s1 ≡ o1
      → s.s2 ≡ o2
      → GoodSort runs fields keys s
      → Reset s
  unfolding sort_before_first
  GoodSort-Reset s none o2 e1 e2 g = absurd (subst (IsOpen runs fields keys) e1 g.run)
  GoodSort-Reset s (some a) none e1 e2 g =
      let ga = subst (GoodSide runs fields keys 1 s.currentidx s.hasmore1) e1 g.first in
      let gb = subst (GoodSide runs fields keys 2 s.currentidx s.hasmore2) e2 g.second in
      let (m, a', n, g', left, c, same) = restarted_lem a ga.0 in
      record {
        after = record s { currentidx = none; s1 = some a'; hasmore1 = m };
        returns = reset_one s a a' m e1 e2 n;
        good = record { first = (g', c); second = rw e2 (gb.0, refl); run = tt };
        left = rw (e1, e2) (rw left refl);
        same = rw (e1, e2) (rw same refl);
      }
  GoodSort-Reset s (some a) (some b) e1 e2 g =
      let ga = subst (GoodSide runs fields keys 1 s.currentidx s.hasmore1) e1 g.first in
      let gb = subst (GoodSide runs fields keys 2 s.currentidx s.hasmore2) e2 g.second in
      let (m1, a', n1, g1, left1, c1, same1) = restarted_lem a ga.0 in
      let (m2, b', n2, g2, left2, c2, same2) = restarted_lem b gb.0 in
      record {
        after = record s {
          currentidx = none;
          s1 = some a';
          hasmore1 = m1;
          s2 = some b';
          hasmore2 = m2;
        };
        returns = rw (e1, e2) (rw (n1, n2) refl);
        good = record { first = (g1, c1); second = (g2, c2); run = tt };
        left = rw (e1, e2) (rw (left1, left2) refl);
        same = rw (e1, e2) (rw (same1, same2) refl);
      }

  sort_end :
      (s : SortScan S)
      → GoodSort runs fields keys s
      → rows_left runs fields keys s ≡ []
      → (s' : SortScan S) × (sort_next scan fields s ≡ ok (false, s'))
        × GoodSort runs fields keys s'
        × (merged s' ≡ merged s)
  sort_end s g e = elim (GoodSort-Step runs fields keys s _ _ g refl refl) [
    | ended l r ↦
        let (s', n, g', same1, same2) = at_end runs fields keys s g l r in
        (s', n, g', rw (same1, same2) refl)
    | stepped r rs e' st ↦ absurd cc
  ]

  none_left :
      (s : SortScan S)
      → left_of runs fields keys s ≡ []
      → right_of runs fields keys s ≡ []
      → rows_left runs fields keys s ≡ []
  unfolding merge
  none_left s l n = ap (λ q. merge (less fields) q (right_of runs fields keys s)) l ∙ n

  sort_row :
      (s : SortScan S) (r : Row) (rs : List Row)
      → GoodSort runs fields keys s
      → rows_left runs fields keys s ≡ r ∷ rs
      → (s' : SortScan S) × (sort_next scan fields s ≡ ok (true, s'))
        × GoodSort runs fields keys s'
        × (rows_left runs fields keys s' ≡ rs)
        × (merged s' ≡ merged s)
        × (sort_get_val scan s' ≡ r)
  sort_row s r rs g e = elim (GoodSort-Step runs fields keys s _ _ g refl refl) [
    | ended l n ↦ absurd (cc (none_left s l n))
    | stepped r' rs' e' st ↦
        let both = sym e' ∙ e in
        (
          st.after,
          st.returns,
          st.good,
          st.left ∙ cc both,
          rw (st.same1, st.same2) refl,
          st.row ∙ cc both,
        )
  ]

  sort_fields :
      (s : SortScan S) (f : List ℕ)
      → GoodSort runs fields keys s
      → sort_has_field scan s f ≡ runs.names f
  sort_fields s f g = elim (Option-cases s.s1) [
    | inl e ↦ absurd (subst (IsOpen runs fields keys) e g.run)
    | inr (a, e) ↦
        let ga = subst (GoodSide runs fields keys 1 s.currentidx s.hasmore1) e g.first in
        rw e (runs.fields a ga.0 f)
  ]

  -- A sort scan is itself a scan of a list of rows.
  pub sort_runs : Runs (GoodSort runs fields keys) (sort_scan scan fields)
  unfolding sort_scan
  sort_runs = record {
    names = runs.names;
    all = merged;
    rest = rows_left runs fields keys;
    fields = λ s g f. sort_fields s f g;
    reset = λ s g.
        let r = GoodSort-Reset s s.s1 s.s2 refl refl g in
        (r.after, r.returns, r.good, r.left, r.same);
    at_end = λ s g e. sort_end s g e;
    at_row = λ s r rs g e. sort_row s r rs g e;
  }

  abbrev GoodRun : Option S → Type 0
  GoodRun none = Unit
  GoodRun (some a) = Good a

  all-IsComparable : (o : Option S) → GoodRun o → AllComparable fields (all_of runs fields keys o)
  all-IsComparable none g = tt
  all-IsComparable (some a) g =
      let (a', e, g', rest, all) = runs.reset a g in subst (AllComparable fields) rest (keys a' g')

  good_run :
      (k : ℕ) (idx : Option ℕ) (more : Bool) (o : Option S)
      → GoodSide runs fields keys k idx more o
      → GoodRun o
  good_run k idx more none g = tt
  good_run k idx more (some a) g = g.0

  length-merge :
      (lt : Row → Row → Bool) (rs ts : List Row) → length (merge lt rs ts) ≡ length rs + length ts
  unfolding merge
  length-merge lt [] ts = omega arith
  length-merge lt (r ∷ rs) [] = omega arith
  length-merge lt (r ∷ rs) (t ∷ ts) = elim (Bool-cases (lt r t)) [
    | inl h ↦ rw (merge, h) (let e = length-merge lt rs (t ∷ ts) in omega arith)
    | inr h ↦ rw (merge, h) (let e = length-merge lt (r ∷ rs) ts in omega arith)
  ]

  -- A sort scan over one or two runs is a merge sort's last step. The scans of the runs give lists
  -- of rows, each row with a value in every sort field, and each list is sorted by these fields.
  -- Then `before_first` and the client's loop, with more fuel than there are records, give
  -- every record of the runs once, in sorted order.
  pub sort_scan-IsSorted :
      (s : SortScan S) (fuel : ℕ)
      → GoodSort runs fields keys s
      → IsSorted fields (all_of runs fields keys s.s1)
      → IsSorted fields (all_of runs fields keys s.s2)
      → length (all_of runs fields keys s.s1) + length (all_of runs fields keys s.s2) < fuel
      → (out : List Row) × ((do
        s' ← sort_before_first scan s
        drain (sort_scan scan fields) fuel s')
          ≡ ok (some out))
        × IsSorted fields out
        × Perm out (all_of runs fields keys s.s1 ++ all_of runs fields keys s.s2)
  unfolding sort_runs
  sort_scan-IsSorted s fuel g sorted1 sorted2 lt =
      let r = GoodSort-Reset s s.s1 s.s2 refl refl g in
      let c1 = all-IsComparable s.s1 (good_run 1 s.currentidx s.hasmore1 s.s1 g.first) in
      let c2 = all-IsComparable s.s2 (good_run 2 s.currentidx s.hasmore2 s.s2 g.second) in
      let n =
        length-merge (less fields) (all_of runs fields keys s.s1) (all_of runs fields keys s.s2) in
      (
        merged s,
        rw r.returns (drain-rest sort_runs fuel r.after (merged s) r.good r.left (omega arith)),
        merge-IsSorted fields _ _ c1 c2 sorted1 sorted2,
        merge-perm (less fields) _ _,
      )
