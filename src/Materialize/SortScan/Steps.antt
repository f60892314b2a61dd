-- ===== src/Materialize/SortScan/Steps.antt =====
-- One step of a sort scan gives the head of the merged records that are left.
use mudopdbmigration.Prelude.{
  ℕ, ◌≡◌, refl, sym, ap, subst, ◌∙◌, inl, inr, Bool, true, false, Option, none, some, List, [], ◌∷◌,
  if◌then◌else◌, Bool-cases, ok,
}
use mudopdbmigration.Query.Scan.{Scan, Runs, Row}
use mudopdbmigration.Materialize.Compare.Order.{IsComparable, less, comes_first-less}
use mudopdbmigration.Materialize.SortScan.{
  SortScan, is_at, advance, choose_run, sort_next, current_scan, sort_get_val,
}
use mudopdbmigration.Materialize.SortScan.Merge.{
  merge, AllComparable, merge-nil, merge_first, merge_second,
}
use mudopdbmigration.Materialize.SortScan.Sides.{
  side, all_of, left_of, right_of, rows_left, GoodSide, GoodSort, Advanced, advance_returns,
  side_nil, side_cons, side-IsComparable,
}

module _ {S : Type 0} {Good : S → Type 0} {scan : Scan S} (runs : Runs Good scan)
    (fields : List (List ℕ)) (keys : (a : S) → Good a → AllComparable fields (runs.rest a)) where
  -- The next record: the scan stands on the head of the merged rows.
  pub record Stepped (s : SortScan S) (r : Row) (rs : List Row) : Type 0 where
    pub after : SortScan S
    pub returns : sort_next scan fields s ≡ ok (true, after)
    pub good : GoodSort runs fields keys after
    pub left : rows_left runs fields keys after ≡ rs
    pub row : sort_get_val scan after ≡ r
    pub same1 : all_of runs fields keys after.s1 ≡ all_of runs fields keys s.s1
    pub same2 : all_of runs fields keys after.s2 ≡ all_of runs fields keys s.s2

  pub at_end :
      (s : SortScan S)
      → GoodSort runs fields keys s
      → left_of runs fields keys s ≡ []
      → right_of runs fields keys s ≡ []
      → (s' : SortScan S) × (sort_next scan fields s ≡ ok (false, s'))
        × GoodSort runs fields keys s'
        × (all_of runs fields keys s'.s1 ≡ all_of runs fields keys s.s1)
        × (all_of runs fields keys s'.s2 ≡ all_of runs fields keys s.s2)
  unfolding sort_next
  at_end s g l r =
      let (s', e, a) = advance_returns runs fields keys s g in
      let good = a.good in
      let no1 =
        side_nil runs fields keys 1 s'.currentidx s'.hasmore1 s'.s1 good.first (a.left ∙ l) in
      let no2 =
        side_nil runs fields keys 2 s'.currentidx s'.hasmore2 s'.s2 good.second (a.right ∙ r) in
      (s', rw (e) (rw (no1, no2) refl), a.good, a.same1, a.same2)

  -- The invariant of a run that is not the current one.
  waits :
      (k : ℕ) (idx idx' : Option ℕ) (more : Bool) (o : Option S)
      → is_at k idx' ≡ false
      → AllComparable fields (side runs fields keys false more o)
      → GoodSide runs fields keys k idx more o
      → GoodSide runs fields keys k idx' more o
  waits k idx idx' more none h c g = (g.0, h)
  waits k idx idx' more (some a) h c g = (g.0, rw h c)

  -- The invariant of the run that becomes the current one.
  becomes :
      (k : ℕ) (idx idx' : Option ℕ) (more : Bool) (o : Option S) (a : S)
      → is_at k idx' ≡ true
      → o ≡ some a
      → GoodSide runs fields keys k idx more o
      → GoodSide runs fields keys k idx' more o
  becomes k idx idx' more none a h e g = absurd cc
  becomes k idx idx' more (some b) a h e g = (g.0, rw h (keys b g.0))

  take_first :
      (s s' : SortScan S) (r : Row) (rs : List Row)
      → GoodSort runs fields keys s
      → advance scan s ≡ ok s'
      → Advanced runs fields keys s s'
      → left_of runs fields keys s ≡ r ∷ rs
      → choose_run scan fields s' ≡ ok 1
      → Stepped s r (merge (less fields) rs (right_of runs fields keys s))
  unfolding sort_next sort_get_val current_scan
  take_first s s' r rs g e a l chosen =
      let good = a.good in
      let (x, ex, more, v, rest) = side_cons runs fields keys s'.hasmore1 s'.s1 r rs (a.left ∙ l) in
      let c =
        subst (AllComparable fields) (sym a.right)
          (side-IsComparable runs fields keys 2 s.currentidx s.hasmore2 s.s2 g.second) in
      record {
        after = record s' { currentidx = some 1 };
        returns = rw e (rw chosen (rw more refl));
        good = record {
          first = becomes 1 s'.currentidx (some 1) s'.hasmore1 s'.s1 x refl ex good.first;
          second = waits 2 s'.currentidx (some 1) s'.hasmore2 s'.s2 refl c good.second;
          run = good.run;
        };
        left =
            ap
              (λ o.
                merge (less fields) (side runs fields keys true s'.hasmore1 o)
                  (side runs fields keys false s'.hasmore2 s'.s2))
              ex
            ∙ ap (λ q. merge (less fields) q (side runs fields keys false s'.hasmore2 s'.s2)) rest
            ∙ ap (merge (less fields) rs) a.right;
        row = rw ex v;
        same1 = a.same1;
        same2 = a.same2;
      }

  take_second :
      (s s' : SortScan S) (t : Row) (ts : List Row)
      → GoodSort runs fields keys s
      → advance scan s ≡ ok s'
      → Advanced runs fields keys s s'
      → right_of runs fields keys s ≡ t ∷ ts
      → choose_run scan fields s' ≡ ok 2
      → Stepped s t (merge (less fields) (left_of runs fields keys s) ts)
  unfolding sort_next sort_get_val current_scan
  take_second s s' t ts g e a r chosen =
      let good = a.good in
      let (x, ex, more, v, rest) =
        side_cons runs fields keys s'.hasmore2 s'.s2 t ts (a.right ∙ r) in
      let c =
        subst (AllComparable fields) (sym a.left)
          (side-IsComparable runs fields keys 1 s.currentidx s.hasmore1 s.s1 g.first) in
      record {
        after = record s' { currentidx = some 2 };
        returns = elim (Bool-cases s'.hasmore1) [
          | inl m ↦ rw e (rw chosen (rw (m, more) refl))
          | inr m ↦ rw e (rw chosen (rw (m, more) refl))
        ];
        good = record {
          first = waits 1 s'.currentidx (some 2) s'.hasmore1 s'.s1 refl c good.first;
          second = becomes 2 s'.currentidx (some 2) s'.hasmore2 s'.s2 x refl ex good.second;
          run = good.run;
        };
        left =
            ap
              (λ o.
                merge (less fields) (side runs fields keys false s'.hasmore1 s'.s1)
                  (side runs fields keys true s'.hasmore2 o))
              ex
            ∙ ap (merge (less fields) (side runs fields keys false s'.hasmore1 s'.s1)) rest
            ∙ ap (λ q. merge (less fields) q ts) a.left;
        row = rw ex v;
        same1 = a.same1;
        same2 = a.same2;
      }

  chosen_both :
      (s : SortScan S) (r t : Row) (rs ts : List Row) (lt : Bool)
      → GoodSort runs fields keys s
      → side runs fields keys false s.hasmore1 s.s1 ≡ r ∷ rs
      → side runs fields keys false s.hasmore2 s.s2 ≡ t ∷ ts
      → IsComparable fields r
      → IsComparable fields t
      → less fields r t ≡ lt
      → choose_run scan fields s ≡ ok (if lt then 1 else 2)
  unfolding choose_run
  chosen_both s r t rs ts lt g l e c d h =
      let (x, ex, m1, v, _) = side_cons runs fields keys s.hasmore1 s.s1 r rs l in
      let (y, ey, m2, w, _) = side_cons runs fields keys s.hasmore2 s.s2 t ts e in
      let returned = comes_first-less fields r t c d in
      rw (m1, m2) (rw (ex, ey) (rw (v, w) (rw returned (rw h refl))))

  chosen_first :
      (s : SortScan S) (r : Row) (rs : List Row)
      → GoodSort runs fields keys s
      → side runs fields keys false s.hasmore1 s.s1 ≡ r ∷ rs
      → side runs fields keys false s.hasmore2 s.s2 ≡ []
      → choose_run scan fields s ≡ ok 1
  unfolding choose_run
  chosen_first s r rs g l e =
      let (x, ex, m1, _, _) = side_cons runs fields keys s.hasmore1 s.s1 r rs l in
      rw (m1, side_nil runs fields keys 2 s.currentidx s.hasmore2 s.s2 g.second e) refl

  chosen_second :
      (s : SortScan S)
      → GoodSort runs fields keys s
      → side runs fields keys false s.hasmore1 s.s1 ≡ []
      → choose_run scan fields s ≡ ok 2
  unfolding choose_run
  chosen_second s g l = rw (side_nil runs fields keys 1 s.currentidx s.hasmore1 s.s1 g.first l) refl

  pub data Step (s : SortScan S) : Type 0 where
    ended : left_of runs fields keys s ≡ [] → right_of runs fields keys s ≡ [] → Step s
    stepped :
        (r : Row) (rs : List Row) → rows_left runs fields keys s ≡ r ∷ rs → Stepped s r rs → Step s

  both-Step :
      (s : SortScan S) (r t : Row) (rs ts : List Row) (lt : Bool)
      → GoodSort runs fields keys s
      → left_of runs fields keys s ≡ r ∷ rs
      → right_of runs fields keys s ≡ t ∷ ts
      → less fields r t ≡ lt
      → Step s
  both-Step s r t rs ts lt g l e h =
      let (s', adv, a) = advance_returns runs fields keys s g in
      let c =
        subst (AllComparable fields) l
          (side-IsComparable runs fields keys 1 s.currentidx s.hasmore1 s.s1 g.first) in
      let d =
        subst (AllComparable fields) e
          (side-IsComparable runs fields keys 2 s.currentidx s.hasmore2 s.s2 g.second) in
      let chosen = chosen_both s' r t rs ts lt a.good (a.left ∙ l) (a.right ∙ e) c.0 d.0 h in
      elim (Bool-cases lt) [
        | inl b ↦
            stepped r _
              (ap (λ q. merge (less fields) q (right_of runs fields keys s)) l
                ∙ ap (merge (less fields) (r ∷ rs)) e
                ∙ merge_first fields r t rs ts (h ∙ b)
                ∙ ap (λ q. r ∷ merge (less fields) rs q) (sym e))
              (take_first s s' r rs g adv a l (chosen ∙ ap (λ q. ok (if q then 1 else 2)) b))
        | inr b ↦
            stepped t _
              (ap (λ q. merge (less fields) q (right_of runs fields keys s)) l
                ∙ ap (merge (less fields) (r ∷ rs)) e
                ∙ merge_second fields r t rs ts (h ∙ b)
                ∙ ap (λ q. t ∷ merge (less fields) q ts) (sym l))
              (take_second s s' t ts g adv a e (chosen ∙ ap (λ q. ok (if q then 1 else 2)) b))
      ]

  -- The next step of a sort scan.
  pub GoodSort-Step :
      (s : SortScan S) (L R : List Row)
      → GoodSort runs fields keys s
      → left_of runs fields keys s ≡ L
      → right_of runs fields keys s ≡ R
      → Step s
  unfolding merge
  GoodSort-Step s [] [] g l e = ended l e
  GoodSort-Step s (r ∷ rs) [] g l e =
      let (s', adv, a) = advance_returns runs fields keys s g in
      stepped r _
        (ap (λ q. merge (less fields) q (right_of runs fields keys s)) l
          ∙ ap (merge (less fields) (r ∷ rs)) e
          ∙ ap (λ q. r ∷ q) (sym (merge-nil fields rs))
          ∙ ap (λ q. r ∷ merge (less fields) rs q) (sym e))
        (take_first s s' r rs g adv a l (chosen_first s' r rs a.good (a.left ∙ l) (a.right ∙ e)))
  GoodSort-Step s [] (t ∷ ts) g l e =
      let (s', adv, a) = advance_returns runs fields keys s g in
      stepped t _
        (ap (λ q. merge (less fields) q (right_of runs fields keys s)) l
          ∙ e
          ∙ ap (λ q. t ∷ merge (less fields) q ts) (sym l))
        (take_second s s' t ts g adv a e (chosen_second s' a.good (a.left ∙ l)))
  GoodSort-Step s (r ∷ rs) (t ∷ ts) g l e = both-Step s r t rs ts (less fields r t) g l e refl
