-- ===== src/Materialize/GroupBy/Summary.antt =====
-- What a client of a group-by scan gets: a record of keys and aggregates for each group.
use mudopdbmigration.Schema.Fields.{IsIn}
use mudopdbmigration.Prelude.{
  ℕ, suc, ◌<◌, ◌≡◌, refl, sym, ap, ◌↔◌, inl, inr, true, some, List, [], ◌∷◌, ◌++◌, arith,
  Bool-cases, bytes_eq, bytes_eq_iff, length, ok, ◌>>=◌,
}
use mudopdbmigration.Query.Scan.{Row, Runs, Scan, drain}
use mudopdbmigration.Materialize.Aggregate.{AggregationFn, field_name, GroupValue}
use mudopdbmigration.Materialize.GroupBy.{
  GroupByScan, is_group_field, key_val, aggregate_val, group_row, group_before_first, group_by_scan,
}
use mudopdbmigration.Materialize.GroupBy.Groups.{
  Grouped, all_grouped, one_group, AllAlike, EndsGroup, group_by_scan-groups,
}
use mudopdbmigration.Materialize.GroupBy.Values.{AgreeOn, HasValues, DifferIn}
use mudopdbmigration.Materialize.GroupBy.Keys.{KeysOf, keys_of, agree_same, differ_other}
use mudopdbmigration.Materialize.GroupBy.Totals.{
  AllLike, AllLike-refl, AllMeasure, AllApart, HasAggregates, totals,
}

abbrev pub AllAgree : List (List ℕ) → Row → List Row → Type 0
AllAgree fields r [] = Unit
AllAgree fields r (r' ∷ rs) = AgreeOn fields r r' × AllAgree fields r rs

-- Where rows follow, the first of them is of another group.
abbrev pub EndsBy : List (List ℕ) → Row → List Row → Type 0
EndsBy fields r [] = Unit
EndsBy fields r (r' ∷ rs) = HasValues fields r' × DifferIn fields r r'

-- The rows fall into groups: stretches of rows with the same values in the fields, a first row and
-- the others, where the row behind a stretch has another value in one of the fields.
pub data Stretches (fields : List (List ℕ)) (fns : List AggregationFn)
    : List Row → List (Row × List Row) → Type 0 where
  no_rows : Stretches fields fns [] []
  stretch :
      (r : Row) (same others : List Row) (gs : List (Row × List Row))
      → HasValues fields r
      → AllAgree fields r same
      → EndsBy fields r others
      → AllMeasure fns (r ∷ same)
      → Stretches fields fns others gs
      → Stretches fields fns (r ∷ same ++ others) ((r, same) ∷ gs)

-- The record has in each of the fields what the row has.
abbrev pub HasKeys : List (List ℕ) → Row → Row → Type 0
HasKeys [] r out = Unit
HasKeys (f ∷ fields) r out = (out f ≡ r f) × HasKeys fields r out

-- One record for each group: its keys, and the aggregates over all its rows.
abbrev pub Summaries :
    List (List ℕ) → List AggregationFn → List (Row × List Row) → List Row → Type 0
Summaries fields fns [] [] = Unit
Summaries fields fns ((r, same) ∷ gs) (out ∷ outs) =
    HasKeys fields r out × HasAggregates fns (r ∷ same) out × Summaries fields fns gs outs
Summaries fields fns [] (out ∷ outs) = ⊥
Summaries fields fns (g ∷ gs) [] = ⊥

-- No function has the name of a group field.
abbrev pub NoneIn : List (List ℕ) → List AggregationFn → Type 0
NoneIn fields [] = Unit
NoneIn fields (f ∷ fs) = (IsIn (field_name f) fields → ⊥) × NoneIn fields fs

is_group_field_iff :
    (fields : List (List ℕ)) (f : List ℕ) → (is_group_field fields f ≡ true) ↔ IsIn f fields
unfolding is_group_field
is_group_field_iff [] f = (λ h. absurd cc, λ h. absurd h)
is_group_field_iff (g ∷ fields) f =
    let ih = is_group_field_iff fields f in
    elim (Bool-cases (bytes_eq g f)) [
      | inl e ↦ (λ h. inl (sym ((bytes_eq_iff g f).0 e)), λ h. rw e refl)
      | inr ne ↦ (
        λ h. inr (ih.0 (rw ne at h)),
        λ h. elim h [
          | inl same ↦ absurd (let q = (bytes_eq_iff g f).1 (sym same) in cc)
          | inr later ↦ rw ne (ih.1 later)
        ],
      )
    ]

row-HasKeys :
    (fields sub : List (List ℕ)) (r : Row) (k : KeysOf fields r) (fns : List AggregationFn)
    → ((f : List ℕ) → IsIn f sub → IsIn f fields)
    → HasValues sub r
    → HasKeys sub r (group_row fields (some k.vals) fns)
unfolding group_row
row-HasKeys fields [] r k fns i h = tt
row-HasKeys fields (f ∷ sub) r k fns i ((c, v), h) =
    let named = (is_group_field_iff fields f).1 (i f (inl refl)) in
    let got = k.has f c (i f (inl refl)) v in
    (rw named (rw (key_val, got) (sym v)), row-HasKeys fields sub r k fns (λ g m. i g (inr m)) h)

row-HasAggregates :
    (fields : List (List ℕ)) (vals : GroupValue) (after fns : List AggregationFn) (rows : List Row)
    → NoneIn fields fns
    → HasAggregates fns rows (aggregate_val after)
    → HasAggregates fns rows (group_row fields (some vals) after)
unfolding group_row
row-HasAggregates fields vals after [] rows n h = tt
row-HasAggregates fields vals after (f ∷ fns) rows (n, ns) ((c, e, is), h) =
    let other = is_group_field_iff fields (field_name f) in
    (
      (
        c,
        elim (Bool-cases (is_group_field fields (field_name f))) [
          | inl named ↦ absurd (n (other.0 named))
          | inr unnamed ↦ rw unnamed e
        ],
        is,
      ),
      row-HasAggregates fields vals after fns rows ns h,
    )

AllAgree-AllAlike :
    (fields : List (List ℕ)) (r : Row) (k : KeysOf fields r) (same : List Row)
    → AllAgree fields r same
    → AllAlike fields k.vals same
AllAgree-AllAlike fields r k [] h = tt
AllAgree-AllAlike fields r k (r' ∷ same) (a, h) =
    (agree_same fields r r' k a, AllAgree-AllAlike fields r k same h)

EndsBy-EndsGroup :
    (fields : List (List ℕ)) (r : Row) (k : KeysOf fields r) (others : List Row)
    → EndsBy fields r others
    → EndsGroup fields k.vals others
EndsBy-EndsGroup fields r k [] h = tt
EndsBy-EndsGroup fields r k (r' ∷ others) (v, d) = differ_other fields r r' k v d

record Summed (fields : List (List ℕ)) (fns now : List AggregationFn) (rows : List Row)
    (gs : List (Row × List Row)) : Type 0 where
  outs : List Row
  grouped : Grouped fields now rows outs
  summaries : Summaries fields fns gs outs
  as_many : length outs ≡ length gs

summed :
    (fields : List (List ℕ)) (fns now : List AggregationFn) (rows : List Row)
    (gs : List (Row × List Row))
    → AllApart fns
    → NoneIn fields fns
    → AllLike fns now
    → Stretches fields fns rows gs
    → Summed fields fns now rows gs
summed fields fns now _ _ a n l no_rows = record {
  outs = [];
  grouped = all_grouped now;
  summaries = tt;
  as_many = refl;
}
summed fields fns now _ _ a n l (stretch r same others gs v agree ends m rest) =
    let k = keys_of fields r v in
    let t = totals fns now r same l a m in
    let ih = summed fields fns t.after others gs a n t.like rest in
    record {
      outs = group_row fields (some k.vals) t.after ∷ ih.outs;
      grouped =
          one_group now t.started t.after r same others ih.outs k.vals t.first k.made
            (AllAgree-AllAlike fields r k same agree) (EndsBy-EndsGroup fields r k others ends)
            t.collected ih.grouped;
      summaries = (
        row-HasKeys fields fields r k t.after (λ f i. i) v,
        row-HasAggregates fields k.vals t.after fns (r ∷ same) n t.has,
        ih.summaries,
      );
      as_many = ap suc ih.as_many;
    }

-- Grouping. The scan below gives the list of rows `runs.all`, which falls into stretches of rows
-- that have the same values in the group fields, where neighbouring stretches differ in one of the
-- fields. Every row has a value in each group field and in each field whose maximum is asked for, a
-- stretch has fewer than 2^64 rows if rows are counted, and the names of the aggregates differ from
-- each other and from the group fields. Then `before_first` and the client's loop give one record
-- for each stretch, in order. Under each group field it has the value of the stretch, under the name
-- of each counting function the number of the rows of the stretch as an `int`, and under the name of
-- each maximum a value of one of its rows that no value of its rows exceeds. The fuel exceeds the
-- number of rows, the rounds that of stretches.
pub group_by_scan-Summaries :
    {S : Type 0} {Good : S → Type 0} {scan : Scan S} (runs : Runs Good scan) (g : GroupByScan S)
    (gs : List (Row × List Row)) (fuel rounds : ℕ)
    → Good g.s
    → AllApart g.aggfns
    → NoneIn g.groupfields g.aggfns
    → Stretches g.groupfields g.aggfns (runs.all g.s) gs
    → length (runs.all g.s) < fuel
    → length gs < rounds
    → (outs : List Row) × ((do
      g' ← group_before_first scan g
      drain (group_by_scan scan fuel) rounds g')
        ≡ ok (some outs))
      × Summaries g.groupfields g.aggfns gs outs
group_by_scan-Summaries {scan = scan} runs g gs fuel rounds good a n st lt1 lt2 =
    let s =
      summed g.groupfields g.aggfns g.aggfns (runs.all g.s) gs a n (AllLike-refl g.aggfns) st in
    let many = s.as_many in
    (
      s.outs,
      group_by_scan-groups runs g s.outs fuel rounds good s.grouped lt1 (omega arith),
      s.summaries,
    )
