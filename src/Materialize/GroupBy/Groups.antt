-- ===== src/Materialize/GroupBy/Groups.antt =====
-- The loop of a client over a group-by scan: one record for each stretch of equal records.
use mudopdbmigration.Prelude.{
  ℕ, zero, suc, ◌<◌, ◌≡◌, refl, ap, ◌∙◌, Bool, true, false, Option, some, List, [], ◌∷◌, ◌++◌,
  arith, length, length-append, Result, ok, ◌>>=◌, >>=-eq-ok, ok-injective,
}
use mudopdbmigration.Query.Scan.{Row, Scan, Runs, drain}
use mudopdbmigration.Materialize.Aggregate.{
  AggregationFn, process_first, process_next, GroupValue, new_group_value, group_value_ne,
}
use mudopdbmigration.Materialize.GroupBy.{
  GroupByScan, each_fn, gather, group_next, group_by_scan, group_row, group_by_get_val,
  group_before_first,
}

-- The aggregates after further records of a group.
unfoldable pub aggregated : List AggregationFn → List Row → Result (List AggregationFn)
aggregated fns [] = ok fns
aggregated fns (r ∷ rs) = do fns' ← each_fn (process_next r) fns; aggregated fns' rs

-- Whether the record belongs to another group.
abbrev pub Differs : List (List ℕ) → GroupValue → Bool → Row → Type 0
Differs fields vals b r =
    (gv : GroupValue) × (new_group_value r fields ≡ ok gv) × (group_value_ne vals gv ≡ b)

abbrev pub AllAlike : List (List ℕ) → GroupValue → List Row → Type 0
AllAlike fields vals [] = Unit
AllAlike fields vals (r ∷ rs) = Differs fields vals false r × AllAlike fields vals rs

abbrev pub EndsGroup : List (List ℕ) → GroupValue → List Row → Type 0
EndsGroup fields vals [] = Unit
EndsGroup fields vals (r ∷ rs) = Differs fields vals true r

-- The records in stretches of equal ones, and a record of keys and aggregates for each stretch.
pub data Grouped (fields : List (List ℕ)) : List AggregationFn → List Row → List Row → Type 0 where
  all_grouped : (fns : List AggregationFn) → Grouped fields fns [] []
  one_group :
      (fns fns1 fns2 : List AggregationFn) (r : Row) (same others out : List Row)
      (vals : GroupValue)
      → each_fn (process_first r) fns ≡ ok fns1
      → new_group_value r fields ≡ ok vals
      → AllAlike fields vals same
      → EndsGroup fields vals others
      → aggregated fns1 same ≡ ok fns2
      → Grouped fields fns2 others out
      → Grouped fields fns (r ∷ same ++ others) (group_row fields (some vals) fns2 ∷ out)

abbrev pub is_cons : List Row → Bool
is_cons [] = false
is_cons (r ∷ rs) = true

branch_true :
    {A : Type 0} {b : Bool} {x : A} (y : A) → b ≡ true → elim b [ true ↦ x | false ↦ y ] ≡ x
branch_true y e = rw e refl

branch_false :
    {A : Type 0} {b : Bool} {y : A} (x : A) → b ≡ false → elim b [ true ↦ x | false ↦ y ] ≡ y
branch_false x e = rw e refl

module _ {S : Type 0} {Good : S → Type 0} {scan : Scan S} (runs : Runs Good scan) where
  -- The records that a group-by scan has still to group: its scan stands on the first of them.
  abbrev pub ungrouped : Bool → S → List Row
  ungrouped true a = scan.get_val a ∷ runs.rest a
  ungrouped false a = []

  record Gathered (fields : List (List ℕ)) (vals : GroupValue) (fuel : ℕ) (a : S)
      (fns fns' : List AggregationFn) (others : List Row) : Type 0 where
    after : S
    returns : gather scan fields vals fuel a fns ≡ ok (is_cons others, after, fns')
    good : Good after
    left : ungrouped (is_cons others) after ≡ others

  gather_further :
      (fields : List (List ℕ)) (vals gv : GroupValue) (fuel : ℕ) (a a' : S)
      (fns fns' : List AggregationFn) (r : Row) {res : Result (Bool × S × List AggregationFn)}
      → scan.next a ≡ ok (true, a')
      → scan.get_val a' ≡ r
      → new_group_value r fields ≡ ok gv
      → group_value_ne vals gv ≡ false
      → each_fn (process_next r) fns ≡ ok fns'
      → gather scan fields vals fuel a' fns' ≡ res
      → gather scan fields vals (suc fuel) a fns ≡ res
  unfolding gather
  gather_further fields vals gv fuel a a' fns fns' r n v key ne one further =
      rw n (rw (v, key) (branch_false _ ne ∙ rw (v, one) further))

  gather_lem :
      (fields : List (List ℕ)) (vals : GroupValue) (fuel : ℕ) (a : S)
      (fns fns' : List AggregationFn) (same others : List Row)
      → Good a
      → runs.rest a ≡ same ++ others
      → AllAlike fields vals same
      → EndsGroup fields vals others
      → aggregated fns same ≡ ok fns'
      → length same < fuel
      → Gathered fields vals fuel a fns fns' others
  unfolding gather aggregated
  gather_lem fields vals zero a fns fns' same others g e alike ends agg lt = absurd (omega arith)
  gather_lem fields vals (suc fuel) a fns fns' [] [] g e alike ends agg lt =
      let (a', n, g', _) = runs.at_end a g e in
      record {
        after = a';
        returns = rw n (ap (λ q. ok (false, a', q)) (ok-injective agg));
        good = g';
        left = refl;
      }
  gather_lem fields vals (suc fuel) a fns fns' [] (r ∷ rs) g e alike (gv, key, ne) agg lt =
      let (a', n, g', rest, _, v) = runs.at_row a r rs g e in
      record {
        after = a';
        returns =
            rw n (rw (v, key) (branch_true _ ne ∙ ap (λ q. ok (true, a', q)) (ok-injective agg)));
        good = g';
        left = cc;
      }
  gather_lem fields vals (suc fuel) a fns fns' (r ∷ same) others g e ((gv, key, ne), alike) ends agg
        lt =
      let (a', n, g', rest, _, v) = runs.at_row a r (same ++ others) g e in
      let (fns1, one, more) =
        >>=-eq-ok (each_fn (process_next r) fns) (λ q. aggregated q same) agg in
      let ih =
        gather_lem fields vals fuel a' fns1 fns' same others g' rest alike ends more
          (omega arith) in
      record {
        after = ih.after;
        returns = gather_further fields vals gv fuel a a' fns fns1 r n v key ne one ih.returns;
        good = ih.good;
        left = ih.left;
      }

  -- A group-by scan before the first of some groups.
  abbrev pub before_groups :
      S → List (List ℕ) → List AggregationFn → Option GroupValue → List Row → GroupByScan S
  before_groups a fields fns vals rows = record {
    s = a;
    groupfields = fields;
    aggfns = fns;
    groupval = vals;
    moregroups = is_cons rows;
  }

  group_next_lem :
      (fields : List (List ℕ)) (fns fns1 fns2 : List AggregationFn) (old : Option GroupValue)
      (vals : GroupValue) (fuel : ℕ) (a a' : S) (r : Row) (rows others : List Row)
      → scan.get_val a ≡ r
      → each_fn (process_first r) fns ≡ ok fns1
      → new_group_value r fields ≡ ok vals
      → gather scan fields vals fuel a fns1 ≡ ok (is_cons others, a', fns2)
      → group_next scan fuel (before_groups a fields fns old (r ∷ rows))
        ≡ ok (true, before_groups a' fields fns2 (some vals) others)
  unfolding group_next
  group_next_lem fields fns fns1 fns2 old vals fuel a a' r rows others v first key gathered =
      rw (v, first) (rw (key) (rw gathered refl))

  -- The client's loop over the groups.
  drain-Grouped :
      (fields : List (List ℕ)) (fns : List AggregationFn) (rows out : List Row)
      → Grouped fields fns rows out
      → (fuel rounds : ℕ) (a : S) (old : Option GroupValue) → Good a
      → ungrouped (is_cons rows) a ≡ rows
      → length rows < fuel
      → length out < rounds
      → drain (group_by_scan scan fuel) rounds (before_groups a fields fns old rows) ≡ ok (some out)
  unfolding drain group_by_scan group_by_get_val group_next
  drain-Grouped fields fns rows out gr fuel zero a old g e lt1 lt2 = absurd (omega arith)
  drain-Grouped fields fns _ _ (all_grouped _) fuel (suc rounds) a old g e lt1 lt2 = refl
  drain-Grouped fields fns _ _
        (one_group _ fns1 fns2 r same others out vals first key alike ends agg rest) fuel
        (suc rounds) a old g e lt1 lt2 =
      let gathered =
        gather_lem fields vals fuel a fns1 fns2 same others g (cc) alike ends agg
          (omega (arith, length-append same others)) in
      let ih =
        drain-Grouped fields fns2 others out rest fuel rounds gathered.after (some vals)
          gathered.good gathered.left (omega (arith, length-append same others)) (omega arith) in
      rw
        (group_next_lem fields fns fns1 fns2 old vals fuel a gathered.after r (same ++ others)
          others (cc) first key gathered.returns)
        (rw ih refl)

  record Moved (a : S) (rows : List Row) : Type 0 where
    after : S
    returns : scan.next a ≡ ok (is_cons rows, after)
    good : Good after
    left : ungrouped (is_cons rows) after ≡ rows

  moved : (rows : List Row) (a : S) → Good a → runs.rest a ≡ rows → Moved a rows
  moved [] a g e =
      let (a', n, g', _) = runs.at_end a g e in
      record { after = a'; returns = n; good = g'; left = refl }
  moved (r ∷ rs) a g e =
      let (a', n, g', rest, _, v) = runs.at_row a r rs g e in
      record { after = a'; returns = n; good = g'; left = cc }

  -- Grouping. The scan below gives the list of rows `runs.all`, which falls into stretches of
  -- records with equal values in the group fields, neighbours differing, and every value that is
  -- asked for is there. Then `before_first` and the client's loop give one record for each
  -- stretch, in order: the values of its first record in the group fields and the aggregates over
  -- all its records. The fuel exceeds the number of records, the rounds that of groups.
  pub group_by_scan-groups :
      (g : GroupByScan S) (out : List Row) (fuel rounds : ℕ)
      → Good g.s
      → Grouped g.groupfields g.aggfns (runs.all g.s) out
      → length (runs.all g.s) < fuel
      → length out < rounds
      → (do g' ← group_before_first scan g; drain (group_by_scan scan fuel) rounds g')
        ≡ ok (some out)
  unfolding group_before_first
  group_by_scan-groups g out fuel rounds good gr lt1 lt2 =
      let (a, e, good', rest, _) = runs.reset g.s good in
      let m = moved (runs.all g.s) a good' rest in
      rw e (
        rw m.returns (
          drain-Grouped g.groupfields g.aggfns (runs.all g.s) out gr fuel rounds m.after g.groupval
            m.good m.left lt1 lt2))
