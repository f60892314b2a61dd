-- ===== src/Materialize/GroupBy/Totals.antt =====
-- The aggregates of a group, function by function.
use mudopdbmigration.Page.{int32_mod}
use mudopdbmigration.Constant.{Constant, int_val}
use mudopdbmigration.Prelude.{
  ℕ, ◌+◌, ◌%◌, ◌^◌, ◌<◌, ◌≡◌, refl, sym, ap, subst, ◌∙◌, ◌≢◌, false, some, List, [], ◌∷◌, arith,
  bytes_eq, bytes_eq_refl, bytes_eq_iff, length, Result, ok, >>=-eq-ok, ok-injective,
}
use mudopdbmigration.Query.Scan.{Row}
use mudopdbmigration.Materialize.Aggregate.{
  AggregationFn, count_fn, max_fn, process_first, process_next, field_name, value,
}
use mudopdbmigration.Materialize.Aggregate.Meaning.{
  further, over_group, over_group-count, over_group-max, Valued, IsOneOf, IsAbove,
}
use mudopdbmigration.Materialize.GroupBy.{each_fn, aggregate_val}
use mudopdbmigration.Materialize.GroupBy.Groups.{aggregated}

-- What the aggregation function needs of a group of rows: fewer than 2^64 rows to count, a value of
-- the field in every row for a maximum.
abbrev pub Measures : AggregationFn → List Row → Type 0
Measures (count_fn fld old) rows = length rows < 2 ^ 64
Measures (max_fn fld old) rows = (cs : List Constant) × Valued fld rows cs

-- The number of the rows, as an `int`, or the greatest of their values.
abbrev pub IsAggregate : AggregationFn → List Row → Constant → Type 0
IsAggregate (count_fn fld old) rows c = c ≡ int_val (length rows % int32_mod)
IsAggregate (max_fn fld old) rows c =
    (cs : List Constant) × Valued fld rows cs × IsOneOf c cs × IsAbove c cs

-- Two functions that differ at most in what they have collected.
abbrev pub IsLike : AggregationFn → AggregationFn → Type 0
IsLike (count_fn fld old) (count_fn fld' now) = fld' ≡ fld
IsLike (max_fn fld old) (max_fn fld' now) = fld' ≡ fld
IsLike (count_fn fld old) (max_fn fld' now) = ⊥
IsLike (max_fn fld old) (count_fn fld' now) = ⊥

abbrev pub AllLike : List AggregationFn → List AggregationFn → Type 0
AllLike [] [] = Unit
AllLike (f ∷ fs) (g ∷ gs) = IsLike f g × AllLike fs gs
AllLike [] (g ∷ gs) = ⊥
AllLike (f ∷ fs) [] = ⊥

pub AllLike-refl : (fs : List AggregationFn) → AllLike fs fs
AllLike-refl [] = tt
AllLike-refl (count_fn fld old ∷ fs) = (refl, AllLike-refl fs)
AllLike-refl (max_fn fld old ∷ fs) = (refl, AllLike-refl fs)

like-field_name : (f g : AggregationFn) → IsLike f g → field_name g ≡ field_name f
unfolding field_name
like-field_name (count_fn fld old) (count_fn fld' now) h = rw h refl
like-field_name (max_fn fld old) (max_fn fld' now) h = rw h refl
like-field_name (count_fn fld old) (max_fn fld' now) h = absurd h
like-field_name (max_fn fld old) (count_fn fld' now) h = absurd h

-- A function that went over a group, and the value that it then has.
record Total (f g : AggregationFn) (r : Row) (same : List Row) : Type 0 where
  after : AggregationFn
  returns : over_group r same g ≡ ok after
  like : IsLike f after
  c : Constant
  val : value after ≡ some c
  aggregate : IsAggregate f (r ∷ same) c

total :
    (f g : AggregationFn) (r : Row) (same : List Row)
    → IsLike f g
    → Measures f (r ∷ same)
    → Total f g r same
unfolding value
total (count_fn fld old) (count_fn fld' now) r same l h = record {
  after = count_fn fld' (1 + length same);
  returns = over_group-count fld' now r same (omega arith);
  like = l;
  c = int_val ((1 + length same) % int32_mod);
  val = refl;
  aggregate = ap (λ n. int_val (n % int32_mod)) (omega arith);
}
total (max_fn fld old) (max_fn fld' now) r same l (cs, h) =
    let v : Valued fld' (r ∷ same) cs = subst (λ q. Valued q (r ∷ same) cs) (sym l) h in
    let (m, e, one, above) = over_group-max fld' now r same cs v in
    record {
      after = max_fn fld' (some m);
      returns = e;
      like = l;
      c = m;
      val = refl;
      aggregate = (cs, h, one, above);
    }
total (count_fn fld old) (max_fn fld' now) r same l h = absurd l
total (max_fn fld old) (count_fn fld' now) r same l h = absurd l

aggregated-cons :
    (f f' : AggregationFn) (fs fs' : List AggregationFn) (same : List Row)
    → further same f ≡ ok f'
    → aggregated fs same ≡ ok fs'
    → aggregated (f ∷ fs) same ≡ ok (f' ∷ fs')
unfolding further aggregated each_fn
aggregated-cons f f' fs fs' [] e es =
    ap ok (ap (λ q. q ∷ fs) (ok-injective e) ∙ ap (λ q. f' ∷ q) (ok-injective es))
aggregated-cons f f' fs fs' (r ∷ same) e es =
    let (g, one, more) = >>=-eq-ok (process_next r f) (λ q. further same q) e in
    let (gs, ones, mores) = >>=-eq-ok (each_fn (process_next r) fs) (λ q. aggregated q same) es in
    rw (one, ones) (aggregated-cons g f' gs fs' same more mores)

-- What all functions need of a group of rows.
abbrev pub AllMeasure : List AggregationFn → List Row → Type 0
AllMeasure [] rows = Unit
AllMeasure (f ∷ fs) rows = Measures f rows × AllMeasure fs rows

-- The name is not that of a function.
abbrev pub Apart : List ℕ → List AggregationFn → Type 0
Apart name [] = Unit
Apart name (f ∷ fs) = (name ≢ field_name f) × Apart name fs

-- The functions have different names.
abbrev pub AllApart : List AggregationFn → Type 0
AllApart [] = Unit
AllApart (f ∷ fs) = Apart (field_name f) fs × AllApart fs

-- The record has the aggregate of each function over the rows under its name.
abbrev pub HasAggregates : List AggregationFn → List Row → Row → Type 0
HasAggregates [] rows out = Unit
HasAggregates (f ∷ fs) rows out =
    ((c : Constant) × (out (field_name f) ≡ ok c) × IsAggregate f rows c)
    × HasAggregates fs rows out

-- The calls of all functions over a group, and what the functions then have.
pub record Totals (fs gs : List AggregationFn) (r : Row) (same : List Row) : Type 0 where
  pub started : List AggregationFn
  pub after : List AggregationFn
  pub first : each_fn (process_first r) gs ≡ ok started
  pub collected : aggregated started same ≡ ok after
  pub like : AllLike fs after
  pub has : HasAggregates fs (r ∷ same) (aggregate_val after)

aggregate_val-head :
    (g : AggregationFn) (gs : List AggregationFn) (name : List ℕ) (c : Constant)
    → field_name g ≡ name
    → value g ≡ some c
    → aggregate_val (g ∷ gs) name ≡ ok c
unfolding aggregate_val
aggregate_val-head g gs name c e v = rw e (rw (bytes_eq_refl name) (rw v refl))

aggregate_val-tail :
    (g : AggregationFn) (gs : List AggregationFn) (name : List ℕ)
    → field_name g ≢ name
    → aggregate_val (g ∷ gs) name ≡ aggregate_val gs name
unfolding aggregate_val
aggregate_val-tail g gs name ne =
    let apart : bytes_eq (field_name g) name ≡ false =
      ground (arith, ne, bytes_eq_iff (field_name g) name) in
    rw apart refl

HasAggregates-tail :
    (g : AggregationFn) (gs fs : List AggregationFn) (rows : List Row)
    → Apart (field_name g) fs
    → HasAggregates fs rows (aggregate_val gs)
    → HasAggregates fs rows (aggregate_val (g ∷ gs))
HasAggregates-tail g gs [] rows a h = tt
HasAggregates-tail g gs (f ∷ fs) rows (ne, a) ((c, e, is), h) =
    ((c, aggregate_val-tail g gs (field_name f) ne ∙ e, is), HasAggregates-tail g gs fs rows a h)

each_fn-cons :
    (process : AggregationFn → Result AggregationFn) (f f' : AggregationFn)
    (fs fs' : List AggregationFn)
    → process f ≡ ok f'
    → each_fn process fs ≡ ok fs'
    → each_fn process (f ∷ fs) ≡ ok (f' ∷ fs')
unfolding each_fn
each_fn-cons process f f' fs fs' e es = rw (e, es) refl

aggregated-nil : (same : List Row) → aggregated [] same ≡ ok []
unfolding aggregated each_fn
aggregated-nil [] = refl
aggregated-nil (r ∷ same) = aggregated-nil same

pub totals :
    (fs gs : List AggregationFn) (r : Row) (same : List Row)
    → AllLike fs gs
    → AllApart fs
    → AllMeasure fs (r ∷ same)
    → Totals fs gs r same
unfolding over_group each_fn
totals [] [] r same l a m = record {
  started = [];
  after = [];
  first = refl;
  collected = aggregated-nil same;
  like = tt;
  has = tt;
}
totals (f ∷ fs) (g ∷ gs) r same (l, ls) (a, as') (m, ms) =
    let t = total f g r same l m in
    let ts = totals fs gs r same ls as' ms in
    let (h, one, more) = >>=-eq-ok (process_first r g) (λ q. further same q) t.returns in
    let name = like-field_name f t.after t.like in
    record {
      started = h ∷ ts.started;
      after = t.after ∷ ts.after;
      first = each_fn-cons (process_first r) g h gs ts.started one ts.first;
      collected = aggregated-cons h t.after ts.started ts.after same more ts.collected;
      like = (t.like, ts.like);
      has = (
        (t.c, aggregate_val-head t.after ts.after (field_name f) t.c name t.val, t.aggregate),
        HasAggregates-tail t.after ts.after fs (r ∷ same) (subst (λ q. Apart q fs) (sym name) a)
            ts.has,
      );
    }
totals [] (g ∷ gs) r same l a m = absurd l
totals (f ∷ fs) [] r same l a m = absurd l
