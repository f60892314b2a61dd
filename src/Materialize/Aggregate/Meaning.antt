-- ===== src/Materialize/Aggregate/Meaning.antt =====
-- What the aggregation functions compute over the records of a group.
use mudopdbmigration.Prelude.{
  ℕ, ◌+◌, ◌%◌, ◌^◌, ◌<◌, ◌≡◌, refl, sym, ap, subst, ◌∙◌, ◌⊎◌, inl, inr, Bool, true, false, Option,
  some, List, [], ◌∷◌, arith, if◌then◌else◌, Bool-cases, length, Result, ok, ◌>>=◌,
}
use mudopdbmigration.Constant.{Constant, constant_gt, constant_lt}
use mudopdbmigration.Constant.Order.{IsInt32, constant_trichotomy, constant_lt_trans}
use mudopdbmigration.Query.Scan.{Row}
use mudopdbmigration.Materialize.Aggregate.{
  AggregationFn, count_fn, max_fn, process_first, process_next,
}

-- The calls that a group-by scan makes of one function for a group.
unfoldable pub further : List Row → AggregationFn → Result AggregationFn
further [] f = ok f
further (r ∷ rs) f = do f' ← process_next r f; further rs f'

unfoldable pub over_group : Row → List Row → AggregationFn → Result AggregationFn
unfolding further
over_group r rs f = do f' ← process_first r f; further rs f'

further-count :
    (fld : List ℕ) (rs : List Row) (n : ℕ)
    → n + length rs < 2 ^ 64
    → further rs (count_fn fld n) ≡ ok (count_fn fld (n + length rs))
unfolding further process_next
further-count fld [] n h = ap (λ m. ok (count_fn fld m)) (omega arith)
further-count fld (r ∷ rs) n h =
    let e : (n + 1) % 2 ^ 64 ≡ n + 1 = omega arith in
    rw e (further-count fld rs (n + 1) (omega arith) ∙ ap (λ m. ok (count_fn fld m)) (omega arith))

-- The function `count`, whatever it counted before, gives the number of the records of a group,
-- where they are fewer than 2^64.
pub over_group-count :
    (fld : List ℕ) (old : ℕ) (r : Row) (rs : List Row)
    → 1 + length rs < 2 ^ 64
    → over_group r rs (count_fn fld old) ≡ ok (count_fn fld (1 + length rs))
unfolding over_group process_first
over_group-count fld old r rs h = further-count fld rs 1 h

-- Each record has a value of the field.
abbrev pub Valued : List ℕ → List Row → List Constant → Type 0
Valued fld [] [] = Unit
Valued fld [] (c ∷ cs) = ⊥
Valued fld (r ∷ rs) [] = ⊥
Valued fld (r ∷ rs) (c ∷ cs) = (r fld ≡ ok c) × IsInt32 c × Valued fld rs cs

abbrev pub IsAbove : Constant → List Constant → Type 0
IsAbove m [] = Unit
IsAbove m (c ∷ cs) = (constant_gt c m ≡ false) × IsAbove m cs

abbrev pub IsOneOf : Constant → List Constant → Type 0
IsOneOf m [] = ⊥
IsOneOf m (c ∷ cs) = (m ≡ c) ⊎ IsOneOf m cs

not_gt_refl : (u : Constant) → IsInt32 u → constant_gt u u ≡ false
not_gt_refl u i = elim (constant_trichotomy u u i i) [
  | inl (l, e, n, g, le, ge, b) ↦ g
  | inr (inl ((l, e, n, g, le, ge, b), same)) ↦ g
  | inr (inr (l, e, n, g, le, ge, b)) ↦ absurd cc
]

lt_not_gt :
    (u v : Constant) → IsInt32 u → IsInt32 v → constant_lt u v ≡ true → constant_gt u v ≡ false
lt_not_gt u v i j h = elim (constant_trichotomy u v i j) [
  | inl (l, e, n, g, le, ge, b) ↦ g
  | inr (inl ((l, e, n, g, le, ge, b), same)) ↦ g
  | inr (inr (l, e, n, g, le, ge, b)) ↦ absurd cc
]

gt_asymm :
    (u v : Constant) → IsInt32 u → IsInt32 v → constant_gt u v ≡ true → constant_gt v u ≡ false
gt_asymm u v i j h = elim (constant_trichotomy u v i j) [
  | inl (l, e, n, g, le, ge, b) ↦ absurd cc
  | inr (inl ((l, e, n, g, le, ge, b), same)) ↦ absurd cc
  | inr (inr (l, e, n, g, le, ge, b)) ↦ lt_not_gt v u j i b
]

not_gt_cases :
    (u v : Constant)
    → IsInt32 u
    → IsInt32 v
    → constant_gt u v ≡ false
    → (constant_lt u v ≡ true) ⊎ (u ≡ v)
not_gt_cases u v i j h = elim (constant_trichotomy u v i j) [
  | inl (l, e, n, g, le, ge, b) ↦ inl l
  | inr (inl (_, same)) ↦ inr same
  | inr (inr (l, e, n, g, le, ge, b)) ↦ absurd cc
]

not_gt_trans :
    (u v w : Constant)
    → IsInt32 u
    → IsInt32 v
    → IsInt32 w
    → constant_gt u v ≡ false
    → constant_gt v w ≡ false
    → constant_gt u w ≡ false
not_gt_trans u v w i j k h l = elim (not_gt_cases u v i j h) [
  | inl a ↦ elim (not_gt_cases v w j k l) [
    | inl b ↦ lt_not_gt u w i k (constant_lt_trans u v w a b)
    | inr b ↦ subst (λ x. constant_gt u x ≡ false) b h
  ]
  | inr a ↦ subst (λ x. constant_gt x w ≡ false) (sym a) l
]

record Larger (fld : List ℕ) (rs : List Row) (u : Constant) (cs : List Constant) : Type 0 where
  m : Constant
  returns : further rs (max_fn fld (some u)) ≡ ok (max_fn fld (some m))
  bounded : IsInt32 m
  above : constant_gt u m ≡ false
  all_above : IsAbove m cs
  one : (m ≡ u) ⊎ IsOneOf m cs

Larger-cons :
    (fld : List ℕ) (r : Row) (rs : List Row) (u c : Constant) (cs : List Constant) (gt : Bool)
    → IsInt32 u
    → r fld ≡ ok c
    → IsInt32 c
    → constant_gt c u ≡ gt
    → Larger fld rs (if gt then c else u) cs
    → Larger fld (r ∷ rs) u (c ∷ cs)
unfolding further process_next
Larger-cons fld r rs u c cs true i v j h l = record {
  m = l.m;
  returns = rw v (rw h l.returns);
  bounded = l.bounded;
  above = not_gt_trans u c l.m i j l.bounded (gt_asymm c u j i h) l.above;
  all_above = (l.above, l.all_above);
  one = inr l.one;
}
Larger-cons fld r rs u c cs false i v j h l = record {
  m = l.m;
  returns = rw v (rw h l.returns);
  bounded = l.bounded;
  above = l.above;
  all_above = (not_gt_trans c u l.m j i l.bounded h l.above, l.all_above);
  one = elim l.one [ inl e ↦ inl e | inr e ↦ inr (inr e) ];
}

larger :
    (fld : List ℕ) (rs : List Row) (u : Constant) (cs : List Constant)
    → IsInt32 u
    → Valued fld rs cs
    → Larger fld rs u cs
unfolding further
larger fld [] u [] i v = record {
  m = u;
  returns = refl;
  bounded = i;
  above = not_gt_refl u i;
  all_above = tt;
  one = inl refl;
}
larger fld [] u (c ∷ cs) i v = absurd v
larger fld (r ∷ rs) u [] i v = absurd v
larger fld (r ∷ rs) u (c ∷ cs) i (v, j, vs) = elim (Bool-cases (constant_gt c u)) [
  | inl h ↦ Larger-cons fld r rs u c cs true i v j h (larger fld rs c cs j vs)
  | inr h ↦ Larger-cons fld r rs u c cs false i v j h (larger fld rs u cs i vs)
]

-- The function `max`, whatever it held before, gives the value of one of the records of a group
-- that no value of the group exceeds, where each record has a value of the field.
pub over_group-max :
    (fld : List ℕ) (old : Option Constant) (r : Row) (rs : List Row) (cs : List Constant)
    → Valued fld (r ∷ rs) cs
    → (m : Constant) × (over_group r rs (max_fn fld old) ≡ ok (max_fn fld (some m)))
      × IsOneOf m cs
      × IsAbove m cs
unfolding over_group process_first
over_group-max fld old r rs [] v = absurd v
over_group-max fld old r rs (c ∷ cs) (v, i, vs) =
    let l = larger fld rs c cs i vs in (l.m, rw v l.returns, l.one, (l.above, l.all_above))
