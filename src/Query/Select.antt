-- ===== src/Query/Select.antt =====
-- include/query/selectscan.hpp and src/query/selectscan.cpp: the records that satisfy a predicate.
-- The loop of `next` takes fuel. Query/Update has the methods that pass an update on to the scan
-- below.
use mudopdbmigration.Prelude.{
  ℕ, zero, suc, ◌<◌, ◌≡◌, refl, ◌∙◌, inl, inr, Bool, true, false, some, List, [], ◌∷◌, arith,
  if◌then◌else◌, Bool-cases, length, out_of_fuel, Result, ok, err, ◌>>=◌,
}
use mudopdbmigration.Query.Scan.{Scan, Runs, Row, drain}
use mudopdbmigration.Query.Predicate.{Predicate, is_satisfied}

unfoldable pub select_next : {S : Type 0} → Scan S → Predicate → ℕ → S → Result (Bool × S)
unfolding is_satisfied
select_next scan pred zero s = err out_of_fuel
select_next scan pred (suc fuel) s = do
  (more, s') ← scan.next s
  elim more [
    | false ↦ ok (false, s')
    | true ↦ do
      satisfied ← is_satisfied pred (scan.get_val s')
      elim satisfied [ true ↦ ok (true, s') | false ↦ select_next scan pred fuel s' ]
  ]

unfoldable pub select_scan : {S : Type 0} → Scan S → Predicate → ℕ → Scan S
unfolding select_next
select_scan scan pred fuel = record {
  before_first = scan.before_first;
  next = select_next scan pred fuel;
  get_int = scan.get_int;
  get_string = scan.get_string;
  get_val = scan.get_val;
  has_field = scan.has_field;
  close = scan.close;
}

abbrev pub Each : (Row → Type 0) → List Row → Type 0
Each P [] = Unit
Each P (r ∷ rs) = P r × Each P rs

-- The rows that pass a test, in order.
abbrev pub filter : (Row → Bool) → List Row → List Row
filter test [] = []
filter test (r ∷ rs) = if test r then r ∷ filter test rs else filter test rs

module _ {S : Type 0} {Good : S → Type 0} {scan : Scan S} (runs : Runs Good scan) (pred : Predicate)
    (test : Row → Bool) where
  -- The predicate has an answer on each row.
  abbrev pub Decides : List Row → Type 0
  Decides = Each λ r. is_satisfied pred r ≡ ok (test r)

  -- What one call of `next` finds, by the rows that satisfy the predicate.
  abbrev Found : S → List Row → Result (Bool × S) → List Row → Type 0
  Found s rs res [] = (s' : S) × (res ≡ ok (false, s')) × Good s' × (runs.all s' ≡ runs.all s)
  Found s rs res (r ∷ fs) =
      (s' : S) × (rs' : List Row) × (res ≡ ok (true, s'))
      × Good s'
      × (runs.rest s' ≡ rs')
      × (filter test rs' ≡ fs)
      × Decides rs'
      × (length rs' < length rs)
      × (runs.all s' ≡ runs.all s)
      × (scan.get_val s' ≡ r)

  skipped :
      (s s' : S) (r : Row) (rs : List Row) (res : Result (Bool × S)) (fs : List Row)
      → runs.all s' ≡ runs.all s
      → Found s' rs res fs
      → Found s (r ∷ rs) res fs
  skipped s s' r rs res [] a (t, e, g, a') = (t, e, g, a' ∙ a)
  skipped s s' r rs res (f ∷ fs) a (t, ts, e, g, p, q, d, h, a', v) =
      (t, ts, e, g, p, q, d, omega arith, a' ∙ a, v)

  select_next-Found :
      (fuel : ℕ) (s : S) (rs : List Row)
      → Good s
      → runs.rest s ≡ rs
      → Decides rs
      → length rs < fuel
      → Found s rs (select_next scan pred fuel s) (filter test rs)
  unfolding select_next
  select_next-Found zero s rs g e d h = absurd (omega arith)
  select_next-Found (suc fuel) s [] g e d h =
      let (s', n, g', a) = runs.at_end s g e in (s', rw n, g', a)
  select_next-Found (suc fuel) s (r ∷ rs) g e d h =
      let (s', n, g', e', a, v) = runs.at_row s r rs g e in
      elim (Bool-cases (test r)) [
        | inl p ↦ rw (n, v, d.0, p) (s', rs, refl, g', e', refl, d.1, omega arith, a, v)
        | inr p ↦
            rw (n, v, d.0, p)
              (skipped s s' r rs (select_next scan pred fuel s') (filter test rs) a
                (select_next-Found fuel s' rs g' e' d.1 (omega arith)))
      ]

  -- The records of a selection are the records of the scan below that satisfy the predicate, in
  -- their order: on a scan of a list of rows on each of which the predicate has an answer, and
  -- with more fuel than rows.
  pub drain-select :
      (fuel : ℕ) (s : S) (rs : List Row) (rounds : ℕ)
      → Good s
      → runs.rest s ≡ rs
      → Decides rs
      → length rs < fuel
      → length rs < rounds
      → drain (select_scan scan pred fuel) rounds s ≡ ok (some (filter test rs))
  unfolding drain select_scan
  drain-select fuel s rs zero g e d h k = absurd (omega arith)
  drain-select fuel s rs (suc rounds) g e d h k =
      go (filter test rs) refl (select_next-Found fuel s rs g e d h)
        (λ s' rs'. drain-select fuel s' rs' rounds)
    where
      go :
          (fs : List Row)
          → filter test rs ≡ fs
          → Found s rs (select_next scan pred fuel s) fs
          → ((s' : S) (rs' : List Row)
              → Good s'
              → runs.rest s' ≡ rs'
              → Decides rs'
              → length rs' < fuel
              → length rs' < rounds
              → drain (select_scan scan pred fuel) rounds s' ≡ ok (some (filter test rs')))
          → drain (select_scan scan pred fuel) (suc rounds) s ≡ ok (some (filter test rs))
      go [] q (t, n, g', a) rec = rw (q, n)
      go (f ∷ fs) q (t, ts, n, g', e', q', d', h', a, v) rec =
          rw (q, n) (rw (rec t ts g' e' d' (omega arith) (omega arith), v, q'))
