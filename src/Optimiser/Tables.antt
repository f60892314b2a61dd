-- ===== src/Optimiser/Tables.antt =====
-- The plan that the planner joins together reads every table as often as it is listed.
use mudopdbmigration.Schema.{empty_schema, add_all, Schema}
use mudopdbmigration.Query.Predicate.{Predicate, select_sub_pred, join_sub_pred}
use mudopdbmigration.Prelude.{
  ℕ, zero, suc, ◌+◌, ◌≤◌, ◌≡◌, refl, ap, subst, ◌∙◌, ◌≢◌, Option, none, some, List, [], ◌∷◌, arith,
  length, Error, out_of_fuel, Result, ok, err, ◌>>=◌,
}
use mudopdbmigration.Parse.Parser.Statements.{add_each_lem}
use mudopdbmigration.Plan.{Plan, schema, new_product_plan}
use mudopdbmigration.Optimiser.{
  TablePlanner, extend, join_all, join_planners, make_select_plan, make_product_plan,
  make_join_plan, select_if, add_select_pred, add_join_pred, get_lowest_join_plan, found,
  get_lowest_product_plan, join_if, get_lowest_select_plan, or_product, or_no_plan,
}
use mudopdbmigration.Optimiser.Choice.{
  reads, reads_all, Reads, Made, Lowest, reads-select_if, get_lowest-Lowest,
}

bind_lem :
    {A B : Type 0} (P : Result B → Type 0) (r : Result A) (next : A → Result B)
    → r ≢ err out_of_fuel
    → ((e : Error) → e ≢ out_of_fuel → P (err e))
    → ((a : A) → P (next a))
    → P (r >>= next)
bind_lem P (ok a) next h f k = k a
bind_lem P (err e) next h f k = f e (λ q. h (ap err q))

module _ (t : List ℕ) where
  new_product_plan-Reads : (p q : Plan) → Reads t (reads t p + reads t q) (new_product_plan p q)
  unfolding new_product_plan add_all
  new_product_plan-Reads p q =
      bind_lem (Reads t (reads t p + reads t q)) (add_all empty_schema (schema p)) _
        (add_each_lem empty_schema (schema p).fields (schema p)) (λ e h. h)
        λ sch.
          bind_lem (Reads t (reads t p + reads t q)) (add_all sch (schema q)) _
            (add_each_lem sch (schema q).fields (schema q)) (λ e h. h) λ sch'. refl

  join_sub_pred_ends :
      (pred : Predicate) (sch1 sch2 : Schema) → join_sub_pred pred sch1 sch2 ≢ err out_of_fuel
  unfolding join_sub_pred add_all
  join_sub_pred_ends pred sch1 sch2 =
      bind_lem (λ r. r ≢ err out_of_fuel) (add_all empty_schema sch1) _
        (add_each_lem empty_schema sch1.fields sch1) (λ e h q. h cc)
        λ half.
          bind_lem (λ r. r ≢ err out_of_fuel) (add_all half sch2) _
            (add_each_lem half sch2.fields sch2) (λ e h q. h cc) λ sch q. cc

  make_product_plan-Reads :
      (tp : TablePlanner) (current : Plan)
      → Reads t (reads t current + reads t tp.myplan) (make_product_plan tp current)
  unfolding make_product_plan add_select_pred
  make_product_plan-Reads tp current =
      subst (λ m. Reads t (reads t current + m) (make_product_plan tp current))
        (reads-select_if t tp.myplan (select_sub_pred tp.mypred (schema tp.myplan)))
        (new_product_plan-Reads current (add_select_pred tp tp.myplan))

  found-Made : (n : ℕ) (r : Result Plan) → Reads t n r → Made t n (found r)
  found-Made n (ok p) h = h
  found-Made n (err e) h = h

  pred-Made :
      (p : Plan) (n : ℕ) (r : Result (Option Predicate))
      → reads t p ≡ n
      → r ≢ err out_of_fuel
      → Made t n ((r >>= λ joinpred. ok (select_if p joinpred)) >>= λ q. ok (some q))
  pred-Made p n (ok o) h k = reads-select_if t p o ∙ h
  pred-Made p n (err e) h k = λ q. k (ap err q)

  joined-Made :
      (tp : TablePlanner) (sch : Schema) (n : ℕ) (r : Result Plan)
      → Reads t n r
      → Made t n (r >>= λ p. add_join_pred tp p sch >>= λ q. ok (some q))
  unfolding add_join_pred
  joined-Made tp sch n (ok p) h =
      pred-Made p n _ h (join_sub_pred_ends tp.mypred sch (schema tp.myplan))
  joined-Made tp sch n (err e) h = h

  join_if-Made :
      (n : ℕ) (o : Option Predicate) (r : Result (Option Plan))
      → Made t n r
      → Made t n (join_if o r)
  join_if-Made n none r h = tt
  join_if-Made n (some pred) r h = h

  make_join_plan-Made :
      (tp : TablePlanner) (current : Plan)
      → Made t (reads t current + reads t tp.myplan) (make_join_plan tp current)
  unfolding make_join_plan
  make_join_plan-Made tp current =
      bind_lem (Made t (reads t current + reads t tp.myplan))
        (join_sub_pred tp.mypred (schema tp.myplan) (schema current)) _
        (join_sub_pred_ends tp.mypred (schema tp.myplan) (schema current)) (λ e h. h)
        λ o.
          join_if-Made _ o _
            (joined-Made tp (schema current) _ _ (make_product_plan-Reads tp current))

  product-Lowest :
      (current : Plan) (tps : List TablePlanner)
      → Lowest t (reads t current) tps (get_lowest_product_plan current tps)
  unfolding get_lowest_product_plan
  product-Lowest current tps =
      get_lowest-Lowest t (reads t current) tps (λ tp. found (make_product_plan tp current))
        λ tp. found-Made _ _ (make_product_plan-Reads tp current)

  or_product-Lowest :
      (current : Plan) (tps : List TablePlanner) (r : Result (Option Plan × List TablePlanner))
      → Lowest t (reads t current) tps r
      → Lowest t (reads t current) tps (r >>= λ x. or_product current x.0 x.1)
  or_product-Lowest current tps (ok (none, rest)) h =
      subst (λ us. Lowest t (reads t current) us (get_lowest_product_plan current rest)) h
        (product-Lowest current rest)
  or_product-Lowest current tps (ok (some p, rest)) h = h
  or_product-Lowest current tps (err e) h = h

  extend-Lowest :
      (current : Plan) (tps : List TablePlanner)
      → Lowest t (reads t current) tps (extend current tps)
  unfolding extend get_lowest_join_plan
  extend-Lowest current tps = or_product-Lowest current tps (get_lowest_join_plan current tps) (
      get_lowest-Lowest t (reads t current) tps (λ tp. make_join_plan tp current)
        (λ tp. make_join_plan-Made tp current))

  join_all_without : (n fuel : ℕ) (tps : List TablePlanner) → Made t n (join_all fuel none tps)
  unfolding join_all
  join_all_without n zero [] = tt
  join_all_without n (suc fuel) [] = tt
  join_all_without n zero (tp ∷ rest) = λ e. cc
  join_all_without n (suc fuel) (tp ∷ rest) = λ e. cc

  then_join_all :
      (n m fuel : ℕ) (tps : List TablePlanner) (r : Result (Option Plan × List TablePlanner))
      → Lowest t m tps r
      → ((q : Plan) (us : List TablePlanner)
          → reads t q + reads_all t us ≡ m + reads_all t tps
          → length tps ≡ 1 + length us
          → Made t n (join_all fuel (some q) us))
      → Made t n (r >>= λ x. join_all fuel x.0 x.1)
  then_join_all n m fuel tps (ok (none, rest)) l k = join_all_without n fuel rest
  then_join_all n m fuel tps (ok (some q, rest)) l k = k q rest l.0 l.1
  then_join_all n m fuel tps (err e) l k = l

  join_all-Made :
      (n fuel : ℕ) (p : Plan) (tps : List TablePlanner)
      → reads t p + reads_all t tps ≡ n
      → length tps ≤ fuel
      → Made t n (join_all fuel (some p) tps)
  unfolding join_all
  join_all-Made n zero p [] h le = omega arith
  join_all-Made n (suc fuel) p [] h le = omega arith
  join_all-Made n zero p (tp ∷ rest) h le = absurd (omega arith)
  join_all-Made n (suc fuel) p (tp ∷ rest) h le =
      then_join_all n (reads t p) fuel (tp ∷ rest) (extend p (tp ∷ rest))
        (extend-Lowest p (tp ∷ rest))
        λ q us same shorter. join_all-Made n fuel q us (omega arith) (omega arith)

  or_no_plan-Reads : (n : ℕ) (r : Result (Option Plan)) → Made t n r → Reads t n (r >>= or_no_plan)
  or_no_plan-Reads n (ok none) h = λ e. cc
  or_no_plan-Reads n (ok (some p)) h = h
  or_no_plan-Reads n (err e) h = h

  first-Reads :
      (tps : List TablePlanner) (r : Result (Option Plan × List TablePlanner))
      → Lowest t 0 tps r
      → Reads t (reads_all t tps) (r >>= λ x. join_all (length tps) x.0 x.1 >>= or_no_plan)
  first-Reads tps (ok (none, rest)) h =
      or_no_plan-Reads _ _ (join_all_without (reads_all t tps) (length tps) rest)
  first-Reads tps (ok (some p, rest)) h = or_no_plan-Reads _ _ (
      join_all-Made (reads_all t tps) (length tps) p rest (omega (arith, h.0)) (omega (arith, h.1)))
  first-Reads tps (err e) h = h

  -- Whatever planners of tables the heuristic planner starts with, its loop ends: it throws, or it
  -- returns a plan that reads each table as often as the planners do, whatever order it chose.
  pub join_planners-Reads :
      (tps : List TablePlanner) → Reads t (reads_all t tps) (join_planners tps)
  unfolding join_planners get_lowest_select_plan make_select_plan add_select_pred
  join_planners-Reads tps = first-Reads tps (get_lowest_select_plan tps) (
      get_lowest-Lowest t 0 tps (λ tp. ok (some (make_select_plan tp)))
        λ tp.
          let none_before : reads t tp.myplan ≡ 0 + reads t tp.myplan = omega arith in
          reads-select_if t tp.myplan _ ∙ none_before)
