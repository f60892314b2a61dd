-- ===== src/Optimiser/Choice.antt =====
-- What a choice among planners takes away and what it leaves.
use mudopdbmigration.Query.Predicate.{Predicate}
use mudopdbmigration.Prelude.{
  ℕ, zero, suc, ◌+◌, ◌≡◌, refl, sym, ap, ◌∙◌, ◌≢◌, inl, inr, Option, none, some, List, [], ◌∷◌,
  arith, ltb, if◌then◌else◌, Bool-cases, bytes_eq, length, get_elem?, out_of_fuel, Result, ok, err,
  ◌>>=◌,
}
use mudopdbmigration.Plan.{
  records_output, Plan, table_plan, select_plan, project_plan, product_plan,
}
use mudopdbmigration.Optimiser.{
  TablePlanner, choose, better, erase_at, taken, get_lowest, select_if,
}

-- How often a plan reads a table.
abbrev pub reads : List ℕ → Plan → ℕ
reads t (table_plan tblname layout si) = if bytes_eq tblname t then 1 else 0
reads t (select_plan p pred) = reads t p
reads t (project_plan p sch) = reads t p
reads t (product_plan p1 p2 sch) = reads t p1 + reads t p2

abbrev pub reads_all : List ℕ → List TablePlanner → ℕ
reads_all t [] = 0
reads_all t (tp ∷ rest) = reads t tp.myplan + reads_all t rest

-- A plan that reads the table `n` times, or an exception of the code.
abbrev pub Reads : List ℕ → ℕ → Result Plan → Type 0
Reads t n (ok p) = reads t p ≡ n
Reads t n (err e) = e ≢ out_of_fuel

abbrev pub Made : List ℕ → ℕ → Result (Option Plan) → Type 0
Made t n (ok none) = Unit
Made t n (ok (some p)) = reads t p ≡ n
Made t n (err e) = e ≢ out_of_fuel

-- A plan made by the planner at a position.
abbrev pub From : List ℕ → ℕ → List TablePlanner → Option (ℕ × Plan) → Type 0
From t n tps none = Unit
From t n tps (some (k, p)) =
    (tp : TablePlanner) × (get_elem? tps k ≡ some tp) × (reads t p ≡ n + reads t tp.myplan)

abbrev pub Chosen : List ℕ → ℕ → List TablePlanner → Result (Option (ℕ × Plan)) → Type 0
Chosen t n tps (ok best) = From t n tps best
Chosen t n tps (err e) = e ≢ out_of_fuel

-- A plan, and the planners that are left: one less, and between them the tables of before.
abbrev pub Lowest :
    List ℕ → ℕ → List TablePlanner → Result (Option Plan × List TablePlanner) → Type 0
Lowest t n tps (ok (none, rest)) = rest ≡ tps
Lowest t n tps (ok (some p, rest)) =
    (reads t p + reads_all t rest ≡ n + reads_all t tps) × (length tps ≡ 1 + length rest)
Lowest t n tps (err e) = e ≢ out_of_fuel

pub reads-select_if :
    (t : List ℕ) (p : Plan) (o : Option Predicate) → reads t (select_if p o) ≡ reads t p
reads-select_if t p none = refl
reads-select_if t p (some pred) = refl

reads_all-erase_at :
    (t : List ℕ) (k : ℕ) (us : List TablePlanner) (tp : TablePlanner)
    → get_elem? us k ≡ some tp
    → (reads_all t us ≡ reads t tp.myplan + reads_all t (erase_at k us))
      × (length us ≡ 1 + length (erase_at k us))
unfolding erase_at
reads_all-erase_at t k [] tp e = cc
reads_all-erase_at t zero (u ∷ us) tp e =
    let same : u ≡ tp = cc in (ap (λ v. reads t v.myplan + reads_all t us) same, omega arith)
reads_all-erase_at t (suc k) (u ∷ us) tp e =
    let (same, shorter) = reads_all-erase_at t k us tp e in (omega arith, omega arith)

module _ (t : List ℕ) (n : ℕ) (tps : List TablePlanner) (make : TablePlanner → Result (Option Plan))
    (makes : (tp : TablePlanner) → Made t (n + reads t tp.myplan) (make tp)) where
  better-From :
      (idx : ℕ) (tp : TablePlanner) (p : Plan) (best : Option (ℕ × Plan))
      → get_elem? tps idx ≡ some tp
      → reads t p ≡ n + reads t tp.myplan
      → From t n tps best
      → From t n tps (better idx (some p) best)
  unfolding better
  better-From idx tp p none g e b = (tp, g, e)
  better-From idx tp p (some (k, q)) g e b =
      elim (Bool-cases (ltb (records_output p) (records_output q))) [
        | inl h ↦ rw h (tp, g, e)
        | inr h ↦ rw h b
      ]

  choose_next :
      (idx : ℕ) (tp : TablePlanner) (rest : List TablePlanner) (best : Option (ℕ × Plan))
      (r : Result (Option Plan))
      → Made t (n + reads t tp.myplan) r
      → get_elem? tps idx ≡ some tp
      → From t n tps best
      → ((b : Option (ℕ × Plan)) → From t n tps b → Chosen t n tps (choose make (idx + 1) rest b))
      → Chosen t n tps (r >>= λ p. choose make (idx + 1) rest (better idx p best))
  unfolding better
  choose_next idx tp rest best (ok none) m g b k = k best b
  choose_next idx tp rest best (ok (some p)) m g b k =
      k (better idx (some p) best) (better-From idx tp p best g m b)
  choose_next idx tp rest best (err e) m g b k = m

  choose-Chosen :
      (idx : ℕ) (rest : List TablePlanner) (best : Option (ℕ × Plan))
      → ((j : ℕ) → get_elem? rest j ≡ get_elem? tps (idx + j))
      → From t n tps best
      → Chosen t n tps (choose make idx rest best)
  unfolding choose
  choose-Chosen idx [] best h b = b
  choose-Chosen idx (tp ∷ rest) best h b =
      let start : idx + 0 ≡ idx = omega arith in
      choose_next idx tp rest best (make tp) (makes tp) (ap (get_elem? tps) (sym start) ∙ sym (h 0))
        b
        λ b' c.
          choose-Chosen (idx + 1) rest b'
            (λ j.
              let shift : idx + suc j ≡ (idx + 1) + j = omega arith in
              h (suc j) ∙ ap (get_elem? tps) shift)
            c

  taken-Lowest :
      (r : Result (Option (ℕ × Plan)))
      → Chosen t n tps r
      → Lowest t n tps (r >>= λ best. ok (taken tps best))
  unfolding taken
  taken-Lowest (ok none) c = refl
  taken-Lowest (ok (some (k, p))) (tp, g, e) =
      let (same, shorter) = reads_all-erase_at t k tps tp g in (omega arith, shorter)
  taken-Lowest (err e) c = c

  pub get_lowest-Lowest : Lowest t n tps (get_lowest make tps)
  unfolding get_lowest
  get_lowest-Lowest = taken-Lowest (choose make 0 tps none) (
      choose-Chosen 0 tps none (λ j. let same : j ≡ 0 + j = omega arith in ap (get_elem? tps) same)
        tt)
