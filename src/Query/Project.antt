-- ===== src/Query/Project.antt =====
-- include/query/projectscan.hpp and src/query/projectscan.cpp: some fields of each record.
use mudopdbmigration.Prelude.{
  ℕ, zero, suc, ◌<◌, ◌≡◌, ap, Bool, false, ◌||◌, some, List, [], ◌∷◌, map, arith, if◌then◌else◌,
  bytes_eq, length, no_field, Result, ok, err,
}
use mudopdbmigration.Query.Scan.{Scan, Runs, Row, drain}

-- `std::find` in the field list
unfoldable pub listed : List (List ℕ) → List ℕ → Bool
listed [] fldname = false
listed (f ∷ rest) fldname = bytes_eq f fldname || listed rest fldname

unfoldable pub checked {ℓ} : {A : Type ℓ} → List (List ℕ) → List ℕ → Result A → Result A
unfolding listed
checked fieldlist fldname r = if listed fieldlist fldname then r else err no_field

unfoldable pub project_scan : {S : Type 0} → Scan S → List (List ℕ) → Scan S
unfolding checked
project_scan scan fieldlist = record {
  before_first = scan.before_first;
  next = scan.next;
  get_int = λ s f. checked fieldlist f (scan.get_int s f);
  get_string = λ s f. checked fieldlist f (scan.get_string s f);
  get_val = λ s f. checked fieldlist f (scan.get_val s f);
  has_field = λ s f. listed fieldlist f;
  close = scan.close;
}

-- A row of which only the listed fields are left.
abbrev pub restricted : List (List ℕ) → Row → Row
restricted fieldlist r = λ f. checked fieldlist f (r f)

-- The records of a projection are the records of the scan below, in their order, each with its
-- values for the listed fields and an exception for any other.
pub drain-project :
    {S : Type 0} {Good : S → Type 0} {scan : Scan S} (runs : Runs Good scan)
    (fieldlist : List (List ℕ)) (fuel : ℕ) (s : S) (rs : List Row)
    → Good s
    → runs.rest s ≡ rs
    → length rs < fuel
    → drain (project_scan scan fieldlist) fuel s ≡ ok (some (map (restricted fieldlist) rs))
unfolding drain project_scan
drain-project runs fieldlist zero s rs g e h = absurd (omega arith)
drain-project runs fieldlist (suc fuel) s [] g e h = let (s', n, _, _) = runs.at_end s g e in rw n
drain-project runs fieldlist (suc fuel) s (r ∷ rs) g e h =
    let (s', n, g', e', _, v) = runs.at_row s r rs g e in
    rw n (
      rw (drain-project runs fieldlist fuel s' rs g' e' (omega arith))
        (ap (λ (x : Row). ok (some (restricted fieldlist x ∷ map (restricted fieldlist) rs))) v))
