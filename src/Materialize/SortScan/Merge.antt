-- ===== src/Materialize/SortScan/Merge.antt =====
-- Two lists of records merged, as a sort scan merges its runs.
use mudopdbmigration.Prelude.{ℕ, ◌≡◌, refl, Bool, true, false, List, [], ◌∷◌}
use mudopdbmigration.Query.Scan.{Row}
use mudopdbmigration.Materialize.Compare.Order.{IsComparable, less}

-- Two lists merged: a record of the first goes first if it is the smaller one.
unfoldable pub merge : (Row → Row → Bool) → List Row → List Row → List Row
merge lt [] ts = ts
merge lt (r ∷ rs) [] = r ∷ rs
merge lt (r ∷ rs) (t ∷ ts) = elim (lt r t) [
  | true ↦ r ∷ merge lt rs (t ∷ ts)
  | false ↦ t ∷ merge lt (r ∷ rs) ts
]

abbrev pub AllComparable : List (List ℕ) → List Row → Type 0
AllComparable fields [] = Unit
AllComparable fields (r ∷ rs) = IsComparable fields r × AllComparable fields rs

module _ (fields : List (List ℕ)) where
  pub merge-nil : (rs : List Row) → merge (less fields) rs [] ≡ rs
  unfolding merge
  merge-nil [] = refl
  merge-nil (r ∷ rs) = refl

  pub merge_first :
      (r t : Row) (rs ts : List Row)
      → less fields r t ≡ true
      → merge (less fields) (r ∷ rs) (t ∷ ts) ≡ r ∷ merge (less fields) rs (t ∷ ts)
  unfolding merge
  merge_first r t rs ts h = rw (merge, h) refl

  pub merge_second :
      (r t : Row) (rs ts : List Row)
      → less fields r t ≡ false
      → merge (less fields) (r ∷ rs) (t ∷ ts) ≡ t ∷ merge (less fields) (r ∷ rs) ts
  unfolding merge
  merge_second r t rs ts h = rw (merge, h) refl
