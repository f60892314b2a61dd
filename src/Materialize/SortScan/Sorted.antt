-- ===== src/Materialize/SortScan/Sorted.antt =====
-- Two sorted lists of comparable records are merged into a sorted one with the same records.
use mathlib.Core.List.{Perm, perm_middle, append-nil}
use mathlib.Core.List.Perm
use mudopdbmigration.Prelude.{ℕ, ◌≡◌, inl, inr, Bool, false, List, [], ◌∷◌, ◌++◌, Bool-cases}
use mudopdbmigration.Query.Scan.{Row}
use mudopdbmigration.Materialize.Compare.Order.{IsComparable, less, less_asymm, not_less_trans}
use mudopdbmigration.Materialize.SortScan.Merge.{merge, AllComparable}

-- None of the records comes before `x`.
abbrev pub IsBelow : List (List ℕ) → Row → List Row → Type 0
IsBelow fields x [] = Unit
IsBelow fields x (r ∷ rs) = (less fields r x ≡ false) × IsBelow fields x rs

-- No record comes before one in front of it.
abbrev pub IsSorted : List (List ℕ) → List Row → Type 0
IsSorted fields [] = Unit
IsSorted fields (r ∷ rs) = IsBelow fields r rs × IsSorted fields rs

pub merge-perm : (lt : Row → Row → Bool) (rs ts : List Row) → Perm (merge lt rs ts) (rs ++ ts)
unfolding merge
merge-perm lt [] ts = Perm.rfl
merge-perm lt (r ∷ rs) [] = rw (append-nil rs) Perm.rfl
merge-perm lt (r ∷ rs) (t ∷ ts) = elim (Bool-cases (lt r t)) [
  | inl h ↦ rw (merge, h) (Perm.cons r (merge-perm lt rs (t ∷ ts)))
  | inr h ↦
      rw (merge, h)
        (Perm.trans (Perm.cons t (merge-perm lt (r ∷ rs) ts)) (Perm.symm (perm_middle (r ∷ rs) ts)))
]

module _ (fields : List (List ℕ)) where
  IsBelow-merge :
      (x : Row) (rs ts : List Row)
      → IsBelow fields x rs
      → IsBelow fields x ts
      → IsBelow fields x (merge (less fields) rs ts)
  unfolding merge
  IsBelow-merge x [] ts b c = c
  IsBelow-merge x (r ∷ rs) [] b c = b
  IsBelow-merge x (r ∷ rs) (t ∷ ts) b c = elim (Bool-cases (less fields r t)) [
    | inl h ↦ rw (merge, h) (b.0, IsBelow-merge x rs (t ∷ ts) b.1 c)
    | inr h ↦ rw (merge, h) (c.0, IsBelow-merge x (r ∷ rs) ts b c.1)
  ]

  -- What is below the head of a sorted list is below all of it.
  IsBelow-head :
      (x r : Row) (rs : List Row)
      → IsComparable fields x
      → IsComparable fields r
      → AllComparable fields rs
      → less fields r x ≡ false
      → IsBelow fields r rs
      → IsBelow fields x rs
  IsBelow-head x r [] cx cr cs l b = tt
  IsBelow-head x r (s ∷ rs) cx cr cs l b =
      (not_less_trans fields x r s cx cr cs.0 l b.0, IsBelow-head x r rs cx cr cs.1 l b.1)

  pub merge-IsSorted :
      (rs ts : List Row)
      → AllComparable fields rs
      → AllComparable fields ts
      → IsSorted fields rs
      → IsSorted fields ts
      → IsSorted fields (merge (less fields) rs ts)
  unfolding merge
  merge-IsSorted [] ts c d s u = u
  merge-IsSorted (r ∷ rs) [] c d s u = s
  merge-IsSorted (r ∷ rs) (t ∷ ts) c d s u = elim (Bool-cases (less fields r t)) [
    | inl h ↦
        let le = less_asymm fields r t c.0 d.0 h in
        rw (merge, h)
          (
            IsBelow-merge r rs (t ∷ ts) s.0 (le, IsBelow-head r t ts c.0 d.0 d.1 le u.0),
            merge-IsSorted rs (t ∷ ts) c.1 d s.1 u,
          )
    | inr h ↦
        rw (merge, h)
          (
            IsBelow-merge t (r ∷ rs) ts (h, IsBelow-head t r rs d.0 c.0 c.1 h s.0) u.0,
            merge-IsSorted (r ∷ rs) ts c d.1 s u.1,
          )
  ]
