-- ===== src/Query/Predicate/Meaning.antt =====
-- What the analyses of a predicate tell of the rows that satisfy it.
use mudopdbmigration.Prelude.{
  ℕ, ◌≡◌, refl, ◌↔◌, ◌⊎◌, inl, inr, true, none, some, List, [], ◌∷◌, arith, Option-cases,
  bytes_eq_iff, ok, Result-cases,
}
use mudopdbmigration.Constant.{Constant}
use mudopdbmigration.Constant.Order.{constant_eq_iff}
use mudopdbmigration.Query.Scan.{Row}
use mudopdbmigration.Query.Predicate.{
  Predicate, Term, Expression, evaluate, term_is_satisfied, term_equates_with_constant,
  is_satisfied, term_equates_with_field, equates_with_constant, equates_with_field, conjoin_with,
}

-- The two factories make expressions with exactly one of the two parts.
abbrev pub IsExpression : Expression → Type 0
IsExpression e =
    ((c : Constant) × (e.val ≡ some c) × (e.fldname ≡ none))
    ⊎ ((f : List ℕ) × (e.val ≡ none) × (e.fldname ≡ some f))

abbrev pub Each {ℓ} : (Term → Type ℓ) → Predicate → Type ℓ
Each P [] = Unit
Each P (t ∷ rest) = P t × Each P rest

abbrev pub IsTerm : Term → Type 0
IsTerm t = IsExpression t.lhs × IsExpression t.rhs

-- The two sides of a term have one value.
term_sides :
    (t : Term) (row : Row)
    → term_is_satisfied t row ≡ ok true
    → (c : Constant) × (evaluate t.lhs row ≡ ok c) × (evaluate t.rhs row ≡ ok c)
unfolding term_is_satisfied
term_sides t row h = elim (Result-cases (evaluate t.lhs row)) [
  | inr (x, e) ↦ absurd (ground arith)
  | inl (c, e) ↦ elim (Result-cases (evaluate t.rhs row)) [
    | inr (x, f) ↦ absurd (ground arith)
    | inl (d, f) ↦ let same = (constant_eq_iff c d).0 (ground arith) in (c, e, rw same f)
  ]
]

term_constant_sound :
    (t : Term) (row : Row) (f : List ℕ) (c : Constant)
    → IsTerm t
    → term_is_satisfied t row ≡ ok true
    → term_equates_with_constant t f ≡ some c
    → row f ≡ ok c
unfolding term_equates_with_constant evaluate
term_constant_sound t row f c (inl (a, v, n), inl (b, v', n')) h e = ground arith
term_constant_sound t row f c (inl (a, v, n), inr (g, v', n')) h e =
    let (d, p, q) = term_sides t row h in ground (arith, p, q, bytes_eq_iff g f)
term_constant_sound t row f c (inr (g, v, n), inl (b, v', n')) h e =
    let (d, p, q) = term_sides t row h in ground (arith, p, q, bytes_eq_iff g f)
term_constant_sound t row f c (inr (g, v, n), inr (k, v', n')) h e = ground arith

term_field_sound :
    (t : Term) (row : Row) (f g : List ℕ)
    → IsTerm t
    → term_is_satisfied t row ≡ ok true
    → term_equates_with_field t f ≡ some g
    → (c : Constant) × (row f ≡ ok c) × (row g ≡ ok c)
unfolding term_equates_with_field evaluate
term_field_sound t row f g (inl (a, v, n), w) h e = absurd (ground arith)
term_field_sound t row f g (inr (k, v, n), inl (b, v', n')) h e = absurd (ground arith)
term_field_sound t row f g (inr (k, v, n), inr (l, v', n')) h e =
    let (d, p, q) = term_sides t row h in
    (
      d,
      ground (arith, p, q, bytes_eq_iff k f, bytes_eq_iff l f),
      ground (arith, p, q, bytes_eq_iff k f, bytes_eq_iff l f),
    )

-- A row satisfies a predicate exactly if it satisfies each of its terms.
pub is_satisfied_iff :
    (pred : Predicate) (row : Row)
    → (is_satisfied pred row ≡ ok true) ↔ Each (λ t. term_is_satisfied t row ≡ ok true) pred
unfolding is_satisfied
is_satisfied_iff [] row = (λ h. tt, λ h. refl)
is_satisfied_iff (t ∷ rest) row = (
  λ h. (ground arith, (is_satisfied_iff rest row).0 (ground arith)),
  λ h. ground (arith, (is_satisfied_iff rest row).1 h.1),
)

-- On every row that satisfies a predicate whose expressions come from the two factories, a field that the predicate equates with a constant has
-- that constant as its value.
pub equates_with_constant_sound :
    (pred : Predicate) (row : Row) (f : List ℕ) (c : Constant)
    → Each IsTerm pred
    → is_satisfied pred row ≡ ok true
    → equates_with_constant pred f ≡ some c
    → row f ≡ ok c
unfolding equates_with_constant
equates_with_constant_sound [] row f c w h e = cc
equates_with_constant_sound (t ∷ rest) row f c w h e =
    let (one, others) = (is_satisfied_iff (t ∷ rest) row).0 h in
    elim (Option-cases (term_equates_with_constant t f)) [
      | inr (d, p) ↦ term_constant_sound t row f c w.0 one (ground arith)
      | inl p ↦
          equates_with_constant_sound rest row f c w.1 ((is_satisfied_iff rest row).1 others)
            (rw (p, equates_with_constant) at e)
    ]

-- On every row that satisfies a predicate whose expressions come from the two factories, two fields that the predicate equates have one value.
pub equates_with_field_sound :
    (pred : Predicate) (row : Row) (f g : List ℕ)
    → Each IsTerm pred
    → is_satisfied pred row ≡ ok true
    → equates_with_field pred f ≡ some g
    → (c : Constant) × (row f ≡ ok c) × (row g ≡ ok c)
unfolding equates_with_field
equates_with_field_sound [] row f g w h e = absurd (ground arith)
equates_with_field_sound (t ∷ rest) row f g w h e =
    let (one, others) = (is_satisfied_iff (t ∷ rest) row).0 h in
    elim (Option-cases (term_equates_with_field t f)) [
      | inr (d, p) ↦ term_field_sound t row f g w.0 one (ground arith)
      | inl p ↦
          equates_with_field_sound rest row f g w.1 ((is_satisfied_iff rest row).1 others)
            (rw (p, equates_with_field) at e)
    ]

-- The conjunction holds exactly where both parts hold.
pub conjoin_with_iff :
    (p q : Predicate) (row : Row)
    → (is_satisfied (conjoin_with p q) row ≡ ok true)
      ↔ ((is_satisfied p row ≡ ok true) × (is_satisfied q row ≡ ok true))
unfolding conjoin_with is_satisfied
conjoin_with_iff [] q row = (λ h. (refl, h), λ h. h.1)
conjoin_with_iff (t ∷ rest) q row = (
  λ h. let ih = (conjoin_with_iff rest q row).0 (ground arith) in (ground arith, ih.1),
  λ h. ground (arith, (conjoin_with_iff rest q row).1 (ground arith, h.1)),
)
