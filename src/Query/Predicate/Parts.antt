-- ===== src/Query/Predicate/Parts.antt =====
-- The parts of a predicate that planners push to one table or to the join of two.
use mudopdbmigration.Schema.Fields.{IsIn, add_all_lem, member, IsComplete}
use mudopdbmigration.Prelude.{
  ℕ, ◌≡◌, refl, sym, subst, ◌∙◌, ◌↔◌, ◌⊎◌, inl, inr, Bool, true, ◌&&◌, ◌||◌, not, Option, none,
  some, List, [], ◌∷◌, arith, if◌then◌else◌, Bool-cases, Option-cases, bytes_eq, bytes_eq_iff, ok,
}
use mudopdbmigration.Schema.{Schema, has_field, empty_schema, add_all}
use mudopdbmigration.Constant.{Constant}
use mudopdbmigration.Query.Scan.{Row}
use mudopdbmigration.Query.Predicate.{
  Predicate, Term, Expression, is_satisfied, term_is_satisfied, keep, unless_empty,
  expression_applies_to, term_applies_to, join_sub_pred,
}
use mudopdbmigration.Query.Predicate.Meaning.{is_satisfied_iff, Each}

-- An expression that is a constant or one of the named fields.
abbrev pub IsOver : (List ℕ → Bool) → Expression → Type 0
IsOver names e =
    ((c : Constant) × (e.val ≡ some c))
    ⊎ ((f : List ℕ) × (e.val ≡ none) × (e.fldname ≡ some f) × (names f ≡ true))

-- A term whose two sides are over the named fields.
abbrev pub IsTermOver : (List ℕ → Bool) → Term → Type 0
IsTermOver names t = IsOver names t.lhs × IsOver names t.rhs

-- The part of a predicate with exactly the terms of a kind, in order.
pub data IsPart (P : Term → Type 0) : Predicate → Predicate → Type 0 where
  no_terms : IsPart P [] []
  taken :
      (t : Term) (rest sub : Predicate) → P t → IsPart P rest sub → IsPart P (t ∷ rest) (t ∷ sub)
  left_out :
      (t : Term) (rest sub : Predicate) → (P t → ⊥) → IsPart P rest sub → IsPart P (t ∷ rest) sub

-- The terms of a part; none stands for a part without terms.
abbrev pub terms_of : Option Predicate → Predicate
terms_of none = []
terms_of (some sub) = sub

unless_empty_terms : (p : Predicate) → terms_of (unless_empty p) ≡ p
unless_empty_terms [] = refl
unless_empty_terms (t ∷ rest) = refl

module _ (P : Term → Type 0) (test : Term → Bool) (same : (t : Term) → (test t ≡ true) ↔ P t) where
  kept-IsPart : (pred : Predicate) → IsPart P pred (keep test pred)
  unfolding keep
  kept-IsPart [] = no_terms
  kept-IsPart (t ∷ rest) = elim (Bool-cases (test t)) [
    | inl e ↦ rw e (taken t rest (keep test rest) ((same t).0 e) (kept-IsPart rest))
    | inr e ↦
        rw e (left_out t rest (keep test rest) (λ h. let q = (same t).1 h in cc) (kept-IsPart rest))
  ]

  keep-IsPart : (pred : Predicate) → IsPart P pred (terms_of (unless_empty (keep test pred)))
  keep-IsPart pred =
      subst (IsPart P pred) (sym (unless_empty_terms (keep test pred))) (kept-IsPart pred)

IsPart-satisfied :
    (P : Term → Type 0) (pred sub : Predicate)
    → IsPart P pred sub
    → (row : Row) → Each (λ t. term_is_satisfied t row ≡ ok true) pred
    → Each (λ t. term_is_satisfied t row ≡ ok true) sub
IsPart-satisfied P _ _ no_terms row h = tt
IsPart-satisfied P _ _ (taken t rest sub p part) row h =
    (h.0, IsPart-satisfied P rest sub part row h.1)
IsPart-satisfied P _ _ (left_out t rest sub p part) row h = IsPart-satisfied P rest sub part row h.1

IsPart-holds :
    (P : Term → Type 0) (pred sub : Predicate)
    → IsPart P pred sub
    → (row : Row) → is_satisfied pred row ≡ ok true
    → is_satisfied sub row ≡ ok true
IsPart-holds P pred sub part row h =
    (is_satisfied_iff sub row).1
      (IsPart-satisfied P pred sub part row ((is_satisfied_iff pred row).0 h))

field_covered :
    (sch : Schema) (e : Expression) (f g : List ℕ) (names : List ℕ → Bool)
    → ((f : List ℕ) → has_field sch f ≡ names f)
    → e.val ≡ none
    → e.fldname ≡ some f
    → e.fldname ≡ some g
    → names g ≡ true
    → expression_applies_to e sch ≡ true
unfolding expression_applies_to
field_covered sch e f g names same v n m k = rw (v, m) (same g ∙ k)

IsOver-iff :
    (names : List ℕ → Bool) (sch : Schema)
    → ((f : List ℕ) → has_field sch f ≡ names f)
    → (e : Expression) → (expression_applies_to e sch ≡ true) ↔ IsOver names e
unfolding expression_applies_to
IsOver-iff names sch same e = elim (Option-cases e.val) [
  | inr (c, v) ↦ (λ h. inl (c, v), λ h. rw v refl)
  | inl v ↦ elim (Option-cases e.fldname) [
    | inl n ↦ (
      λ h. absurd (ground arith),
      λ h. elim h [ inl (c, w) ↦ absurd cc | inr (f, w, m, k) ↦ absurd cc ],
    )
    | inr (f, n) ↦ (
      λ h. inr (f, v, n, ground (arith, same f)),
      λ h. elim h [
        | inl (c, w) ↦ absurd cc
        | inr (g, w, m, k) ↦ field_covered sch e f g names same v n m k
      ],
    )
  ]
]

IsTermOver-iff :
    (names : List ℕ → Bool) (sch : Schema)
    → ((f : List ℕ) → has_field sch f ≡ names f)
    → (t : Term) → (term_applies_to t sch ≡ true) ↔ IsTermOver names t
unfolding term_applies_to
IsTermOver-iff names sch same t =
    let l = IsOver-iff names sch same t.lhs in
    let r = IsOver-iff names sch same t.rhs in
    (
      λ h. (l.0 (ground arith), r.0 (ground arith)),
      λ (a, b). let p = l.1 a in let q = r.1 b in ground (arith, p, q),
    )

-- The fields of two tables.
abbrev pub either : Schema → Schema → List ℕ → Bool
either sch1 sch2 f = member f sch1.fields || member f sch2.fields

-- A term over the fields of both tables that is over those of neither alone.
abbrev pub IsJoinTerm : Schema → Schema → Term → Type 0
IsJoinTerm sch1 sch2 t =
    (IsTermOver (has_field sch1) t → ⊥)
    × (IsTermOver (has_field sch2) t → ⊥)
    × IsTermOver (either sch1 sch2) t

member-IsIn : (f : List ℕ) (gs : List (List ℕ)) → member f gs ≡ true → IsIn f gs
member-IsIn f [] h = absurd cc
member-IsIn f (g ∷ gs) h = elim (Bool-cases (bytes_eq g f)) [
  | inl e ↦ inl (sym ((bytes_eq_iff g f).0 e))
  | inr e ↦ inr (member-IsIn f gs (ground arith))
]

has_either :
    (sch1 sch2 : Schema)
    → IsComplete sch1
    → IsComplete sch2
    → (half new : Schema) (f : List ℕ)
    → half.info f ≡ (if member f sch1.fields then sch1.info f else none)
    → new.info f ≡ (if member f sch2.fields then sch2.info f else half.info f)
    → has_field new f ≡ either sch1 sch2 f
unfolding has_field
has_either sch1 sch2 c1 c2 half new f i1 i2 = elim (Bool-cases (member f sch2.fields)) [
  | inl m ↦
      let h = c2 f (member-IsIn f sch2.fields m) in rw (has_field, i2) (rw (m) (ground (arith, h)))
  | inr m ↦ elim (Bool-cases (member f sch1.fields)) [
    | inl k ↦
        let h = c1 f (member-IsIn f sch1.fields k) in
        rw (has_field, i2) (rw m (rw i1 (rw k (ground (arith, h)))))
    | inr k ↦ rw (has_field, i2) (rw m (rw i1 (rw k refl)))
  ]
]

-- The schema of the join has the fields of both.
joined_schema :
    (sch1 sch2 : Schema)
    → IsComplete sch1
    → IsComplete sch2
    → (half new : Schema) × (add_all empty_schema sch1 ≡ ok half)
      × (add_all half sch2 ≡ ok new)
      × ((f : List ℕ) → has_field new f ≡ either sch1 sch2 f)
joined_schema sch1 sch2 c1 c2 =
    let (half, e, _, i1) = add_all_lem empty_schema sch1 c1 in
    let (new, e', _, i2) = add_all_lem half sch2 c2 in
    (half, new, e, e', λ f. has_either sch1 sch2 c1 c2 half new f (i1 f) (i2 f))

IsJoinTerm-iff :
    (sch1 sch2 new : Schema)
    → ((f : List ℕ) → has_field new f ≡ either sch1 sch2 f)
    → (t : Term)
    → ((not (term_applies_to t sch1) && not (term_applies_to t sch2) && term_applies_to t new)
        ≡ true)
      ↔ IsJoinTerm sch1 sch2 t
IsJoinTerm-iff sch1 sch2 new same t =
    let one = IsTermOver-iff (has_field sch1) sch1 (λ f. refl) t in
    let two = IsTermOver-iff (has_field sch2) sch2 (λ f. refl) t in
    let both = IsTermOver-iff (either sch1 sch2) new same t in
    (
      λ h. (
        λ o. let q = one.1 o in absurd (ground arith),
        λ o. let q = two.1 o in absurd (ground arith),
        both.0 (ground arith),
      ),
      λ (no1, no2, yes3).
          let q = both.1 yes3 in
          elim (Bool-cases (term_applies_to t sch1)) [
            | inl a ↦ absurd (no1 (one.0 a))
            | inr a ↦ elim (Bool-cases (term_applies_to t sch2)) [
              | inl b ↦ absurd (no2 (two.0 b))
              | inr b ↦ ground arith
            ]
          ],
    )

-- The part of a predicate that joins two tables, whose schemas are complete, is found without an
-- exception. It has exactly the terms over the fields of both tables together that are over those
-- of neither alone, in order, where no result stands for no such term. Every row that satisfies
-- the predicate satisfies that part.
pub join_sub_pred-IsPart :
    (pred : Predicate) (sch1 sch2 : Schema)
    → IsComplete sch1
    → IsComplete sch2
    → (sub : Option Predicate) × (join_sub_pred pred sch1 sch2 ≡ ok sub)
      × IsPart (IsJoinTerm sch1 sch2) pred (terms_of sub)
      × ((row : Row) → is_satisfied pred row ≡ ok true → is_satisfied (terms_of sub) row ≡ ok true)
unfolding join_sub_pred
join_sub_pred-IsPart pred sch1 sch2 c1 c2 =
    let (half, new, e, e', same) = joined_schema sch1 sch2 c1 c2 in
    let test = λ (t : Term).
      not (term_applies_to t sch1) && not (term_applies_to t sch2) && term_applies_to t new in
    let part = keep-IsPart (IsJoinTerm sch1 sch2) test (IsJoinTerm-iff sch1 sch2 new same) pred in
    (
      unless_empty (keep test pred),
      rw e (rw e' refl),
      part,
      IsPart-holds (IsJoinTerm sch1 sch2) pred _ part,
    )
