-- ===== src/Materialize/Compare/Order.antt =====
-- The order of records by some of their fields.
use mudopdbmigration.Prelude.{
  ℕ, ◌≡◌, refl, sym, subst, ◌∙◌, ◌⊎◌, inl, inr, Bool, true, false, List, [], ◌∷◌, int32_lt, Result,
  ok, err,
}
use mudopdbmigration.Constant.{Constant, constant_lt, constant_gt, constant_le}
use mudopdbmigration.Constant.Order.{IsInt32, constant_trichotomy, constant_lt_trans}
use mudopdbmigration.Query.Scan.{Row}
use mudopdbmigration.Materialize.Compare.{compare_fields, comes_first}

-- A record that has a value in each of the fields.
abbrev pub IsComparable : List (List ℕ) → Row → Type 0
IsComparable [] r = Unit
IsComparable (f ∷ fs) r = ((c : Constant) × (r f ≡ ok c) × IsInt32 c) × IsComparable fs r

abbrev answer : Result Bool → Bool
answer (ok b) = b
answer (err e) = false

-- Whether the first record comes before the second.
unfoldable pub less : List (List ℕ) → Row → Row → Bool
less fields r1 r2 = answer (comes_first fields r1 r2)

data Compared (u v : Constant) : Type 0 where
  smaller : constant_lt u v ≡ true → constant_gt u v ≡ false → constant_gt v u ≡ true → Compared u v
  equal : u ≡ v → constant_lt u v ≡ false → constant_gt u v ≡ false → Compared u v
  larger : constant_lt v u ≡ true → constant_gt v u ≡ false → constant_gt u v ≡ true → Compared u v

compared : (u v : Constant) → IsInt32 u → IsInt32 v → Compared u v
unfolding constant_gt constant_le
compared u v h k = elim (constant_trichotomy u v h k) [
  | inl (l, e, n, g, le, ge, b) ↦ elim (constant_trichotomy v u k h) [
    | inl (l', e', n', g', le', ge', b') ↦ absurd cc
    | inr (inl ((l', e', n', g', le', ge', b'), same)) ↦ absurd cc
    | inr (inr (l', e', n', g', le', ge', b')) ↦ smaller l g g'
  ]
  | inr (inl ((l, e, n, g, le, ge, b), same)) ↦ equal same l g
  | inr (inr (l, e, n, g, le, ge, b)) ↦ elim (constant_trichotomy v u k h) [
    | inl (l', e', n', g', le', ge', b') ↦ larger l' g' g
    | inr (inl ((l', e', n', g', le', ge', b'), same)) ↦ absurd cc
    | inr (inr (l', e', n', g', le', ge', b')) ↦ absurd cc
  ]
]

module _ (f : List ℕ) (fs : List (List ℕ)) (r1 r2 : Row) (u v : Constant) (e1 : r1 f ≡ ok u)
    (e2 : r2 f ≡ ok v) where
  less_smaller : constant_gt u v ≡ false → constant_lt u v ≡ true → less (f ∷ fs) r1 r2 ≡ true
  unfolding less comes_first compare_fields int32_lt
  less_smaller g l = rw (e1, e2, g, l) refl

  less_larger : constant_gt u v ≡ true → less (f ∷ fs) r1 r2 ≡ false
  unfolding less comes_first compare_fields int32_lt
  less_larger g = rw (e1, e2, g) refl

  less_equal :
      constant_gt u v ≡ false → constant_lt u v ≡ false → less (f ∷ fs) r1 r2 ≡ less fs r1 r2
  unfolding less comes_first compare_fields int32_lt
  less_equal g l = rw (e1, e2, g, l) refl

-- Two records by their first field: one is smaller there, or the rest decides.
abbrev Heads : List ℕ → List (List ℕ) → Row → Row → Constant → Constant → Type 0
Heads f fs r1 r2 u v =
    ((constant_lt u v ≡ true) × (less (f ∷ fs) r1 r2 ≡ true) × (less (f ∷ fs) r2 r1 ≡ false))
    ⊎ ((u ≡ v) × (less (f ∷ fs) r1 r2 ≡ less fs r1 r2) × (less (f ∷ fs) r2 r1 ≡ less fs r2 r1))
    ⊎ ((constant_lt v u ≡ true) × (less (f ∷ fs) r1 r2 ≡ false) × (less (f ∷ fs) r2 r1 ≡ true))

heads :
    (f : List ℕ) (fs : List (List ℕ)) (r1 r2 : Row) (u v : Constant)
    → r1 f ≡ ok u
    → r2 f ≡ ok v
    → IsInt32 u
    → IsInt32 v
    → Heads f fs r1 r2 u v
heads f fs r1 r2 u v e1 e2 h k = elim (compared u v h k) [
  | smaller l g g' ↦
      inl (l, less_smaller f fs r1 r2 u v e1 e2 g l, less_larger f fs r2 r1 v u e2 e1 g')
  | equal same l g ↦ elim (compared v u k h) [
    | smaller l' g' g'' ↦ absurd cc
    | equal same' l' g' ↦
        inr (inl (same, less_equal f fs r1 r2 u v e1 e2 g l, less_equal f fs r2 r1 v u e2 e1 g' l'))
    | larger l' g' g'' ↦ absurd cc
  ]
  | larger l g g' ↦
      inr (inr (l, less_larger f fs r1 r2 u v e1 e2 g', less_smaller f fs r2 r1 v u e2 e1 g l))
]

-- The comparison of comparable records returns.
pub comes_first-less :
    (fields : List (List ℕ)) (r1 r2 : Row)
    → IsComparable fields r1
    → IsComparable fields r2
    → comes_first fields r1 r2 ≡ ok (less fields r1 r2)
unfolding less comes_first compare_fields
comes_first-less [] r1 r2 h k = refl
comes_first-less (f ∷ fs) r1 r2 ((u, e, i), h) ((v, e', j), k) = elim (compared u v i j) [
  | smaller l g g' ↦ rw (e, e', g, l) refl
  | equal same l g ↦ rw (e, e', g, l) (comes_first-less fs r1 r2 h k)
  | larger l g g' ↦ rw (e, e', g') refl
]

-- Of two comparable records at most one comes before the other.
pub less_asymm :
    (fields : List (List ℕ)) (r1 r2 : Row)
    → IsComparable fields r1
    → IsComparable fields r2
    → less fields r1 r2 ≡ true
    → less fields r2 r1 ≡ false
unfolding comes_first compare_fields less int32_lt
less_asymm [] r1 r2 h k l = cc
less_asymm (f ∷ fs) r1 r2 ((u, e, i), h) ((v, e', j), k) l = elim (heads f fs r1 r2 u v e e' i j) [
  | inl (_, a, b) ↦ b
  | inr (inl (_, a, b)) ↦ b ∙ less_asymm fs r1 r2 h k (sym a ∙ l)
  | inr (inr (_, a, b)) ↦ absurd cc
]

lt_same : (u w : Constant) → IsInt32 u → constant_lt u w ≡ true → u ≡ w → ⊥
lt_same u w i s same =
    let loop = subst (λ x. constant_lt u x ≡ true) (sym same) s in
    elim (compared u u i i) [ smaller l g g' ↦ cc | equal _ l g ↦ cc | larger l g g' ↦ cc ]

-- Among comparable records, "does not come after" is transitive.
pub not_less_trans :
    (fields : List (List ℕ)) (r1 r2 r3 : Row)
    → IsComparable fields r1
    → IsComparable fields r2
    → IsComparable fields r3
    → less fields r2 r1 ≡ false
    → less fields r3 r2 ≡ false
    → less fields r3 r1 ≡ false
unfolding comes_first compare_fields less int32_lt
not_less_trans [] r1 r2 r3 h1 h2 h3 l k = refl
not_less_trans (f ∷ fs) r1 r2 r3 ((u, e1, i1), h1) ((v, e2, i2), h2) ((w, e3, i3), h3) l k =
    let below : constant_lt u w ≡ true → less (f ∷ fs) r3 r1 ≡ false = λ s.
      elim (heads f fs r1 r3 u w e1 e3 i1 i3) [
        | inl (_, a, b) ↦ b
        | inr (inl (same, _, _)) ↦ absurd (lt_same u w i1 s same)
        | inr (inr (t, _, _)) ↦ absurd (lt_same u u i1 (constant_lt_trans u w u s t) refl)
      ] in
    elim (heads f fs r1 r2 u v e1 e2 i1 i2) [
      | inr (inr (_, a, b)) ↦ absurd cc
      | inl (s, _, _) ↦ elim (heads f fs r2 r3 v w e2 e3 i2 i3) [
        | inr (inr (_, a, b)) ↦ absurd cc
        | inl (t, _, _) ↦ below (constant_lt_trans u v w s t)
        | inr (inl (same, _, _)) ↦ below (subst (λ x. constant_lt u x ≡ true) same s)
      ]
      | inr (inl (same, a, b)) ↦ elim (heads f fs r2 r3 v w e2 e3 i2 i3) [
        | inr (inr (_, a', b')) ↦ absurd cc
        | inl (t, _, _) ↦ below (subst (λ x. constant_lt x w ≡ true) (sym same) t)
        | inr (inl (same', a', b')) ↦ elim (heads f fs r1 r3 u w e1 e3 i1 i3) [
          | inl (_, _, b'') ↦ b''
          | inr (inl (_, _, b'')) ↦
              b'' ∙ not_less_trans fs r1 r2 r3 h1 h2 h3 (sym b ∙ l) (sym b' ∙ k)
          | inr (inr (t, _, _)) ↦ absurd (lt_same w u i3 t (sym (same ∙ same')))
        ]
      ]
    ]
