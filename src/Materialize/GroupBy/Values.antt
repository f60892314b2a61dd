-- ===== src/Materialize/GroupBy/Values.antt =====
-- The map of a record's values in the group fields, and what is found in it.
use mudopdbmigration.Constant.{Constant}
use mudopdbmigration.Schema.Fields.{IsIn}
use mudopdbmigration.Prelude.{
  ℕ, ◌≡◌, refl, sym, ap, ◌∙◌, ◌≢◌, inl, inr, true, false, none, some, List, [], ◌∷◌, Bool-cases,
  Option-cases, bytes_eq, bytes_eq_refl, bytes_eq_iff, no_field, ok, err, >>=-eq-ok, ok-injective,
}
use mudopdbmigration.Query.Scan.{Row}
use mudopdbmigration.Materialize.Aggregate.{GroupValue, group_get_val, emplace, fill}

-- Two records with the same value in each of the fields.
abbrev pub AgreeOn : List (List ℕ) → Row → Row → Type 0
AgreeOn [] r r' = Unit
AgreeOn (f ∷ fields) r r' = ((c : Constant) × (r f ≡ ok c) × (r' f ≡ ok c)) × AgreeOn fields r r'

-- The record has a value in each of the fields.
abbrev pub HasValues : List (List ℕ) → Row → Type 0
HasValues [] r = Unit
HasValues (f ∷ fields) r = ((c : Constant) × (r f ≡ ok c)) × HasValues fields r

-- Two records with different values in one of the fields.
abbrev pub DifferIn : List (List ℕ) → Row → Row → Type 0
DifferIn fields r r' =
    (f : List ℕ) × IsIn f fields × ((c c' : Constant) × (r f ≡ ok c) × (r' f ≡ ok c') × (c ≢ c'))

pub emplace_there :
    (vals : GroupValue) (f : List ℕ) (v w : Constant)
    → group_get_val vals f ≡ some w
    → emplace vals f v ≡ vals
unfolding emplace
emplace_there vals f v w e = rw (emplace, e) refl

pub emplace_new :
    (vals : GroupValue) (f : List ℕ) (v : Constant)
    → group_get_val vals f ≡ none
    → emplace vals f v ≡ (f, v) ∷ vals
unfolding emplace
emplace_new vals f v e = rw (emplace, e) refl

pub get_head :
    (vals : GroupValue) (f g : List ℕ) (v : Constant)
    → bytes_eq f g ≡ true
    → group_get_val ((f, v) ∷ vals) g ≡ some v
unfolding group_get_val
get_head vals f g v e = rw e refl

pub get_tail :
    (vals : GroupValue) (f g : List ℕ) (v : Constant)
    → bytes_eq f g ≡ false
    → group_get_val ((f, v) ∷ vals) g ≡ group_get_val vals g
unfolding group_get_val
get_tail vals f g v e = rw e refl

pub get-emplace :
    (vals : GroupValue) (f g : List ℕ) (v c : Constant)
    → group_get_val vals g ≡ some c
    → group_get_val (emplace vals f v) g ≡ some c
get-emplace vals f g v c h = elim (Option-cases (group_get_val vals f)) [
  | inr (w, e) ↦ rw (emplace_there vals f v w e) h
  | inl e ↦ rw (emplace_new vals f v e) (elim (Bool-cases (bytes_eq f g)) [
    | inr ne ↦ get_tail vals f g v ne ∙ h
    | inl eq ↦
        let same = (bytes_eq_iff f g).0 eq in
        let q : group_get_val vals f ≡ some c = ap (group_get_val vals) same ∙ h in
        absurd (let z : none ≡ some c = sym e ∙ q in cc)
  ])
]

get-fill :
    (r : Row) (fields : List (List ℕ)) (acc vals : GroupValue) (g : List ℕ) (c : Constant)
    → fill r fields acc ≡ ok vals
    → group_get_val acc g ≡ some c
    → group_get_val vals g ≡ some c
unfolding fill
get-fill r [] acc vals g c e h = ap (λ q. group_get_val q g) (sym (ok-injective e)) ∙ h
get-fill r (f ∷ fields) acc vals g c e h =
    let (v, _, further) = >>=-eq-ok (r f) (λ v. fill r fields (emplace acc f v)) e in
    get-fill r fields (emplace acc f v) vals g c further (get-emplace acc f g v c h)

-- The entries are values of the record.
unfoldable pub OfRow : Row → GroupValue → Type 0
OfRow r acc = (g : List ℕ) (c : Constant) → group_get_val acc g ≡ some c → r g ≡ ok c

emplace-OfRow :
    (r : Row) (acc : GroupValue) (f : List ℕ) (v : Constant)
    → r f ≡ ok v
    → OfRow r acc
    → OfRow r (emplace acc f v)
unfolding OfRow
emplace-OfRow r acc f v e h = elim (Option-cases (group_get_val acc f)) [
  | inr (w, found) ↦ rw (emplace_there acc f v w found) h
  | inl found ↦ rw (emplace_new acc f v found) (λ g c. elim (Bool-cases (bytes_eq f g)) [
    | inr ne ↦ rw (get_tail acc f g v ne) (h g c)
    | inl eq ↦ rw (get_head acc f g v eq) (λ q.
        let same = (bytes_eq_iff f g).0 eq in
        ap r (sym same) ∙ e ∙ ap (λ o. elim o [ some x ↦ ok x | none ↦ err no_field ]) q)
  ])
]

get-emplaced :
    (r : Row) (acc : GroupValue) (f : List ℕ) (v : Constant)
    → r f ≡ ok v
    → OfRow r acc
    → group_get_val (emplace acc f v) f ≡ some v
unfolding OfRow
get-emplaced r acc f v e h = elim (Option-cases (group_get_val acc f)) [
  | inr (w, found) ↦
      rw (emplace_there acc f v w found) (found ∙ ap some (ok-injective (sym (h f w found) ∙ e)))
  | inl found ↦ rw (emplace_new acc f v found) (get_head acc f f v (bytes_eq_refl f))
]

pub fill-has :
    (r : Row) (fields : List (List ℕ)) (acc vals : GroupValue) (g : List ℕ) (c : Constant)
    → OfRow r acc
    → fill r fields acc ≡ ok vals
    → IsIn g fields
    → r g ≡ ok c
    → group_get_val vals g ≡ some c
unfolding fill
fill-has r [] acc vals g c h e i v = absurd i
fill-has r (f ∷ fields) acc vals g c h e i v =
    let (w, fw, further) = >>=-eq-ok (r f) (λ w. fill r fields (emplace acc f w)) e in
    elim i [
      | inr later ↦
          fill-has r fields (emplace acc f w) vals g c (emplace-OfRow r acc f w fw h) further later
            v
      | inl here ↦
          let wc : w ≡ c = ok-injective (sym fw ∙ ap r (sym here) ∙ v) in
          get-fill r fields (emplace acc f w) vals g c further
            (ap (group_get_val (emplace acc f w)) here ∙ get-emplaced r acc f w fw h ∙ ap some wc)
    ]

pub fill-agree :
    (fields : List (List ℕ)) (r r' : Row) (acc : GroupValue)
    → AgreeOn fields r r'
    → fill r' fields acc ≡ fill r fields acc
unfolding fill
fill-agree [] r r' acc h = refl
fill-agree (f ∷ fields) r r' acc ((c, e, e'), h) =
    rw (e, e') (fill-agree fields r r' (emplace acc f c) h)

pub fill-total :
    (fields : List (List ℕ)) (r : Row) (acc : GroupValue)
    → HasValues fields r
    → (vals : GroupValue) × (fill r fields acc ≡ ok vals)
unfolding fill
fill-total [] r acc h = (acc, refl)
fill-total (f ∷ fields) r acc ((c, e), h) = rw e (fill-total fields r (emplace acc f c) h)
