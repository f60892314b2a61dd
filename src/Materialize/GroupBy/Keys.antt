-- ===== src/Materialize/GroupBy/Keys.antt =====
-- The values that the records of a group share.
use mudopdbmigration.Constant.Order.{constant_eq_iff}
use mudopdbmigration.Constant.{Constant}
use mudopdbmigration.Schema.Fields.{IsIn}
use mudopdbmigration.Prelude.{
  ℕ, ◌≡◌, refl, sym, ap, subst, ◌∙◌, inl, inr, Bool, true, false, ◌&&◌, Option, none, some, List,
  [], ◌∷◌, arith, Bool-cases, Option-cases, bytes_eq, bytes_eq_refl, bytes_eq_iff, ok, >>=-eq-ok,
  ok-injective,
}
use mudopdbmigration.Query.Scan.{Row}
use mudopdbmigration.Materialize.Aggregate.{
  GroupValue, group_get_val, emplace, fill, new_group_value, holds, included, group_value_eq,
  group_value_ne,
}
use mudopdbmigration.Materialize.GroupBy.Values.{
  AgreeOn, HasValues, DifferIn, emplace_there, emplace_new, get_head, get_tail, get-emplace, OfRow,
  fill-has, fill-agree, fill-total,
}

-- Every entry of the first is what the second has for its key.
abbrev pub EntriesOf : GroupValue → GroupValue → Type 0
EntriesOf [] vals = Unit
EntriesOf ((f, v) ∷ sub) vals = (group_get_val vals f ≡ some v) × EntriesOf sub vals

EntriesOf-cons :
    (sub vals : GroupValue) (f : List ℕ) (v : Constant)
    → group_get_val vals f ≡ none
    → EntriesOf sub vals
    → EntriesOf sub ((f, v) ∷ vals)
EntriesOf-cons [] vals f v e h = tt
EntriesOf-cons ((g, w) ∷ sub) vals f v e (found, h) = (
  ap (λ q. group_get_val q g) (sym (emplace_new vals f v e)) ∙ get-emplace vals f g v w found,
  EntriesOf-cons sub vals f v e h,
)

emplace-EntriesOf :
    (vals : GroupValue) (f : List ℕ) (v : Constant)
    → EntriesOf vals vals
    → EntriesOf (emplace vals f v) (emplace vals f v)
emplace-EntriesOf vals f v h = elim (Option-cases (group_get_val vals f)) [
  | inr (w, e) ↦ rw (emplace_there vals f v w e) h
  | inl e ↦
      rw (emplace_new vals f v e)
        (get_head vals f f v (bytes_eq_refl f), EntriesOf-cons vals vals f v e h)
]

fill-EntriesOf :
    (r : Row) (fields : List (List ℕ)) (acc vals : GroupValue)
    → EntriesOf acc acc
    → fill r fields acc ≡ ok vals
    → EntriesOf vals vals
unfolding fill
fill-EntriesOf r [] acc vals h e = subst (λ q. EntriesOf q q) (ok-injective e) h
fill-EntriesOf r (f ∷ fields) acc vals h e =
    let (v, _, further) = >>=-eq-ok (r f) (λ v. fill r fields (emplace acc f v)) e in
    fill-EntriesOf r fields (emplace acc f v) vals (emplace-EntriesOf acc f v h) further

included_all : (sub vals : GroupValue) → EntriesOf sub vals → included sub vals ≡ true
unfolding included
included_all [] vals h = refl
included_all ((f, v) ∷ sub) vals (e, h) =
    let same = (constant_eq_iff v v).1 refl in rw e (rw same (included_all sub vals h))

both_true : (a b : Bool) → a && b ≡ true → (a ≡ true) × (b ≡ true)
both_true a b h = ground arith

held : (o : Option Constant) (v c : Constant) → holds o v ≡ true → o ≡ some c → v ≡ c
held none v c h e = absurd cc
held (some w) v c h e = (constant_eq_iff v c).0 (ground (arith, h, e))

some_path : {A : Type 0} {a b : A} → some a ≡ some b → a ≡ b
some_path {A} {a} q = ap (λ o. elim o [ some x ↦ x | none ↦ a ]) q

included_has :
    (sub vals : GroupValue) (f : List ℕ) (c c' : Constant)
    → included sub vals ≡ true
    → group_get_val sub f ≡ some c
    → group_get_val vals f ≡ some c'
    → c ≡ c'
unfolding included group_get_val
included_has [] vals f c c' h e e' = absurd (let z : none ≡ some c = e in cc)
included_has ((g, v) ∷ sub) vals f c c' h e e' =
    let both = both_true (holds (group_get_val vals g) v) (included sub vals) h in
    elim (Bool-cases (bytes_eq g f)) [
      | inr ne ↦ included_has sub vals f c c' both.1 (sym (get_tail sub g f v ne) ∙ e) e'
      | inl eq ↦
          let same = (bytes_eq_iff g f).0 eq in
          some_path (sym e ∙ get_head sub g f v eq)
          ∙ held (group_get_val vals g) v c' both.0 (ap (group_get_val vals) same ∙ e')
    ]

-- What is known of the values that a record `r` gives to the map.
pub record KeysOf (fields : List (List ℕ)) (r : Row) : Type 0 where
  pub vals : GroupValue
  pub made : new_group_value r fields ≡ ok vals
  pub has : (f : List ℕ) (c : Constant) → IsIn f fields → r f ≡ ok c → group_get_val vals f ≡ some c
  pub entries : EntriesOf vals vals

pub keys_of : (fields : List (List ℕ)) (r : Row) → HasValues fields r → KeysOf fields r
unfolding new_group_value OfRow group_get_val
keys_of fields r h =
    let (vals, e) = fill-total fields r [] h in
    record {
      vals = vals;
      made = e;
      has = λ f c i v. fill-has r fields [] vals f c (λ g c' q. absurd cc) e i v;
      entries = fill-EntriesOf r fields [] vals tt e;
    }

-- Records that agree in the fields are of one group.
pub agree_same :
    (fields : List (List ℕ)) (r r' : Row) (k : KeysOf fields r)
    → AgreeOn fields r r'
    → (gv : GroupValue) × (new_group_value r' fields ≡ ok gv) × (group_value_ne k.vals gv ≡ false)
unfolding new_group_value group_value_ne group_value_eq
agree_same fields r r' k h =
    let all = included_all k.vals k.vals k.entries in
    (k.vals, fill-agree fields r r' [] h ∙ k.made, ground (arith, all))

-- Records that differ in one of the fields are not.
pub differ_other :
    (fields : List (List ℕ)) (r r' : Row) (k : KeysOf fields r)
    → HasValues fields r'
    → DifferIn fields r r'
    → (gv : GroupValue) × (new_group_value r' fields ≡ ok gv) × (group_value_ne k.vals gv ≡ true)
unfolding group_value_ne group_value_eq
differ_other fields r r' k h (f, i, (c, c', e, e', ne)) =
    let k' = keys_of fields r' h in
    (
      k'.vals,
      k'.made,
      elim (Bool-cases (included k.vals k'.vals)) [
        | inl all ↦
            absurd (ne (included_has k.vals k'.vals f c c' all (k.has f c i e) (k'.has f c' i e')))
        | inr some_not ↦ ground (arith, some_not)
      ],
    )
