-- ===== src/Schema/Fields.antt =====
-- Adding the fields of one schema to another.
use mathlib.Core.List.{append_assoc, append-nil}
use mudopdbmigration.Prelude.{
  ℕ, ◌≡◌, refl, sym, ◌∙◌, ◌⊎◌, inl, inr, Bool, true, false, ◌||◌, some, List, [], ◌∷◌, ◌++◌, arith,
  if◌then◌else◌, Option-cases, bytes_eq, bytes_eq_iff, ok,
}
use mudopdbmigration.Schema.{
  Schema, FieldInfo, add_field, has_field, field_type, field_length, add_from, add_each, add_all,
}

abbrev pub IsIn : List ℕ → List (List ℕ) → Type 0
IsIn f [] = ⊥
IsIn f (g ∷ gs) = (f ≡ g) ⊎ IsIn f gs

-- Every field that is listed has a type and a length.
abbrev pub IsComplete : Schema → Type 0
IsComplete sch = (f : List ℕ) → IsIn f sch.fields → has_field sch f ≡ true

abbrev pub member : List ℕ → List (List ℕ) → Bool
member f [] = false
member f (g ∷ gs) = bytes_eq g f || member f gs

add_from-lem :
    (sch : Schema) (f : List ℕ) (other : Schema) (i : FieldInfo)
    → other.info f ≡ some i
    → add_from sch f other ≡ ok (add_field sch f i.kind i.width)
unfolding add_from
add_from-lem sch f other i e = rw (e, field_type, field_length)

add_each_lem :
    (sch : Schema) (gs : List (List ℕ)) (other : Schema)
    → ((f : List ℕ) → IsIn f gs → has_field other f ≡ true)
    → (sch' : Schema) × (add_each sch gs other ≡ ok sch')
      × (sch'.fields ≡ sch.fields ++ gs)
      × ((f : List ℕ) → sch'.info f ≡ (if member f gs then other.info f else sch.info f))
unfolding add_each has_field
add_each_lem sch [] other h = (sch, refl, sym (append-nil sch.fields), λ f. refl)
add_each_lem sch (g ∷ gs) other h = elim (Option-cases (other.info g)) [
  | inl e ↦ absurd (ground (arith, h g (inl refl)))
  | inr (i, e) ↦
      let sch1 = add_field sch g i.kind i.width in
      let (sch', e', fs, is) = add_each_lem sch1 gs other (λ f m. h f (inr m)) in
      (
        sch',
        rw (add_from-lem sch g other i e) e',
        unfold add_field in fs ∙ append_assoc sch.fields (g ∷ []) gs,
        λ f. unfold add_field in ground (arith, is f, bytes_eq_iff g f),
      )
]

-- Adding all fields of a complete schema does not throw. The new fields stand behind the old ones.
-- Each name among the added fields has the type and length of the added schema, and other names keep
-- theirs.
pub add_all_lem :
    (sch other : Schema)
    → IsComplete other
    → (sch' : Schema) × (add_all sch other ≡ ok sch')
      × (sch'.fields ≡ sch.fields ++ other.fields)
      × ((f : List ℕ) → sch'.info f ≡ (if member f other.fields then other.info f else sch.info f))
unfolding add_all
add_all_lem sch other h = add_each_lem sch other.fields other h
