-- ===== src/Layout/Slots.antt =====
-- The fields of a slot do not overlap.
use mudopdbmigration.Page.{size_mod}
use mudopdbmigration.Prelude.{
  ℕ, ◌+◌, ◌%◌, ◌≤◌, ◌<◌, ◌≡◌, refl, sym, ◌∙◌, ◌≢◌, ◌⊎◌, inl, inr, true, false, Option, none, some,
  List, [], ◌∷◌, arith, if◌then◌else◌, Bool-cases, bytes_eq, bytes_eq_iff, update, ok,
}
use mudopdbmigration.Schema.{Schema, integer, varchar, has_field}
use mudopdbmigration.Schema.Fields.{IsIn, IsComplete, member}
use mudopdbmigration.Layout.{Layout, length_in_bytes, place_fields, layout_of, offset}

-- The bytes of a field that the schema has, without wrapping.
unfoldable pub bytes_of : Schema → List ℕ → ℕ
bytes_of sch f = elim (sch.info f) [
  | none ↦ 0
  | some i ↦ elim i.kind [ integer ↦ 4 | varchar ↦ 4 + i.width ]
]

abbrev pub total : Schema → List (List ℕ) → ℕ
total sch [] = 0
total sch (f ∷ fs) = bytes_of sch f + total sch fs

abbrev pub IsDistinct : List (List ℕ) → Type 0
IsDistinct [] = Unit
IsDistinct (f ∷ fs) = (member f fs ≡ false) × IsDistinct fs

length_in_bytes-eq :
    (sch : Schema) (f : List ℕ)
    → has_field sch f ≡ true
    → bytes_of sch f < size_mod
    → length_in_bytes sch f ≡ ok (bytes_of sch f)
unfolding length_in_bytes bytes_of has_field
length_in_bytes-eq sch f h small = ground arith

-- The offset that the loop gives to a field, from the position of the first field.
abbrev pub position_in : Schema → List (List ℕ) → ℕ → List ℕ → Option ℕ → Option ℕ
position_in sch [] at f o = o
position_in sch (g ∷ gs) at f o =
    position_in sch gs (at + bytes_of sch g) f (if bytes_eq g f then some at else o)

place_fields_step :
    (sch : Schema) (g : List ℕ) (gs : List (List ℕ)) (offsets : List ℕ → Option ℕ) (at : ℕ)
    → has_field sch g ≡ true
    → at + bytes_of sch g < size_mod
    → place_fields sch (g ∷ gs) offsets at
      ≡ place_fields sch gs (update offsets g (some at)) (at + bytes_of sch g)
unfolding place_fields
place_fields_step sch g gs offsets at h small =
    let fits : (at + bytes_of sch g) % size_mod ≡ at + bytes_of sch g = omega arith in
    rw (length_in_bytes-eq sch g h (omega arith)) (rw fits)

place_fields_lem :
    (sch : Schema) (fs : List (List ℕ)) (offsets : List ℕ → Option ℕ) (at : ℕ)
    → ((f : List ℕ) → IsIn f fs → has_field sch f ≡ true)
    → at + total sch fs < size_mod
    → (lay : Layout) × (place_fields sch fs offsets at ≡ ok lay)
      × (lay.slotsize ≡ at + total sch fs)
      × ((f : List ℕ) → lay.offsets f ≡ position_in sch fs at f (offsets f))
unfolding place_fields
place_fields_lem sch [] offsets at h small = (_, refl, omega arith, λ f. refl)
place_fields_lem sch (g ∷ gs) offsets at h small =
    let (lay, e, s, os) =
      place_fields_lem sch gs (update offsets g (some at)) (at + bytes_of sch g)
        (λ f m. h f (inr m)) (omega arith) in
    (
      lay,
      place_fields_step sch g gs offsets at (h g (inl refl)) (omega arith) ∙ e,
      omega arith,
      λ f. unfold update in os f,
    )

-- The positions that the loop gives: a field stands behind the fields in front of it.
abbrev pub Placed : Schema → List (List ℕ) → ℕ → List ℕ → ℕ → Type 0
Placed sch [] at f o = ⊥
Placed sch (g ∷ gs) at f o = ((g ≡ f) × (o ≡ at)) ⊎ (Placed sch gs (at + bytes_of sch g) f o)

position_of_missing :
    (sch : Schema) (fs : List (List ℕ)) (at : ℕ) (f : List ℕ) (o : Option ℕ)
    → member f fs ≡ false
    → position_in sch fs at f o ≡ o
position_of_missing sch [] at f o h = refl
position_of_missing sch (g ∷ gs) at f o h =
    ground (arith, position_of_missing sch gs (at + bytes_of sch g) f o)

position-Placed :
    (sch : Schema) (fs : List (List ℕ)) (at : ℕ) (f : List ℕ) (d : Option ℕ)
    → IsDistinct fs
    → member f fs ≡ true
    → (o : ℕ) × (position_in sch fs at f d ≡ some o) × Placed sch fs at f o
position-Placed sch [] at f d h m = cc
position-Placed sch (g ∷ gs) at f d h m = elim (Bool-cases (bytes_eq g f)) [
  | inl e ↦
      let same = (bytes_eq_iff g f).0 e in
      (
        at,
        rw e (position_of_missing sch gs (at + bytes_of sch g) f (some at) (rw (← same) h.0)),
        inl (same, refl),
      )
  | inr e ↦
      let (o, p, q) = position-Placed sch gs (at + bytes_of sch g) f d h.1 (ground arith) in
      (o, rw e p, inr q)
]

Placed-bounds :
    (sch : Schema) (fs : List (List ℕ)) (at : ℕ) (f : List ℕ) (o : ℕ)
    → Placed sch fs at f o
    → (at ≤ o) × (o + bytes_of sch f ≤ at + total sch fs)
Placed-bounds sch [] at f o h = absurd h
Placed-bounds sch (g ∷ gs) at f o (inl (e, p)) = (omega arith, rw (← e) (omega arith))
Placed-bounds sch (g ∷ gs) at f o (inr q) =
    omega (arith, Placed-bounds sch gs (at + bytes_of sch g) f o q)

Placed-apart :
    (sch : Schema) (fs : List (List ℕ)) (at : ℕ) (f g : List ℕ) (o o' : ℕ)
    → f ≢ g
    → Placed sch fs at f o
    → Placed sch fs at g o'
    → (o + bytes_of sch f ≤ o') ⊎ (o' + bytes_of sch g ≤ o)
Placed-apart sch [] at f g o o' ne p q = absurd p
Placed-apart sch (k ∷ ks) at f g o o' ne (inl (e, p)) (inl (e', q)) = absurd (ne (sym e ∙ e'))
Placed-apart sch (k ∷ ks) at f g o o' ne (inl (e, p)) (inr q) =
    inl (rw (← e) (omega (arith, Placed-bounds sch ks (at + bytes_of sch k) g o' q)))
Placed-apart sch (k ∷ ks) at f g o o' ne (inr p) (inl (e, q)) =
    inr (rw (← e) (omega (arith, Placed-bounds sch ks (at + bytes_of sch k) f o p)))
Placed-apart sch (k ∷ ks) at f g o o' ne (inr p) (inr q) =
    Placed-apart sch ks (at + bytes_of sch k) f g o o' ne p q

offset_found : (lay : Layout) (f : List ℕ) (o : ℕ) → lay.offsets f ≡ some o → offset lay f ≡ ok o
unfolding offset
offset_found lay f o e = rw (e, offset)

ok_injective : (m n : ℕ) → ok m ≡ ok n → m ≡ n
ok_injective m n e = cc

-- What the first constructor makes of a schema.
pub record IsLaidOut (sch : Schema) (lay : Layout) : Type 0 where
  pub slots : lay.slotsize ≡ 4 + total sch sch.fields
  pub placed :
      (f : List ℕ)
      → member f sch.fields ≡ true
      → (o : ℕ) × (offset lay f ≡ ok o) × (4 ≤ o) × (o + bytes_of sch f ≤ lay.slotsize)
  pub apart :
      (f g : List ℕ) (o o' : ℕ)
      → member f sch.fields ≡ true
      → member g sch.fields ≡ true
      → f ≢ g
      → offset lay f ≡ ok o
      → offset lay g ≡ ok o'
      → (o + bytes_of sch f ≤ o') ⊎ (o' + bytes_of sch g ≤ o)

-- A complete schema with distinct fields, whose bytes and the flag are fewer than 2 ^ 64, is laid
-- out without an exception. The slot is the flag and the fields, every field lies in it behind
-- the flag, and no two fields share a byte.
pub layout_of-IsLaidOut :
    (sch : Schema)
    → IsComplete sch
    → IsDistinct sch.fields
    → 4 + total sch sch.fields < size_mod
    → (lay : Layout) × (layout_of sch ≡ ok lay) × IsLaidOut sch lay
unfolding layout_of offset
layout_of-IsLaidOut sch complete distinct small =
    let (lay, e, s, os) = place_fields_lem sch sch.fields (λ _. none) 4 complete small in
    let at = λ (f : List ℕ) (m : member f sch.fields ≡ true).
      position-Placed sch sch.fields 4 f none distinct m in
    (
      lay,
      e,
      record {
        slots = s;
        placed = λ f m.
            let (o, p, q) = at f m in
            let b = Placed-bounds sch sch.fields 4 f o q in
            (o, offset_found lay f o (os f ∙ p), b.0, rw s b.1);
        apart = λ f g o o' m m' ne eo eo'.
            let (i, p, q) = at f m in
            let (j, p', q') = at g m' in
            let same : o ≡ i = ok_injective o i (sym eo ∙ offset_found lay f i (os f ∙ p)) in
            let same' : o' ≡ j = ok_injective o' j (sym eo' ∙ offset_found lay g j (os g ∙ p')) in
            omega (arith, Placed-apart sch sch.fields 4 f g i j ne q q');
      },
    )
