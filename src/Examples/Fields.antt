-- ===== src/Examples/Fields.antt =====
-- A schema of an integer field and a string field.
use mudopdbmigration.Page.{size_mod}
use mudopdbmigration.Prelude.{
  ℕ, ◌+◌, ◌<◌, ◌≡◌, refl, inl, inr, List, [], ◌∷◌, ◌++◌, arith, if◌then◌else◌, bytes_eq, update, ok,
}
use mudopdbmigration.Schema.{
  Schema, empty_schema, add_int_field, add_string_field, has_field, add_all, add_field,
}
use mudopdbmigration.Schema.Fields.{IsComplete, add_all_lem, member}
use mudopdbmigration.Layout.{Layout, layout_of}
use mudopdbmigration.Layout.Slots.{IsDistinct, IsLaidOut, layout_of-IsLaidOut, total, bytes_of}

abbrev student : Schema
student = add_string_field (add_int_field empty_schema (1 ∷ [])) (2 ∷ []) 10

student-IsComplete : IsComplete student
unfolding add_string_field add_int_field add_field update bytes_eq has_field
student-IsComplete f (inl e) = rw e refl
student-IsComplete f (inr (inl e)) = rw e refl
student-IsComplete f (inr (inr e)) = absurd e

student-IsDistinct : IsDistinct student.fields
unfolding add_string_field add_int_field bytes_eq
student-IsDistinct = (refl, (refl, tt))

student_small : 4 + total student student.fields < size_mod
unfolding add_string_field add_int_field bytes_of bytes_eq
student_small = omega arith

add_all_lem_example :
    (sch' : Schema) × (add_all empty_schema student ≡ ok sch')
    × (sch'.fields ≡ empty_schema.fields ++ student.fields)
    × ((f : List ℕ)
        → sch'.info f ≡ (if member f student.fields then student.info f else empty_schema.info f))
add_all_lem_example = add_all_lem empty_schema student student-IsComplete

layout_of-IsLaidOut_example : (lay : Layout) × (layout_of student ≡ ok lay) × IsLaidOut student lay
layout_of-IsLaidOut_example =
    layout_of-IsLaidOut student student-IsComplete student-IsDistinct student_small
