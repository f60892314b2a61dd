-- ===== src/Metadata/Names.antt =====
-- The names of the catalog's tables and of their fields.
use mudopdbmigration.Prelude.{ℕ, List, [], ◌∷◌}

abbrev pub tblcat_name : List ℕ
tblcat_name = b't' ∷ b'b' ∷ b'l' ∷ b'c' ∷ b'a' ∷ b't' ∷ []

abbrev pub fldcat_name : List ℕ
fldcat_name = b'f' ∷ b'l' ∷ b'd' ∷ b'c' ∷ b'a' ∷ b't' ∷ []

abbrev pub viewcat_name : List ℕ
viewcat_name = b'v' ∷ b'i' ∷ b'e' ∷ b'w' ∷ b'c' ∷ b'a' ∷ b't' ∷ []

abbrev pub tblname_name : List ℕ
tblname_name = b't' ∷ b'b' ∷ b'l' ∷ b'n' ∷ b'a' ∷ b'm' ∷ b'e' ∷ []

abbrev pub slotsize_name : List ℕ
slotsize_name = b's' ∷ b'l' ∷ b'o' ∷ b't' ∷ b's' ∷ b'i' ∷ b'z' ∷ b'e' ∷ []

abbrev pub fldname_name : List ℕ
fldname_name = b'f' ∷ b'l' ∷ b'd' ∷ b'n' ∷ b'a' ∷ b'm' ∷ b'e' ∷ []

abbrev pub type_name : List ℕ
type_name = b't' ∷ b'y' ∷ b'p' ∷ b'e' ∷ []

abbrev pub length_name : List ℕ
length_name = b'l' ∷ b'e' ∷ b'n' ∷ b'g' ∷ b't' ∷ b'h' ∷ []

abbrev pub offset_name : List ℕ
offset_name = b'o' ∷ b'f' ∷ b'f' ∷ b's' ∷ b'e' ∷ b't' ∷ []

abbrev pub viewname_name : List ℕ
viewname_name = b'v' ∷ b'i' ∷ b'e' ∷ b'w' ∷ b'n' ∷ b'a' ∷ b'm' ∷ b'e' ∷ []

abbrev pub viewdef_name : List ℕ
viewdef_name = b'v' ∷ b'i' ∷ b'e' ∷ b'w' ∷ b'd' ∷ b'e' ∷ b'f' ∷ []
