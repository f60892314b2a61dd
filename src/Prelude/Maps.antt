-- ===== src/Prelude/Maps.antt =====
-- Maps from byte strings, as functions.
use Prim.Native.Nat.{ℕ}
use mathlib.Core.List.{List}
use mudopdbmigration.Prelude.Tests.{bytes_eq, if◌then◌else◌}

-- A map with one entry set.
unfoldable pub update {ℓ} : {V : Type ℓ} → (List ℕ → V) → List ℕ → V → List ℕ → V
update f name v = λ other. if bytes_eq name other then v else f other
