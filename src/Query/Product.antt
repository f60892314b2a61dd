-- ===== src/Query/Product.antt =====
-- include/query/productscan.hpp and src/query/productscan.cpp: the product of two scans.
pub mod Rows
use mudopdbmigration.Prelude.{Bool, true, false, ◌||◌, if◌then◌else◌, Result, ok, ◌>>=◌, ◌>>◌}
use mudopdbmigration.Query.Scan.{Scan}

module _ {A B : Type 0} (s1 : Scan A) (s2 : Scan B) where
  unfoldable pub product_before_first : A × B → Result (A × B)
  product_before_first (a, b) = do
    a' ← s1.before_first a
    (_, a'') ← s1.next a'
    b' ← s2.before_first b
    ok (a'', b')

  unfoldable pub product_next : A × B → Result (Bool × (A × B))
  product_next (a, b) = do
    (more2, b') ← s2.next b
    elim more2 [
      | true ↦ ok (true, (a, b'))
      | false ↦ do
        b'' ← s2.before_first b'
        (again, b''') ← s2.next b''
        elim again [
          | false ↦ ok (false, (a, b'''))
          | true ↦ do (more1, a') ← s1.next a; ok (more1, (a', b'''))
        ]
    ]

  unfoldable pub product_scan : Scan (A × B)
  unfolding product_before_first product_next
  product_scan = record {
    before_first = product_before_first;
    next = product_next;
    get_int = λ (a, b) f. if s1.has_field a f then s1.get_int a f else s2.get_int b f;
    get_string = λ (a, b) f. if s1.has_field a f then s1.get_string a f else s2.get_string b f;
    get_val = λ (a, b) f. if s1.has_field a f then s1.get_val a f else s2.get_val b f;
    has_field = λ (a, b) f. s1.has_field a f || s2.has_field b f;
    close = λ (a, b). (do a' ← s1.close a; b' ← s2.close b; ok (a', b'));
  }
