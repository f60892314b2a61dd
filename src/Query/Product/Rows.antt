-- ===== src/Query/Product/Rows.antt =====
-- The records of a product.
use mathlib.Core.Path.{fun_ext}
use mudopdbmigration.Prelude.{
  ℕ, zero, suc, ◌<◌, ◌≡◌, refl, ◌∙◌, Bool, true, some, List, [], ◌∷◌, ◌++◌, map, arith,
  if◌then◌else◌, length, ok, ◌>>=◌,
}
use mudopdbmigration.Query.Scan.{Scan, Runs, Row, drain}
use mudopdbmigration.Query.Product.{product_scan, product_next, product_before_first}

-- A record of the first scan beside one of the second, where the fields of the first go first.
abbrev pub pair : (List ℕ → Bool) → Row → Row → Row
pair names r r' = λ f. if names f then r f else r' f

-- Every record of the first list with every record of the second, the first list outermost.
abbrev pub product : (List ℕ → Bool) → List Row → List Row → List Row
product names [] bs = []
product names (r ∷ rs) bs = map (pair names r) bs ++ product names rs bs

product-nil : (names : List ℕ → Bool) (rs : List Row) → product names rs [] ≡ []
product-nil names [] = refl
product-nil names (r ∷ rs) = product-nil names rs

module _ {A B : Type 0} {GoodA : A → Type 0} {GoodB : B → Type 0} {s1 : Scan A} {s2 : Scan B}
    (ra : Runs GoodA s1) (rb : Runs GoodB s2) where
  abbrev scan : Scan (A × B)
  scan = product_scan s1 s2

  get_val-product :
      (a : A) (b : B) (r : Row)
      → GoodA a
      → s2.get_val b ≡ r
      → scan.get_val (a, b) ≡ pair ra.names (s1.get_val a) r
  unfolding product_scan
  get_val-product a b r g e = fun_ext (λ f. rw (ra.fields a g f, e) refl)

  -- From a record of the first scan, the rest of the second, then all of the second for each later
  -- record of the first.
  product_rest :
      (fuel : ℕ) (a : A) (b : B) (rs bs all : List Row)
      → GoodA a
      → GoodB b
      → ra.rest a ≡ rs
      → rb.rest b ≡ bs
      → rb.all b ≡ all
      → length (map (pair ra.names (s1.get_val a)) bs ++ product ra.names rs all) < fuel
      → drain scan fuel (a, b)
        ≡ ok (some (map (pair ra.names (s1.get_val a)) bs ++ product ra.names rs all))
  unfolding drain product_next product_scan
  product_rest zero a b rs bs all g h e f k lt = absurd (omega arith)
  product_rest (suc fuel) a b rs (b0 ∷ bs) all g h e f k lt =
      let (b', n, h', f', k', v) = rb.at_row b b0 bs h f in
      rw
        (
          n,
          product_rest fuel a b' rs bs all g h' e f' (k' ∙ k) (omega arith),
          get_val-product a b' b0 g v,
        )
        refl
  product_rest (suc fuel) a b rs [] [] g h e f k lt =
      let (b1, n1, h1, k1) = rb.at_end b h f in
      let (b2, n2, h2, f2, k2) = rb.reset b1 h1 in
      let (b3, n3, h3, k3) = rb.at_end b2 h2 (f2 ∙ k1 ∙ k) in
      rw (n1, n2, n3, product-nil ra.names rs) refl
  product_rest (suc fuel) a b [] [] (b0 ∷ all) g h e f k lt =
      let (b1, n1, h1, k1) = rb.at_end b h f in
      let (b2, n2, h2, f2, k2) = rb.reset b1 h1 in
      let (b3, n3, h3, f3, k3, v3) = rb.at_row b2 b0 all h2 (f2 ∙ k1 ∙ k) in
      let (a', n4, g', _) = ra.at_end a g e in rw (n1, n2, n3, n4) refl
  product_rest (suc fuel) a b (r ∷ rs) [] (b0 ∷ all) g h e f k lt =
      let (b1, n1, h1, k1) = rb.at_end b h f in
      let (b2, n2, h2, f2, k2) = rb.reset b1 h1 in
      let (b3, n3, h3, f3, k3, v3) = rb.at_row b2 b0 all h2 (f2 ∙ k1 ∙ k) in
      let (a', n4, g', e', _, v4) = ra.at_row a r rs g e in
      rw
        (
          n1,
          n2,
          n3,
          n4,
          product_rest fuel a' b3 rs all (b0 ∷ all) g' h3 e' f3 (k3 ∙ k2 ∙ k1 ∙ k)
              (rw v4 (omega arith)),
          get_val-product a' b3 b0 g' v3,
          v4,
        )
        refl

  -- When the first scan has a record, the loop over the product from its start gives every pair of
  -- records, the first scan outermost, given more fuel than there are pairs.
  pub product_scan-drain :
      (fuel : ℕ) (a : A) (b : B) (r : Row) (rs bs : List Row)
      → GoodA a
      → GoodB b
      → ra.all a ≡ r ∷ rs
      → rb.all b ≡ bs
      → length (product ra.names (r ∷ rs) bs) < fuel
      → (do s ← product_before_first s1 s2 (a, b); drain (product_scan s1 s2) fuel s)
        ≡ ok (some (product ra.names (r ∷ rs) bs))
  unfolding product_before_first
  product_scan-drain fuel a b r rs bs g h e f lt =
      let (a1, n1, g1, e1, _) = ra.reset a g in
      let (a2, n2, g2, e2, _, v2) = ra.at_row a1 r rs g1 (e1 ∙ e) in
      let (b1, n3, h1, f1, k1) = rb.reset b h in
      rw (n1, n2, n3, product_rest fuel a2 b1 rs bs bs g2 h1 e2 (f1 ∙ f) (k1 ∙ f) (rw v2 (lt)), v2)
        refl

  -- When the first scan has no record and the second has one, the product's first `next` still
  -- answers true: the result of the first scan's `next` is dropped.
  pub product_next_of_empty :
      (a : A) (b : B) (r : Row) (rs : List Row)
      → GoodA a
      → GoodB b
      → ra.all a ≡ []
      → rb.all b ≡ r ∷ rs
      → (s : A × B) × ((do s' ← product_before_first s1 s2 (a, b); product_next s1 s2 s')
          ≡ ok (true, s))
  unfolding product_before_first product_next
  product_next_of_empty a b r rs g h e f =
      let (a1, n1, g1, e1, _) = ra.reset a g in
      let (a2, n2, g2, _) = ra.at_end a1 g1 (e1 ∙ e) in
      let (b1, n3, h1, f1, k1) = rb.reset b h in
      let (b2, n4, _, _, _, _) = rb.at_row b1 r rs h1 (f1 ∙ f) in
      ((a2, b2), rw (n1, n2, n3, n4) refl)
