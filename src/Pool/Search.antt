-- ===== src/Pool/Search.antt =====
-- The two searches of the pool, and the count of unpinned buffers.
use mudopdbmigration.Prelude.{
  ℕ, zero, suc, ◌+◌, ◌≡◌, refl, subst, inl, inr, Bool, true, false, none, some, List, [], ◌∷◌,
  arith, if◌then◌else◌, Bool-cases, get_elem?, set,
}
use mudopdbmigration.Buffer
use mudopdbmigration.Buffer.{Buffer, is_pinned}
use mudopdbmigration.Pool.{find_from}

-- Every buffer of a pool.
abbrev pub All {ℓ} : (Buffer → Type ℓ) → List Buffer → Type ℓ
All P [] = Unit
All P (b ∷ bs) = P b × All P bs

-- What a search finds: the first position whose buffer passes, or that there is none.
pub find_from-found :
    (test : Buffer → Bool) (i : ℕ) (bs : List Buffer) (j : ℕ)
    → find_from test i bs ≡ some j
    → (k : ℕ) × (b : Buffer) × (j ≡ i + k) × (get_elem? bs k ≡ some b) × (test b ≡ true)
unfolding find_from
find_from-found test i [] j h = cc
find_from-found test i (b ∷ bs) j h = elim (Bool-cases (test b)) [
  | inl e ↦ (0, b, ground arith, refl, e)
  | inr e ↦
      let (k, b', p, q, r) = find_from-found test (i + 1) bs j (rw e at h) in
      (suc k, b', omega arith, q, r)
]

pub find_from-missed :
    (test : Buffer → Bool) (i : ℕ) (bs : List Buffer)
    → find_from test i bs ≡ none
    → All (λ b. test b ≡ false) bs
unfolding find_from
find_from-missed test i [] h = tt
find_from-missed test i (b ∷ bs) h = elim (Bool-cases (test b)) [
  | inl e ↦ absurd (ground arith)
  | inr e ↦ (e, find_from-missed test (i + 1) bs (rw e at h))
]

module _ {ℓ} (P : Buffer → Type ℓ) where
  pub All-get : (bs : List Buffer) (i : ℕ) (b : Buffer) → All P bs → get_elem? bs i ≡ some b → P b
  All-get [] i b h e = cc
  All-get (x ∷ bs) zero b h e = subst P (ground arith) h.0
  All-get (x ∷ bs) (suc i) b h e = All-get bs i b h.1 e

  pub All-set : (bs : List Buffer) (i : ℕ) (b : Buffer) → All P bs → P b → All P (set bs i b)
  All-set [] i b h p = tt
  All-set (x ∷ bs) zero b h p = (p, h.1)
  All-set (x ∷ bs) (suc i) b h p = (h.0, All-set bs i b h.1 p)

-- One for a buffer that is not pinned.
abbrev pub free : Buffer → ℕ
free b = if Buffer.is_pinned b then 0 else 1

abbrev pub unpinned : List Buffer → ℕ
unpinned [] = 0
unpinned (b ∷ bs) = free b + unpinned bs

pub unpinned-set :
    (bs : List Buffer) (i : ℕ) (b b' : Buffer)
    → get_elem? bs i ≡ some b
    → unpinned (set bs i b') + free b ≡ unpinned bs + free b'
unpinned-set [] i b b' e = cc
unpinned-set (x ∷ bs) zero b b' e = let f : x ≡ b = ground arith in rw f (omega arith)
unpinned-set (x ∷ bs) (suc i) b b' e = omega (arith, unpinned-set bs i b b' e)
