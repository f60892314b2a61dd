-- ===== src/Query/Scan.antt =====
-- include/query/scan.hpp: the interface of a scan, and what a scan of a list of rows promises.
use mudopdbmigration.Prelude.{
  ℕ, zero, suc, ◌<◌, ◌≡◌, Bool, true, false, Option, none, some, List, [], ◌∷◌, arith, length,
  Result, ok, ◌>>=◌,
}
use mudopdbmigration.Constant.{Constant}

-- The values of the current record by field name; a missing field throws.
abbrev pub Row : Type 0
Row = List ℕ → Result Constant

-- The virtual methods of `Scan` over the state of a scan. The getters of integers and strings are
-- the cases of `get_val`.
pub record Scan (S : Type 0) : Type 0 where
  pub before_first : S → Result S
  pub next : S → Result (Bool × S)
  pub get_int : S → List ℕ → Result ℕ
  pub get_string : S → List ℕ → Result (List ℕ)
  pub get_val : S → List ℕ → Result Constant
  pub has_field : S → List ℕ → Bool
  pub close : S → Result S

-- A scan that runs through a list of rows: `all` are its rows, `rest` those that are still to come,
-- and `names` its fields. After the end only `before_first` is of use.
pub record Runs {S : Type 0} (Good : S → Type 0) (scan : Scan S) : Type 0 where
  pub names : List ℕ → Bool
  pub all : S → List Row
  pub rest : S → List Row
  pub fields : (s : S) → Good s → (f : List ℕ) → scan.has_field s f ≡ names f
  pub reset :
      (s : S)
      → Good s
      → (s' : S) × (scan.before_first s ≡ ok s') × Good s' × (rest s' ≡ all s) × (all s' ≡ all s)
  pub at_end :
      (s : S)
      → Good s
      → rest s ≡ []
      → (s' : S) × (scan.next s ≡ ok (false, s')) × Good s' × (all s' ≡ all s)
  pub at_row :
      (s : S) (r : Row) (rs : List Row)
      → Good s
      → rest s ≡ r ∷ rs
      → (s' : S) × (scan.next s ≡ ok (true, s'))
        × Good s'
        × (rest s' ≡ rs)
        × (all s' ≡ all s)
        × (scan.get_val s' ≡ r)

abbrev pub push : Row → Option (List Row) → Option (List Row)
push r none = none
push r (some rs) = some (r ∷ rs)

-- A client's loop over a scan, `while (s.next()) …`, that collects the records. `none` inside the
-- result means that the fuel ran out.
unfoldable pub drain : {S : Type 0} → Scan S → ℕ → S → Result (Option (List Row))
drain scan zero s = ok none
drain scan (suc fuel) s = do
  (more, s') ← scan.next s
  elim more [
    | false ↦ ok (some [])
    | true ↦ do rows ← drain scan fuel s'; ok (push (scan.get_val s') rows)
  ]

pub drain-rest :
    {S : Type 0} {Good : S → Type 0} {scan : Scan S} (runs : Runs Good scan) (fuel : ℕ) (s : S)
    (rs : List Row)
    → Good s
    → runs.rest s ≡ rs
    → length rs < fuel
    → drain scan fuel s ≡ ok (some rs)
unfolding drain
drain-rest runs zero s rs g e h = absurd (omega arith)
drain-rest runs (suc fuel) s [] g e h = let (s', n, _, _) = runs.at_end s g e in rw n
drain-rest runs (suc fuel) s (r ∷ rs) g e h =
    let (s', n, g', e', _, v) = runs.at_row s r rs g e in
    rw n (rw (drain-rest runs fuel s' rs g' e' (omega arith), v))
