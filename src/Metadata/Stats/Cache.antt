-- ===== src/Metadata/Stats/Cache.antt =====
-- The map of the statistics as a cache: how long it serves, and what it answers.
use mudopdbmigration.Page.{size_mod}
use mudopdbmigration.Prelude.{
  ℕ, ◌+◌, ◌%◌, ◌≤◌, ◌<◌, ◌≡◌, refl, sym, ap, ◌∙◌, ◌⊎◌, inl, inr, Bool, true, false, Option, none,
  some, List, arith, ltb, if◌then◌else◌, Bool-cases, Option-cases, bytes_eq_refl, update, Result,
  ok, Result-cases, ok-injective,
}
use mudopdbmigration.Exec.{continue, pure}
use mudopdbmigration.Layout.{Layout}
use mudopdbmigration.Plan.{StatInfo}
use mudopdbmigration.Metadata.Names.{tblcat_name}
use mudopdbmigration.Metadata.Scanning.{Rounds}
use mudopdbmigration.Metadata.Tables
use mudopdbmigration.Metadata.Tables.{TableMgr, get_layout}
use mudopdbmigration.Metadata.Stats.{
  StatMgr, emplace_stats, calc_table_stats, refresh_from, refresh_statistics, look_up,
  get_stat_info,
}

emplace_stats-found :
    (stats : List ℕ → Option StatInfo) (t : List ℕ) (si : StatInfo)
    → stats t ≡ none
    → emplace_stats stats t si t ≡ some si
unfolding emplace_stats update
emplace_stats-found stats t si e = rw (emplace_stats, e) (rw (bytes_eq_refl t) refl)

module _ (k : Rounds) (mgr : TableMgr) where
  refresh_statistics-numcalls : (s : StatMgr) → (refresh_statistics k mgr s).1.numcalls ≡ 0
  unfolding refresh_statistics refresh_from
  refresh_statistics-numcalls s = elim (Result-cases (Tables.get_layout k mgr tblcat_name s.tx).0) [
    | inl (l, e) ↦ rw e refl
    | inr (x, e) ↦ rw e refl
  ]

  look_up-numcalls :
      (t : List ℕ) (l : Layout) (s : StatMgr) → (look_up k mgr t l s).1.numcalls ≡ s.numcalls
  unfolding look_up
  look_up-numcalls t l s = elim (Option-cases (s.tablestats t)) [
    | inl e ↦ elim (Result-cases (calc_table_stats k mgr t l s.tx).0) [
      | inl (si, f) ↦ rw (look_up, e) (rw f refl)
      | inr (x, f) ↦ rw (look_up, e) (rw f refl)
    ]
    | inr (si, e) ↦ rw (look_up, e) refl
  ]

  abbrev refreshed : Bool → StatMgr → Result (Unit {0}) × StatMgr
  refreshed b s = (if b then refresh_statistics k mgr else pure tt) s

  looked_up-numcalls :
      (t : List ℕ) (l : Layout) (b : Bool) (s : StatMgr)
      → (b ≡ false → s.numcalls ≤ 100)
      → (continue (refreshed b s) (λ _. look_up k mgr t l)).1.numcalls ≤ 100
  looked_up-numcalls t l false s h = omega (arith, look_up-numcalls t l s, h refl)
  looked_up-numcalls t l true s h =
      let zeroed = refresh_statistics-numcalls s in
      elim (Result-cases (refresh_statistics k mgr s).0) [
        | inl (u, e) ↦ rw e (omega (arith, look_up-numcalls t l (refresh_statistics k mgr s).1))
        | inr (x, e) ↦ rw e (omega arith)
      ]

  -- How long the map serves. If the counter is at most 100 before a call of `get_stat_info`, then it is
  -- after it, whether the call returns or throws. And a call that finds the counter at 100 forgets
  -- the map: its outcome and the state that it leaves are the same whatever the map held.
  pub get_stat_info-numcalls :
      (t : List ℕ) (l : Layout) (s : StatMgr)
      → s.numcalls ≤ 100
      → ((get_stat_info k mgr t l s).1.numcalls ≤ 100)
        × ((s.numcalls < 100)
            ⊎ ((old : List ℕ → Option StatInfo)
                → get_stat_info k mgr t l (record s { tablestats = old })
                  ≡ get_stat_info k mgr t l s))
  unfolding get_stat_info refresh_statistics
  get_stat_info-numcalls t l s h =
      let n = (s.numcalls + 1) % size_mod in
      (
        looked_up-numcalls t l (ltb 100 n) (record s { numcalls = n }) (λ e. ground arith),
        elim (Bool-cases (ltb 100 n)) [
          | inl over ↦ inr (λ old. rw over refl)
          | inr few ↦ inl (ground arith)
        ],
      )

  look_up-found :
      (t : List ℕ) (l : Layout) (s : StatMgr) (si : StatInfo)
      → (look_up k mgr t l s).0 ≡ ok si
      → (look_up k mgr t l s).1.tablestats t ≡ some si
  unfolding look_up
  look_up-found t l s si = elim (Option-cases (s.tablestats t)) [
    | inl e ↦ elim (Result-cases (calc_table_stats k mgr t l s.tx).0) [
      | inl (found, f) ↦
          rw (look_up, e)
            (rw f (λ h. emplace_stats-found s.tablestats t found e ∙ ap some (ok-injective h)))
      | inr (x, f) ↦ rw (look_up, e) (rw f (λ h. absurd cc))
    ]
    | inr (found, e) ↦ rw (look_up, e) (λ h. e ∙ ap some (ok-injective h))
  ]

  looked_up-found :
      (t : List ℕ) (l : Layout) (b : Bool) (s : StatMgr) (si : StatInfo)
      → (continue (refreshed b s) (λ _. look_up k mgr t l)).0 ≡ ok si
      → (continue (refreshed b s) (λ _. look_up k mgr t l)).1.tablestats t ≡ some si
  looked_up-found t l false s si = look_up-found t l s si
  looked_up-found t l true s si = elim (Result-cases (refresh_statistics k mgr s).0) [
    | inl (u, e) ↦ rw e (look_up-found t l (refresh_statistics k mgr s).1 si)
    | inr (x, e) ↦ rw e (λ h. absurd cc)
  ]

  answered :
      (t : List ℕ) (l : Layout) (s : StatMgr) (si : StatInfo)
      → s.tablestats t ≡ some si
      → s.numcalls < 100
      → get_stat_info k mgr t l s ≡ (ok si, record s { numcalls = s.numcalls + 1 })
  unfolding get_stat_info look_up
  answered t l s si e h =
      let n : (s.numcalls + 1) % size_mod ≡ s.numcalls + 1 = omega arith in
      let few : ltb 100 (s.numcalls + 1) ≡ false = ground arith in
      rw n (rw few (rw (look_up, e) refl))

  -- What `get_stat_info` has answered for a table it answers again, from the map: the next call for
  -- the table, with any layout, gives the same statistics and changes nothing but the counter,
  -- where the counter was below 100. So a table that has grown since then is not looked at.
  pub get_stat_info-again :
      (t : List ℕ) (l l' : Layout) (s s' : StatMgr) (si : StatInfo)
      → get_stat_info k mgr t l s ≡ (ok si, s')
      → s'.numcalls < 100
      → get_stat_info k mgr t l' s' ≡ (ok si, record s' { numcalls = s'.numcalls + 1 })
  unfolding get_stat_info
  get_stat_info-again t l l' s s' si h few =
      let n = (s.numcalls + 1) % size_mod in
      let found =
        looked_up-found t l (ltb 100 n) (record s { numcalls = n }) si (ap (λ p. p.0) h) in
      answered t l' s' si (sym (ap (λ p. p.1.tablestats t) h) ∙ found) few
