-- ===== src/Materialize/SortScan.antt =====
-- include/materialize/sortscan.hpp and src/materialize/sortscan.cpp: one or two sorted runs merged
-- while they are read. The scans of the runs are taken with their record identifiers; a null
-- pointer that is followed is the error `undefined`.
pub mod Merge
pub mod Sides
pub mod Steps
pub mod Sorted
pub mod Rows
pub mod Opened
use mudopdbmigration.Prelude.{
  ℕ, Bool, true, false, ◌&&◌, not, Option, none, some, List, [], ◌∷◌, ◌==◌, if◌then◌else◌,
  undefined, no_current_scan, Result, ok, err, ◌>>=◌, ◌>>◌,
}
use mudopdbmigration.Constant.{Constant}
use mudopdbmigration.Query.Scan.{Scan}
use mudopdbmigration.Query.Update.{UpdateScan}
use mudopdbmigration.Rid.{Rid}
use mudopdbmigration.Materialize.Compare.{comes_first}

pub record SortScan (S : Type 0) : Type 0 where
  pub s1 : Option S
  pub s2 : Option S
  pub currentidx : Option ℕ
  pub hasmore1 : Bool
  pub hasmore2 : Bool
  pub saved1 : Option Rid
  pub saved2 : Option Rid

abbrev pub is_at : ℕ → Option ℕ → Bool
is_at k none = false
is_at k (some i) = i == k

-- `->`
abbrev pub deref : {A : Type 0} → Option A → Result A
deref none = err undefined
deref (some a) = ok a

-- A run that is opened and moved to its first record.
abbrev pub opened : {T S : Type 0} → (T → Result S) → Scan S → T → Result (Bool × S)
opened open_run scan run = do s ← open_run run; scan.next s

unfoldable pub new_sort_scan :
    {T S : Type 0} → (T → Result S) → Scan S → List T → Result (SortScan S)
new_sort_scan open_run scan [] = ok (record {
  s1 = none;
  s2 = none;
  currentidx = none;
  hasmore1 = false;
  hasmore2 = false;
  saved1 = none;
  saved2 = none;
})
new_sort_scan open_run scan (run ∷ []) = do
  (more1, a) ← opened open_run scan run
  ok (record {
    s1 = some a;
    s2 = none;
    currentidx = none;
    hasmore1 = more1;
    hasmore2 = false;
    saved1 = none;
    saved2 = none;
  })
new_sort_scan open_run scan (run1 ∷ run2 ∷ rest) = do
  (more1, a) ← opened open_run scan run1
  (more2, b) ← opened open_run scan run2
  ok (record {
    s1 = some a;
    s2 = some b;
    currentidx = none;
    hasmore1 = more1;
    hasmore2 = more2;
    saved1 = none;
    saved2 = none;
  })

module _ {S : Type 0} (scan : Scan S) where
  abbrev pub restarted : S → Result (Bool × S)
  restarted a = do a' ← scan.before_first a; scan.next a'

  unfoldable pub sort_before_first : SortScan S → Result (SortScan S)
  sort_before_first s = do
    a ← deref s.s1
    (more1, a') ← restarted a
    let s' = record s { currentidx = none; s1 = some a'; hasmore1 = more1 }
    elim s.s2 [
      | none ↦ ok s'
      | some b ↦ do (more2, b') ← restarted b; ok (record s' { s2 = some b'; hasmore2 = more2 })
    ]

  -- The scan of the current record moves on.
  unfoldable pub advance : SortScan S → Result (SortScan S)
  advance s =
      if is_at 1 s.currentidx
      then (do
        a ← deref s.s1
        (more1, a') ← scan.next a
        ok (record s { s1 = some a'; hasmore1 = more1 }))
      else if is_at 2 s.currentidx
      then elim s.s2 [
        | none ↦ ok s
        | some b ↦ do (more2, b') ← scan.next b; ok (record s { s2 = some b'; hasmore2 = more2 })
      ]
      else ok s

  -- The run with the next record.
  unfoldable pub choose_run : List (List ℕ) → SortScan S → Result ℕ
  unfolding comes_first
  choose_run fields s =
      if s.hasmore1 && s.hasmore2
      then (do
        a ← deref s.s1
        b ← deref s.s2
        first ← comes_first fields (scan.get_val a) (scan.get_val b)
        ok (if first then 1 else 2))
      else ok (if s.hasmore1 then 1 else 2)

  unfoldable pub sort_next : List (List ℕ) → SortScan S → Result (Bool × SortScan S)
  unfolding advance
  sort_next fields s = do
    s' ← advance s
    if not s'.hasmore1 && not s'.hasmore2
        then ok (false, s')
        else (do idx ← choose_run fields s'; ok (true, record s' { currentidx = some idx }))

  unfoldable pub sort_close : SortScan S → Result (SortScan S)
  sort_close s = do
    a ← deref s.s1
    a' ← scan.close a
    let s' = record s { s1 = some a' }
    elim s.s2 [ none ↦ ok s' | some b ↦ do b' ← scan.close b; ok (record s' { s2 = some b' }) ]

  unfoldable pub current_scan : SortScan S → Result S
  current_scan s = elim s.currentidx [
    | none ↦ err no_current_scan
    | some idx ↦
        if idx == 1
        then deref s.s1
        else if idx == 2
        then elim s.s2 [ none ↦ err no_current_scan | some b ↦ ok b ]
        else err no_current_scan
  ]

  unfoldable pub sort_get_val : SortScan S → List ℕ → Result Constant
  unfolding current_scan
  sort_get_val s fldname = do a ← current_scan s; scan.get_val a fldname

  unfoldable pub sort_get_int : SortScan S → List ℕ → Result ℕ
  unfolding current_scan
  sort_get_int s fldname = do a ← current_scan s; scan.get_int a fldname

  unfoldable pub sort_get_string : SortScan S → List ℕ → Result (List ℕ)
  unfolding current_scan
  sort_get_string s fldname = do a ← current_scan s; scan.get_string a fldname

  -- Without a first run this follows a null pointer, for which there is no answer but `false`.
  abbrev pub sort_has_field : SortScan S → List ℕ → Bool
  sort_has_field s fldname = elim s.s1 [ none ↦ false | some a ↦ scan.has_field a fldname ]

  unfoldable pub sort_scan : List (List ℕ) → Scan (SortScan S)
  unfolding sort_before_first sort_next sort_close sort_get_val sort_get_int sort_get_string
  sort_scan fields = record {
    before_first = sort_before_first;
    next = sort_next fields;
    get_int = sort_get_int;
    get_string = sort_get_string;
    get_val = sort_get_val;
    has_field = sort_has_field;
    close = sort_close;
  }

  module _ (updates : UpdateScan S) where
    unfoldable pub save_position : SortScan S → Result (SortScan S)
    save_position s = do
      a ← deref s.s1
      rid1 ← updates.get_rid a
      let s' = record s { saved1 = rid1 }
      elim s.s2 [
        | none ↦ ok s'
        | some b ↦ do rid2 ← updates.get_rid b; ok (record s' { saved2 = rid2 })
      ]

    unfoldable pub restore_first : SortScan S → Result (SortScan S)
    restore_first s = elim s.saved1 [
      | none ↦ ok s
      | some rid ↦ do a ← deref s.s1; a' ← updates.move_to_rid a rid; ok (record s { s1 = some a' })
    ]

    unfoldable pub restore_second : SortScan S → Result (SortScan S)
    restore_second s = elim s.saved2 [
      | none ↦ ok s
      | some rid ↦ elim s.s2 [
        | none ↦ ok s
        | some b ↦ do b' ← updates.move_to_rid b rid; ok (record s { s2 = some b' })
      ]
    ]

    unfoldable pub restore_position : SortScan S → Result (SortScan S)
    unfolding restore_first restore_second
    restore_position s = do s' ← restore_first s; restore_second s'
