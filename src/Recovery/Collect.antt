-- ===== src/Recovery/Collect.antt =====
-- The loops of `Transaction::do_rollback` and `do_recover` over the log, in src/tx/transaction.cpp.
use mudopdbmigration.Prelude.{
  ℕ, zero, suc, Bool, true, false, ◌||◌, Option, none, some, List, [], ◌∷◌, ◌++◌, ◌==◌, out_of_fuel,
  Result, ok, err, ◌>>=◌,
}
use mudopdbmigration.Log.Iterator.{LogIterator, has_next, next}
use mudopdbmigration.Recovery.{
  LogRecord, Op, op, tx_number, create_log_record, start, checkpoint, commit, rollback,
}

abbrev pub is_mine : ℕ → Option ℕ → Bool
is_mine txnum none = false
is_mine txnum (some n) = n == txnum

abbrev pub is_start : Op → Bool
is_start start = true
is_start _ = false

-- The records of one transaction, newest first, back to its start. The loop takes fuel.
unfoldable pub records_of : ℕ → ℕ → LogIterator → Result (List LogRecord)
unfolding has_next next create_log_record op tx_number
records_of zero txnum it = err out_of_fuel
records_of (suc fuel) txnum it = elim (has_next it) [
  | false ↦ ok []
  | true ↦ do
    (bytes, it') ← next it
    r ← create_log_record bytes
    elim (is_mine txnum (tx_number r)) [
      | false ↦ records_of fuel txnum it'
      | true ↦ elim (is_start (op r)) [
        | true ↦ ok []
        | false ↦ do rest ← records_of fuel txnum it'; ok (r ∷ rest)
      ]
    ]
]

abbrev pub is_checkpoint : Op → Bool
is_checkpoint checkpoint = true
is_checkpoint _ = false

abbrev pub is_end : Op → Bool
is_end commit = true
is_end rollback = true
is_end _ = false

unfoldable pub is_finished : Option ℕ → List ℕ → Bool
is_finished none finished = true
is_finished (some n) [] = false
is_finished (some n) (m ∷ rest) = m == n || is_finished (some n) rest

abbrev pub also_finished : Option ℕ → List ℕ → List ℕ
also_finished none finished = finished
also_finished (some n) finished = finished ++ n ∷ []

-- The records of unfinished transactions, newest first, back to a checkpoint.
unfoldable pub unfinished : ℕ → List ℕ → LogIterator → Result (List LogRecord)
unfolding has_next next create_log_record op tx_number is_finished
unfinished zero finished it = err out_of_fuel
unfinished (suc fuel) finished it = elim (has_next it) [
  | false ↦ ok []
  | true ↦ do
    (bytes, it') ← next it
    r ← create_log_record bytes
    elim (is_checkpoint (op r)) [
      | true ↦ ok []
      | false ↦ elim (is_end (op r)) [
        | true ↦ unfinished fuel (also_finished (tx_number r) finished) it'
        | false ↦ elim (is_finished (tx_number r) finished) [
          | true ↦ unfinished fuel finished it'
          | false ↦ do rest ← unfinished fuel finished it'; ok (r ∷ rest)
        ]
      ]
    ]
]
