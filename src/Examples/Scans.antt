-- ===== src/Examples/Scans.antt =====
-- A scan of a list of rows with one field.
use mudopdbmigration.Prelude.{
  ℕ, ◌≡◌, refl, sym, inl, inr, Bool, true, false, ◌||◌, Option, some, List, [], ◌∷◌, arith,
  if◌then◌else◌, bytes_eq, bytes_eq_iff, update, no_field, Result, ok, err, ◌>>=◌,
}
use mudopdbmigration.Schema.{Schema, empty_schema, add_int_field, add_field, has_field}
use mudopdbmigration.Constant.{Constant, int_val, constant_eq}
use mudopdbmigration.Query.Scan.{Row, Scan, Runs, drain}
use mudopdbmigration.Query.Predicate.{
  Predicate, Term, with_constant, with_field, is_satisfied, equates_with_constant,
  equates_with_field, join_sub_pred,
}
use mudopdbmigration.Query.Predicate.Meaning
use mudopdbmigration.Query.Predicate.Parts.{IsPart, IsJoinTerm, terms_of, join_sub_pred-IsPart}
use mudopdbmigration.Schema.Fields.{IsComplete}
use mudopdbmigration.Query.Predicate.Meaning.{
  IsTerm, is_satisfied_iff, equates_with_constant_sound, equates_with_field_sound, conjoin_with_iff,
  Each,
}
use mudopdbmigration.Query.Select.{select_scan, filter, drain-select, Decides}
use mudopdbmigration.Query.Product.{product_scan, product_before_first, product_next}
use mudopdbmigration.Query.Product.Rows.{product, product_scan-drain, product_next_of_empty}

abbrev pub id : List ℕ
id = 1 ∷ []

abbrev other_id : List ℕ
other_id = 2 ∷ []

abbrev pub row : ℕ → Row
row n = λ f. if bytes_eq f id || bytes_eq f other_id then ok (int_val n) else err no_field

-- The rows, those still to come, and the current one.
abbrev pub Cursor : Type 0
Cursor = List Row × List Row × Row

abbrev pub list_next : List Row → List Row → Row → Result (Bool × Cursor)
list_next all [] r = ok (false, (all, [], r))
list_next all (r' ∷ rest) r = ok (true, (all, rest, r'))

abbrev pub list_scan : Scan Cursor
list_scan = record {
  before_first = λ (all, rest, r). ok (all, all, r);
  next = λ (all, rest, r). list_next all rest r;
  get_int = λ _ _. err no_field;
  get_string = λ _ _. err no_field;
  get_val = λ (all, rest, r). r;
  has_field = λ _ f. bytes_eq f id;
  close = λ s. ok s;
}

abbrev Good : Cursor → Type 0
Good _ = Unit

at_end_lem :
    (all rest : List Row) (r : Row)
    → rest ≡ []
    → (s' : Cursor) × (list_next all rest r ≡ ok (false, s')) × Unit {0} × (s'.0 ≡ all)
at_end_lem all rest r e = ((all, [], r), rw e refl, tt, refl)

at_row_lem :
    (all rest : List Row) (r r' : Row) (rs : List Row)
    → rest ≡ r' ∷ rs
    → (s' : Cursor) × (list_next all rest r ≡ ok (true, s'))
      × Unit {0}
      × (s'.1 ≡ rs)
      × (s'.0 ≡ all)
      × (s'.2 ≡ r')
at_row_lem all rest r r' rs e = ((all, rs, r'), rw e refl, tt, refl, refl, refl)

abbrev list_runs : Runs Good list_scan
list_runs = record {
  names = λ f. bytes_eq f id;
  all = λ s. s.0;
  rest = λ s. s.1;
  fields = λ s g f. refl;
  reset = λ s g. ((s.0, s.0, s.2), refl, tt, refl, refl);
  at_end = λ s g e. at_end_lem s.0 s.1 s.2 e;
  at_row = λ s r rs g e. at_row_lem s.0 s.1 s.2 r rs e;
}

abbrev start : Cursor
start = (row 5 ∷ row 8 ∷ [], row 5 ∷ row 8 ∷ [], row 0)

abbrev pub five : Term
five = record { lhs = with_field id; rhs = with_constant (int_val 5) }

abbrev same : Term
same = record { lhs = with_field id; rhs = with_field other_id }

abbrev pred : Predicate
pred = five ∷ same ∷ []

abbrev pub is_five : Result Constant → Bool
is_five (ok c) = constant_eq c (int_val 5)
is_five (err _) = false

decided : Decides list_runs (five ∷ []) (λ r. is_five (r id)) (row 5 ∷ row 8 ∷ [])
unfolding is_satisfied with_field with_constant bytes_eq
decided = (refl, (refl, tt))

drain-select_example :
    drain (select_scan list_scan (five ∷ []) 3) 3 start
    ≡ ok (some (filter (λ r. is_five (r id)) (row 5 ∷ row 8 ∷ [])))
drain-select_example =
    drain-select list_runs (five ∷ []) (λ r. is_five (r id)) 3 start (row 5 ∷ row 8 ∷ []) 3 tt refl
      decided (omega arith) (omega arith)

abbrev empty : Cursor
empty = ([], [], row 0)

product_scan-drain_example :
    (do
      s ← product_before_first list_scan list_scan (start, start)
      drain (product_scan list_scan list_scan) 5 s)
    ≡ ok (some (product (λ f. bytes_eq f id) (row 5 ∷ row 8 ∷ []) (row 5 ∷ row 8 ∷ [])))
product_scan-drain_example =
    product_scan-drain list_runs list_runs 5 start start (row 5) (row 8 ∷ []) (row 5 ∷ row 8 ∷ [])
      tt tt refl refl (omega arith)

product_next_of_empty_example :
    (s : Cursor × Cursor) × ((do
      s' ← product_before_first list_scan list_scan (empty, start)
      product_next list_scan list_scan s')
      ≡ ok (true, s))
product_next_of_empty_example =
    product_next_of_empty list_runs list_runs empty start (row 5) (row 8 ∷ []) tt tt refl refl

holds : is_satisfied pred (row 5) ≡ ok true
unfolding is_satisfied with_field with_constant bytes_eq
holds = refl

pred-IsTerm : Meaning.Each IsTerm pred
unfolding with_field with_constant
pred-IsTerm = (
  (inr (id, refl, refl), inl (int_val 5, refl, refl)),
  ((inr (id, refl, refl), inr (other_id, refl, refl)), tt),
)

constant_found : equates_with_constant pred id ≡ some (int_val 5)
unfolding equates_with_constant with_field with_constant bytes_eq
constant_found = refl

equates_with_constant_sound_example : row 5 id ≡ ok (int_val 5)
equates_with_constant_sound_example =
    equates_with_constant_sound pred (row 5) id (int_val 5) pred-IsTerm holds constant_found

field_found : equates_with_field pred other_id ≡ some id
unfolding equates_with_field with_field with_constant bytes_eq
field_found = refl

abbrev left : Schema
left = add_int_field empty_schema id

abbrev right : Schema
right = add_int_field empty_schema other_id

one_field-IsComplete : (f : List ℕ) → IsComplete (add_int_field empty_schema f)
unfolding add_int_field add_field has_field update
one_field-IsComplete f g (inl e) =
    let same = (bytes_eq_iff f g).1 (sym e) in rw (has_field, same) refl
one_field-IsComplete f g (inr e) = absurd e

join_sub_pred-IsPart_example :
    (sub : Option Predicate) × (join_sub_pred pred left right ≡ ok sub)
    × IsPart (IsJoinTerm left right) pred (terms_of sub)
    × ((r : Row) → is_satisfied pred r ≡ ok true → is_satisfied (terms_of sub) r ≡ ok true)
join_sub_pred-IsPart_example =
    join_sub_pred-IsPart pred left right (one_field-IsComplete id) (one_field-IsComplete other_id)
