-- ===== src/Parse/Data.antt =====
-- include/parse/*data.hpp and src/parse/parsedata.cpp: what the parser makes of each statement. The
-- accessors are the fields.
use mudopdbmigration.Prelude.{ℕ, List, [], ◌∷◌, ◌++◌}
use mudopdbmigration.Schema.{Schema}
use mudopdbmigration.Constant.{Constant}
use mudopdbmigration.Query.Predicate.{Expression, Predicate}
use mudopdbmigration.Query.Text.{predicate_to_string}

pub record QueryData : Type 0 where
  pub fields : List (List ℕ)
  pub tables : List (List ℕ)
  pub pred : Predicate

pub record InsertData : Type 0 where
  pub table_name : List ℕ
  pub fields : List (List ℕ)
  pub vals : List Constant

pub record DeleteData : Type 0 where
  pub table_name : List ℕ
  pub pred : Predicate

pub record ModifyData : Type 0 where
  pub table_name : List ℕ
  pub target_field : List ℕ
  pub new_value : Expression
  pub pred : Predicate

pub record CreateTableData : Type 0 where
  pub table_name : List ℕ
  pub new_schema : Schema

pub record CreateViewData : Type 0 where
  pub view_name : List ℕ
  pub query : QueryData

pub record CreateIndexData : Type 0 where
  pub index_name : List ℕ
  pub table_name : List ℕ
  pub field_name : List ℕ

-- The variant of all update statements.
pub data Object : Type 0 where
  insert_data : InsertData → Object
  delete_data : DeleteData → Object
  modify_data : ModifyData → Object
  create_table_data : CreateTableData → Object
  create_view_data : CreateViewData → Object
  create_index_data : CreateIndexData → Object

abbrev pub select_text : List ℕ
select_text = b's' ∷ b'e' ∷ b'l' ∷ b'e' ∷ b'c' ∷ b't' ∷ b' ' ∷ []

abbrev pub from_text : List ℕ
from_text = b' ' ∷ b'f' ∷ b'r' ∷ b'o' ∷ b'm' ∷ b' ' ∷ []

abbrev pub where_text : List ℕ
where_text = b' ' ∷ b'w' ∷ b'h' ∷ b'e' ∷ b'r' ∷ b'e' ∷ b' ' ∷ []

-- The loops of `to_string`, which put `", "` between the names.
unfoldable pub listing : List (List ℕ) → List ℕ
listing [] = []
listing (f ∷ []) = f
listing (f ∷ g ∷ rest) = f ++ (b',' ∷ b' ' ∷ listing (g ∷ rest))

abbrev pub where_clause : List ℕ → List ℕ
where_clause [] = []
where_clause (c ∷ cs) = where_text ++ (c ∷ cs)

unfoldable pub query_to_string : QueryData → List ℕ
unfolding listing predicate_to_string
query_to_string qd =
    select_text
    ++ (listing qd.fields
        ++ (from_text ++ (listing qd.tables ++ where_clause (predicate_to_string qd.pred))))

abbrev pub view_def : CreateViewData → List ℕ
view_def data_ = query_to_string data_.query
