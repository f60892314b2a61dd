-- ===== src/Update/Dispatch.antt =====
-- src/plan/planner.cpp, and the statements of src/plan/basicupdateplanner.cpp that only call the
-- metadata manager.
use mudopdbmigration.Parse.Parser.{parse, query, update_cmd}
use mudopdbmigration.Prelude.{ℕ, List}
use mudopdbmigration.Exec.{Exec, pure, ◌>>=◌, ◌>>◌}
use mudopdbmigration.Metadata.Scanning.{Rounds, computed}
use mudopdbmigration.Metadata.Manager
use mudopdbmigration.Metadata.Manager.{MetadataMgr, create_table, create_view}
use mudopdbmigration.Parse.Data.{
  InsertData, DeleteData, ModifyData, CreateTableData, CreateViewData, CreateIndexData, Object,
  insert_data, delete_data, modify_data, create_table_data, create_view_data, create_index_data,
  view_def, QueryData,
}

module _ (k : Rounds) where
  unfoldable pub execute_create_table : CreateTableData → Exec MetadataMgr ℕ
  unfolding Manager.create_table
  execute_create_table stmt = do create_table k stmt.table_name stmt.new_schema; pure 0

  unfoldable pub execute_create_view : CreateViewData → Exec MetadataMgr ℕ
  unfolding Manager.create_view
  execute_create_view stmt = do create_view k stmt.view_name (view_def stmt); pure 0

unfoldable pub execute_create_index : {S : Type 0} → CreateIndexData → Exec S ℕ
execute_create_index stmt = pure 0

-- The virtual methods of `UpdatePlanner`.
pub record UpdatePlanner (S : Type 0) : Type 0 where
  pub execute_insert : InsertData → Exec S ℕ
  pub execute_delete : DeleteData → Exec S ℕ
  pub execute_modify : ModifyData → Exec S ℕ
  pub execute_create_table : CreateTableData → Exec S ℕ
  pub execute_create_view : CreateViewData → Exec S ℕ
  pub execute_create_index : CreateIndexData → Exec S ℕ

-- The `std::visit` of `Planner::execute_update`.
unfoldable pub dispatch : {S : Type 0} → UpdatePlanner S → Object → Exec S ℕ
dispatch up (insert_data d) = up.execute_insert d
dispatch up (delete_data d) = up.execute_delete d
dispatch up (modify_data d) = up.execute_modify d
dispatch up (create_table_data d) = up.execute_create_table d
dispatch up (create_view_data d) = up.execute_create_view d
dispatch up (create_index_data d) = up.execute_create_index d

unfoldable pub execute_update : {S : Type 0} → UpdatePlanner S → List ℕ → Exec S ℕ
unfolding parse update_cmd dispatch
execute_update up cmd = do stmt ← computed (parse update_cmd cmd); dispatch up stmt

-- `create_plan` is the method of `QueryPlanner`.
unfoldable pub create_query_plan : {S P : Type 0} → (QueryData → Exec S P) → List ℕ → Exec S P
unfolding parse query
create_query_plan create_plan qry = do stmt ← computed (parse query qry); create_plan stmt
