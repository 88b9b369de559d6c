-- ===== src/Types/Remote.antt =====
-- What the backend is asked for and answers (frontend/src/types.ts).
use zszc_sql_client.Base.{ℕ, String, Bool, Option, List}
use zszc_sql_client.Types.Cells.{TableDataColumn, TableDataRow, TableColumn}

pub record TableDesign : Type 0 where
  pub profile_id : String
  pub database_name : String
  pub table_name : String
  pub columns : List TableColumn
  pub ddl : String

pub record TableDataPage : Type 0 where
  pub profile_id : String
  pub database_name : String
  pub table_name : String
  pub columns : List TableDataColumn
  pub rows : List TableDataRow
  pub primary_keys : List String
  pub offset : ℕ
  pub limit : ℕ
  pub total_rows : ℕ
  pub row_count_exact : Bool
  pub editable : Bool

pub record ExecuteSqlPayload : Type 0 where
  pub profile_id : String
  pub database_name : Option String
  pub sql : String
  pub limit : Option ℕ
  pub offset : Option ℕ

pub record SqlConsoleResult : Type 0 where
  pub profile_id : String
  pub database_name : Option String
  pub executed_sql : String
  pub result_kind : String
  pub columns : List TableDataColumn
  pub rows : List TableDataRow
  pub affected_rows : ℕ
  pub offset : ℕ
  pub limit : ℕ
  pub total_rows : ℕ
  pub row_count_exact : Bool
  pub truncated : Bool
  pub message : String

pub record LoadTableDataPayload : Type 0 where
  pub profile_id : String
  pub database_name : String
  pub table_name : String
  pub where_clause : Option String
  pub order_by_clause : Option String
  pub limit : Option ℕ
  pub offset : Option ℕ

pub record ConnectionProfile : Type 0 where
  pub id : String
  pub group_name : Option String
  pub data_source_name : String
  pub host : String
  pub port : ℕ
  pub username : String
  pub password : String
  pub created_at : String
  pub updated_at : String

pub record DatabaseEntry : Type 0 where
  pub name : String
  pub table_count : ℕ

pub record TableEntry : Type 0 where
  pub name : String
  pub table_rows : Option ℕ
  pub column_count : Option ℕ

-- `scope` of `openConsoleTab` (features/workspace/appTypes.ts).
pub data SelectionState : Type 0 where
  none_selected : SelectionState
  profile_selected : String → SelectionState
  database_selected : String → String → SelectionState
  table_selected : String → String → String → SelectionState

pub data ExportFileFormat : Type 0 where
  csv json sql : ExportFileFormat

pub data ExportScope : Type 0 where
  current_page all_rows selected_rows : ExportScope

-- What the backend reads again when all rows are exported; it tells the two kinds of the dialog apart.
pub data ExportSource : Type 0 where
  table_data : LoadTableDataPayload → ExportSource
  query_result : ExecuteSqlPayload → ExportSource

pub record ExportDialogState : Type 0 where
  pub title : String
  pub subtitle : String
  pub busy : Bool
  pub format : ExportFileFormat
  pub scope : ExportScope
  pub columns : List TableDataColumn
  pub rows : List TableDataRow
  pub selected_rows : List TableDataRow
  pub source : ExportSource

pub record DataSourceGroup : Type 0 where
  pub id : String
  pub group_name : String
  pub created_at : String
  pub updated_at : String
