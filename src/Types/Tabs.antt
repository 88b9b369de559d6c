-- ===== src/Types/Tabs.antt =====
-- The tabs of the workspace (features/workspace/types.ts and appTypes.ts).
-- `grid` is the field that the source calls `data`, which is a reserved word here.
use zszc_sql_client.Base.{ℕ, String, Bool, Option, List}
use zszc_sql_client.Types.Cells.{JsonRecord, TableColumn, TableDataColumn}

pub data RowState : Type 0 where
  clean new updated deleted : RowState

pub record DataGridRow : Type 0 where
  pub client_id : String
  pub selected : Bool
  pub state : RowState
  pub row_key : Option JsonRecord
  pub original_values : JsonRecord
  pub values : JsonRecord

pub data TransactionMode : Type 0 where
  auto manual : TransactionMode

pub data TabStatus : Type 0 where
  loading ready error busy : TabStatus

pub record DataTabState : Type 0 where
  pub loading : Bool
  pub error : String
  pub columns : List TableDataColumn
  pub rows : List DataGridRow
  pub primary_keys : List String
  pub where_clause : String
  pub order_by_clause : String
  pub offset : ℕ
  pub limit : ℕ
  pub total_rows : ℕ
  pub row_count_exact : Bool
  pub editable : Bool
  pub transaction_mode : TransactionMode

pub data ResultKind : Type 0 where
  idle query mutation : ResultKind

pub record ConsoleTabState : Type 0 where
  pub loading : Bool
  pub error : String
  pub sql : String
  pub message : String
  pub executed_sql : String
  pub result_kind : ResultKind
  pub columns : List TableDataColumn
  pub rows : List DataGridRow
  pub offset : ℕ
  pub limit : ℕ
  pub total_rows : ℕ
  pub row_count_exact : Bool
  pub affected_rows : ℕ
  pub truncated : Bool
  pub database_loading : Bool

pub record DataTab : Type 0 where
  pub id : String
  pub title : String
  pub subtitle : String
  pub status : TabStatus
  pub error : String
  pub profile_id : String
  pub database_name : String
  pub table_name : String
  pub grid : DataTabState

pub record ConsoleTab : Type 0 where
  pub id : String
  pub title : String
  pub subtitle : String
  pub status : TabStatus
  pub error : String
  pub profile_id : String
  pub database_name : Option String
  pub table_name : Option String
  pub console : ConsoleTabState

pub record DesignDraftColumn : Type 0 where
  pub column : TableColumn
  pub open column use *
  pub client_id : String
  pub selected : Bool
  pub origin_name : Option String

pub data DesignMode : Type 0 where
  edit create : DesignMode

pub record DesignTabState : Type 0 where
  pub mode : DesignMode
  pub loading : Bool
  pub error : String
  pub ddl : String
  pub draft_table_name : String
  pub original_columns : List TableColumn
  pub draft_columns : List DesignDraftColumn

pub record DesignTab : Type 0 where
  pub id : String
  pub title : String
  pub subtitle : String
  pub status : TabStatus
  pub error : String
  pub profile_id : String
  pub database_name : String
  pub table_name : String
  pub design : DesignTabState

pub record SaveConnectionProfilePayload : Type 0 where
  pub id : Option String
  pub group_name : Option String
  pub data_source_name : String
  pub host : String
  pub port : ℕ
  pub username : String
  pub password : String

pub record ProfileEditorState : Type 0 where
  pub mode : DesignMode
  pub saving : Bool
  pub testing : Bool
  pub test_result : String
  pub form : SaveConnectionProfilePayload
  pub group_manager_open : Bool
  pub group_busy : Bool
  pub create_group_name : String
  pub editing_group_id : Option String
  pub editing_group_name : String

pub record ProfileTab : Type 0 where
  pub id : String
  pub title : String
  pub subtitle : String
  pub status : TabStatus
  pub error : String
  pub editor : ProfileEditorState

pub record GroupAssignmentTabState : Type 0 where
  pub target_group_id : String
  pub filter_text : String
  pub selected_profile_ids : List String
  pub submitting : Bool

pub record GroupAssignmentTab : Type 0 where
  pub id : String
  pub title : String
  pub subtitle : String
  pub status : TabStatus
  pub error : String
  pub assignment : GroupAssignmentTabState

pub data WorkspaceTab : Type 0 where
  profile_tab : ProfileTab → WorkspaceTab
  design_tab : DesignTab → WorkspaceTab
  data_tab : DataTab → WorkspaceTab
  console_tab : ConsoleTab → WorkspaceTab
  group_assignment_tab : GroupAssignmentTab → WorkspaceTab

-- `tab.id`
abbrev pub tab_id : WorkspaceTab → String
tab_id (profile_tab t) = t.id
tab_id (design_tab t) = t.id
tab_id (data_tab t) = t.id
tab_id (console_tab t) = t.id
tab_id (group_assignment_tab t) = t.id
