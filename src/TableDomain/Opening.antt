-- ===== src/TableDomain/Opening.antt =====
-- Opening tabs for tables and consoles, and the fields of console and data tabs that the user edits.
-- Loading of databases and of completion data, toasts and the log are not modelled.
pub mod Fresh
pub mod Console
mod Tests
use zszc_sql_client.Base.{
  String, Bool, true, false, not, Option, none, some, List, [], ◌∷◌, map, find, joined, is_some,
  or_else, ◌==◌, if◌then◌else◌,
}
use zszc_sql_client.Base.Dict.{Dict, lookup}
use zszc_sql_client.Types.Cells.{TableColumn}
use zszc_sql_client.Types.Remote.{ConnectionProfile, DatabaseEntry}
use zszc_sql_client.Types.Tabs.{
  DataTab, DesignTab, ConsoleTab, WorkspaceTab, data_tab, design_tab, console_tab, profile_tab,
  group_assignment_tab, TabStatus, DesignMode, ResultKind, TransactionMode,
}
use zszc_sql_client.Tabs.{TabsState, patch_tab, upsert_tab}
use zszc_sql_client.TableDomain.{on_data, on_console}
use zszc_sql_client.TableDomain.Design.{create_draft_column}
use zszc_sql_client.TableDomain.Remote.{RemoteKind, begin_request}

-- `profiles.find(item => item.id === profileId)?.data_source_name ?? '未知数据源'`
unfoldable pub source_name : List ConnectionProfile → String → String
source_name profiles profile_id = elim (find (λ item. item.id == profile_id) profiles) [
  | none ↦ "未知数据源"
  | some profile ↦ profile.data_source_name
]

-- The column with which a new table starts.
abbrev pub id_column : TableColumn
id_column = record {
  name = "id";
  data_type = "bigint";
  full_data_type = "bigint";
  length = none;
  scale = none;
  nullable = false;
  primary_key = true;
  auto_increment = true;
  default_value = none;
  comment = "主键ID";
  ordinal_position = 1;
}

module _ (profiles : List ConnectionProfile) where
  unfoldable pub create_table_tab : String → String → String → DesignTab
  unfolding source_name create_draft_column
  create_table_tab client_id profile_id database_name = record {
    id = joined ("create-table:" ∷ profile_id ∷ ":" ∷ database_name ∷ []);
    title = joined (database_name ∷ ".新建表" ∷ []);
    subtitle = source_name profiles profile_id;
    status = TabStatus.ready;
    error = "";
    profile_id = profile_id;
    database_name = database_name;
    table_name = "";
    design = record {
      mode = DesignMode.create;
      loading = false;
      error = "";
      ddl = "";
      draft_table_name = "";
      original_columns = [];
      draft_columns = create_draft_column client_id id_column none ∷ [];
    };
  }

  unfoldable pub open_create_table_tab : String → String → String → TabsState → TabsState
  unfolding create_table_tab upsert_tab
  open_create_table_tab client_id profile_id database_name =
      upsert_tab (design_tab (create_table_tab client_id profile_id database_name))

  unfoldable pub loading_design_tab : String → String → String → DesignTab
  unfolding source_name
  loading_design_tab profile_id database_name table_name = record {
    id = joined ("design:" ∷ profile_id ∷ ":" ∷ database_name ∷ ":" ∷ table_name ∷ []);
    title = joined (database_name ∷ "." ∷ table_name ∷ []);
    subtitle = source_name profiles profile_id;
    status = TabStatus.loading;
    error = "";
    profile_id = profile_id;
    database_name = database_name;
    table_name = table_name;
    design = record {
      mode = DesignMode.edit;
      loading = true;
      error = "";
      ddl = "";
      draft_table_name = table_name;
      original_columns = [];
      draft_columns = [];
    };
  }

  unfoldable pub loading_data_tab : String → String → String → DataTab
  unfolding source_name
  loading_data_tab profile_id database_name table_name = record {
    id = joined ("data:" ∷ profile_id ∷ ":" ∷ database_name ∷ ":" ∷ table_name ∷ []);
    title = joined (database_name ∷ "." ∷ table_name ∷ []);
    subtitle = source_name profiles profile_id;
    status = TabStatus.loading;
    error = "";
    profile_id = profile_id;
    database_name = database_name;
    table_name = table_name;
    grid = record {
      loading = true;
      error = "";
      columns = [];
      rows = [];
      primary_keys = [];
      where_clause = "";
      order_by_clause = "";
      offset = 0;
      limit = 100;
      total_rows = 0;
      row_count_exact = true;
      editable = true;
      transaction_mode = TransactionMode.auto;
    };
  }

  -- `openTableTab` up to the answer to the request that it makes.
  unfoldable pub open_design_tab : String → String → String → TabsState → TabsState
  unfolding loading_design_tab upsert_tab begin_request
  open_design_tab profile_id database_name table_name s =
      let tab = loading_design_tab profile_id database_name table_name in
      begin_request RemoteKind.table_design tab.id (upsert_tab (design_tab tab) s)

  unfoldable pub open_data_tab : String → String → String → TabsState → TabsState
  unfolding loading_data_tab upsert_tab begin_request
  open_data_tab profile_id database_name table_name s =
      let tab = loading_data_tab profile_id database_name table_name in
      begin_request RemoteKind.data_page tab.id (upsert_tab (data_tab tab) s)

-- `field` and `value` of `updateDataQueryField`.
pub data QueryField : Type 0 where
  where_clause order_by_clause : String → QueryField
  transaction_mode : TransactionMode → QueryField

abbrev pub set_query_field : QueryField → DataTab → DataTab
set_query_field (where_clause value) tab = record tab {
  grid = record tab.grid { where_clause = value };
}
set_query_field (order_by_clause value) tab = record tab {
  grid = record tab.grid { order_by_clause = value };
}
set_query_field (transaction_mode value) tab = record tab {
  grid = record tab.grid { transaction_mode = value };
}

unfoldable pub update_data_query_field : String → QueryField → TabsState → TabsState
unfolding patch_tab
update_data_query_field tab_id field = patch_tab tab_id (on_data (set_query_field field))

abbrev pub with_sql : (String → String) → ConsoleTab → ConsoleTab
with_sql f tab = record tab { console = record tab.console { sql = f tab.console.sql } }

unfoldable pub update_console_sql : String → String → TabsState → TabsState
unfolding patch_tab
update_console_sql tab_id value = patch_tab tab_id (on_console (with_sql λ _. value))

-- `prettify` is `prettifySql`.
unfoldable pub format_console_sql : (String → String) → String → TabsState → TabsState
unfolding patch_tab
format_console_sql prettify tab_id = patch_tab tab_id (on_console (with_sql prettify))

-- The empty name counts as none, as in the tests of the source.
abbrev pub console_message : Option String → String
console_message none = "当前控制台未指定默认数据库，请使用库名前缀或先选择数据库。"
console_message (some name) =
    if name == "" then "当前控制台未指定默认数据库，请使用库名前缀或先选择数据库。" else joined ("当前控制台默认连接到 " ∷ name ∷ "。" ∷ [])

abbrev pub console_scope : String → Option String → String
console_scope source none = source
console_scope source (some name) =
    if name == "" then source else joined (source ∷ " / " ∷ name ∷ [])

unfoldable pub choose_database : List ConnectionProfile → Option String → ConsoleTab → ConsoleTab
unfolding source_name
choose_database profiles database_name tab = record tab {
  subtitle = console_scope (source_name profiles tab.profile_id) database_name;
  database_name = database_name;
  table_name = none;
  console = record tab.console { message = console_message database_name };
}

unfoldable pub update_console_database :
    List ConnectionProfile → String → Option String → TabsState → TabsState
unfolding choose_database patch_tab
update_console_database profiles tab_id database_name =
    patch_tab tab_id (on_console (choose_database profiles database_name))

-- The effect on the loaded databases: a console tab is marked while those of its profile are missing.
abbrev pub mark_database_loading : Dict (List DatabaseEntry) → ConsoleTab → ConsoleTab
mark_database_loading databases_by_profile tab = record tab {
  console = record tab.console {
    database_loading = not (is_some (lookup tab.profile_id databases_by_profile));
  };
}

unfoldable pub sync_database_loading : Dict (List DatabaseEntry) → TabsState → TabsState
unfolding lookup
sync_database_loading databases_by_profile s = record s {
  tabs = map (on_console (mark_database_loading databases_by_profile)) s.tabs;
}
