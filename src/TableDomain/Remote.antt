-- ===== src/TableDomain/Remote.antt =====
-- What a tab shows while a request to the backend is under way, and after its answer:
-- `refreshDataTab`, `refreshDesignTab` and `runConsoleSql`. The answer is an argument; the client ids
-- of the rows and columns that it brings are `ids`, by their index. The log is not modelled.
pub mod Answers
pub mod Requests
mod Tests
use zszc_sql_client.Base.{
  ℕ, ◌+◌, String, Bool, true, false, Option, none, some, List, [], ◌∷◌, ◌==◌, if◌then◌else◌,
}
use zszc_sql_client.Types.Cells.{TableDataRow, TableColumn}
use zszc_sql_client.Types.Remote.{
  TableDesign, TableDataPage, LoadTableDataPayload, SqlConsoleResult, ExecuteSqlPayload,
}
use zszc_sql_client.Types.Tabs.{
  DataGridRow, DataTab, DesignTab, ConsoleTab, DesignDraftColumn, TabStatus, DesignMode, ResultKind,
  WorkspaceTab,
}
use zszc_sql_client.Grid.{create_grid_row}
use zszc_sql_client.Tabs.{TabsState, patch_tab}
use zszc_sql_client.TableDomain.{on_data, on_design, on_console}
use zszc_sql_client.TableDomain.Design.{create_draft_column}

-- `rows.map(row => createGridRow(row))`, from an index on.
unfoldable pub grid_rows : (ℕ → String) → ℕ → List TableDataRow → List DataGridRow
unfolding create_grid_row
grid_rows ids index [] = []
grid_rows ids index (row ∷ rows) = create_grid_row (ids index) row ∷ grid_rows ids (index + 1) rows

-- `columns.map(column => createDraftColumn(column))`, from an index on.
unfoldable pub draft_columns : (ℕ → String) → ℕ → List TableColumn → List DesignDraftColumn
unfolding create_draft_column
draft_columns ids index [] = []
draft_columns ids index (column ∷ columns) =
    create_draft_column (ids index) column (some column.name)
    ∷ draft_columns ids (index + 1) columns

unfoldable pub begin_data : DataTab → DataTab
begin_data tab = record tab {
  status = TabStatus.loading;
  error = "";
  grid = record tab.grid { loading = true; error = "" };
}

unfoldable pub fail_data : String → DataTab → DataTab
fail_data message tab = record tab {
  status = TabStatus.error;
  error = message;
  grid = record tab.grid { loading = false; error = message };
}

-- The clauses are those of the request, and the transaction mode that of the tab.
unfoldable pub show_page : String → String → (ℕ → String) → TableDataPage → DataTab → DataTab
unfolding grid_rows
show_page where_clause order_by_clause ids page tab = record tab {
  status = TabStatus.ready;
  error = "";
  grid = record {
    loading = false;
    error = "";
    columns = page.columns;
    rows = grid_rows ids 0 page.rows;
    primary_keys = page.primary_keys;
    where_clause = where_clause;
    order_by_clause = order_by_clause;
    offset = page.offset;
    limit = page.limit;
    total_rows = page.total_rows;
    row_count_exact = page.row_count_exact;
    editable = page.editable;
    transaction_mode = tab.grid.transaction_mode;
  };
}

unfoldable pub begin_design : DesignTab → DesignTab
begin_design tab = record tab {
  status = TabStatus.loading;
  error = "";
  design = record tab.design { loading = true; error = "" };
}

unfoldable pub fail_design : String → DesignTab → DesignTab
fail_design message tab = record tab {
  status = TabStatus.error;
  error = message;
  design = record tab.design { loading = false; error = message };
}

unfoldable pub show_design : (ℕ → String) → TableDesign → DesignTab → DesignTab
unfolding draft_columns
show_design ids design tab = record tab {
  status = TabStatus.ready;
  error = "";
  design = record {
    mode = DesignMode.edit;
    loading = false;
    error = "";
    ddl = design.ddl;
    draft_table_name = design.table_name;
    original_columns = design.columns;
    draft_columns = draft_columns ids 0 design.columns;
  };
}

unfoldable pub begin_console : ConsoleTab → ConsoleTab
begin_console tab = record tab {
  status = TabStatus.loading;
  error = "";
  console = record tab.console { loading = true; error = "" };
}

unfoldable pub fail_console : String → ConsoleTab → ConsoleTab
fail_console message tab = record tab {
  status = TabStatus.error;
  error = message;
  console = record tab.console { loading = false; error = message };
}

unfoldable pub show_result : (ℕ → String) → SqlConsoleResult → ConsoleTab → ConsoleTab
unfolding grid_rows
show_result ids result tab = record tab {
  status = TabStatus.ready;
  error = "";
  console = record tab.console {
    loading = false;
    error = "";
    executed_sql = result.executed_sql;
    message = result.message;
    result_kind = if result.result_kind == "query" then ResultKind.query else ResultKind.mutation;
    columns = result.columns;
    rows = grid_rows ids 0 result.rows;
    offset = result.offset;
    limit = result.limit;
    total_rows = result.total_rows;
    row_count_exact = result.row_count_exact;
    affected_rows = result.affected_rows;
    truncated = result.truncated;
  };
}

-- The payload that `refreshDataTab` sends.
unfoldable pub data_request :
    String → String → String → String → String → ℕ → ℕ → LoadTableDataPayload
data_request profile_id database_name table_name where_clause order_by_clause offset limit =
    record {
      profile_id = profile_id;
      database_name = database_name;
      table_name = table_name;
      where_clause = some where_clause;
      order_by_clause = some order_by_clause;
      limit = some limit;
      offset = some offset;
    }

-- The payload that `runConsoleSql` sends.
unfoldable pub console_request : ConsoleTab → ℕ → ExecuteSqlPayload
console_request tab offset = record {
  profile_id = tab.profile_id;
  database_name = tab.database_name;
  sql = tab.console.sql;
  limit = some tab.console.limit;
  offset = some offset;
}

-- The three functions, each in two parts: the update before the request, and that after its answer.
pub data RemoteKind : Type 0 where
  data_page table_design sql_run : RemoteKind

unfoldable pub begin : RemoteKind → WorkspaceTab → WorkspaceTab
unfolding begin_data begin_design begin_console
begin data_page = on_data begin_data
begin table_design = on_design begin_design
begin sql_run = on_console begin_console

-- What the backend answers, with what the waiting function remembers of the request.
pub data Outcome : Type 0 where
  page_loaded : String → String → (ℕ → String) → TableDataPage → Outcome
  design_loaded : (ℕ → String) → TableDesign → Outcome
  sql_finished : (ℕ → String) → SqlConsoleResult → Outcome
  failed : RemoteKind → String → Outcome

abbrev pub kind_of : Outcome → RemoteKind
kind_of (page_loaded where_clause order_by_clause ids page) = data_page
kind_of (design_loaded ids design) = table_design
kind_of (sql_finished ids result) = sql_run
kind_of (failed kind message) = kind

unfoldable pub fail : RemoteKind → String → WorkspaceTab → WorkspaceTab
unfolding fail_data fail_design fail_console
fail data_page message = on_data (fail_data message)
fail table_design message = on_design (fail_design message)
fail sql_run message = on_console (fail_console message)

unfoldable pub finish : Outcome → WorkspaceTab → WorkspaceTab
unfolding show_page show_design show_result fail
finish (page_loaded where_clause order_by_clause ids page) =
    on_data (show_page where_clause order_by_clause ids page)
finish (design_loaded ids design) = on_design (show_design ids design)
finish (sql_finished ids result) = on_console (show_result ids result)
finish (failed kind message) = fail kind message

unfoldable pub begin_request : RemoteKind → String → TabsState → TabsState
unfolding begin patch_tab
begin_request kind tab_id = patch_tab tab_id (begin kind)

unfoldable pub finish_request : Outcome → String → TabsState → TabsState
unfolding finish patch_tab
finish_request outcome tab_id = patch_tab tab_id (finish outcome)
