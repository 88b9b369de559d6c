-- ===== src/TableDomain/Exports/Tests.antt =====
-- The export of a data tab with a selected row, and of the result of a console.
use zszc_sql_client.Base.{ℕ, ◌≡◌, refl, String, Bool, true, false, not, ◌||◌, none, some, [], ◌∷◌}
use zszc_sql_client.Types.Cells.{text, TableDataColumn}
use zszc_sql_client.Types.Remote.{ExportDialogState, ExportFileFormat, ExportScope, query_result}
use zszc_sql_client.Types.Tabs.{
  DataGridRow, clean, DataTab, ConsoleTab, TabStatus, TransactionMode, ResultKind,
}
use zszc_sql_client.TableDomain.Exports.{
  has_any, build_export_rows, open_data_export_dialog, open_query_result_export_dialog,
}
use zszc_sql_client.TableDomain.Exports.Offers.{
  is_offered, get_export_scope_options, opened_scope_is_offered,
}

abbrev column : TableDataColumn
column = record {
  name = "name";
  data_type = "text";
  nullable = true;
  primary_key = false;
  auto_increment = false;
  default_value = none;
  comment = "";
}

abbrev row : Bool → DataGridRow
row selected = record {
  client_id = "a";
  selected = selected;
  state = clean;
  row_key = none;
  original_values = ("name", text "x") ∷ [];
  values = ("name", text "x") ∷ [];
}

abbrev tab : DataTab
tab = record {
  id = "t";
  title = "db.users";
  subtitle = "";
  status = TabStatus.ready;
  error = "";
  profile_id = "p";
  database_name = "db";
  table_name = "users";
  grid = record {
    loading = false;
    error = "";
    columns = column ∷ [];
    rows = row true ∷ row false ∷ [];
    primary_keys = [];
    where_clause = "";
    order_by_clause = "";
    offset = 0;
    limit = 100;
    total_rows = 2;
    row_count_exact = true;
    editable = true;
    transaction_mode = TransactionMode.auto;
  };
}

abbrev console : ConsoleTab
console = record {
  id = "c";
  title = "控制台";
  subtitle = "local";
  status = TabStatus.ready;
  error = "";
  profile_id = "p";
  database_name = some "db";
  table_name = none;
  console = record {
    loading = false;
    error = "";
    sql = "select 1";
    message = "";
    executed_sql = "";
    result_kind = ResultKind.query;
    columns = column ∷ [];
    rows = row false ∷ [];
    offset = 0;
    limit = 200;
    total_rows = 1;
    row_count_exact = true;
    affected_rows = 0;
    truncated = false;
    database_loading = false;
  };
}

-- The dialog of the console: no row is selected.
abbrev dialog : ExportDialogState
dialog = record {
  title = "导出查询结果";
  subtitle = "local";
  busy = false;
  format = ExportFileFormat.csv;
  scope = ExportScope.current_page;
  columns = column ∷ [];
  rows = record { row_key = none; values = ("name", text "x") ∷ [] } ∷ [];
  selected_rows = [];
  source = query_result (record {
    profile_id = "p";
    database_name = some "db";
    sql = "select 1";
    limit = some 200;
    offset = some 0;
  });
}

abbrev trim : String → String
trim s = s

abbrev shown : ℕ → String
shown n = "1"

opens_dialog : open_query_result_export_dialog trim console ≡ some dialog
unfolding open_query_result_export_dialog build_export_rows
opens_dialog = refl

has_columns :
    not (has_any (build_export_rows false tab.grid.rows)) || has_any tab.grid.columns ≡ true
unfolding build_export_rows
has_columns = refl

opened_scope_is_offered_example :
    (is_offered
        (open_data_export_dialog tab).scope
        (get_export_scope_options trim shown (open_data_export_dialog tab))
      ≡ true)
    × (is_offered ExportScope.current_page (get_export_scope_options trim shown dialog) ≡ true)
opened_scope_is_offered_example =
    opened_scope_is_offered trim shown tab console dialog has_columns opens_dialog
