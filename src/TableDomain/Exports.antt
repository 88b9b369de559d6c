-- ===== src/TableDomain/Exports.antt =====
-- The export dialog: `buildExportRows`, the functions that open and change the dialog, and its confirmation
-- (features/workspace/useTableWorkspaceDomain.ts), with the scopes that it offers (appHelpers.ts).
-- `trim` is that of the runtime, `shown` the text of a number, `date` that of the time in a file name.
pub mod Offers
mod Tests
use zszc_sql_client.Base.{
  ℕ, String, Bool, true, false, not, ◌&&◌, ◌||◌, Option, none, some, List, [], ◌∷◌, map, filter,
  find, joined, length, ltb, eqb, ◌==◌, if◌then◌else◌,
}
use zszc_sql_client.Types.Cells.{TableDataColumn, TableDataRow}
use zszc_sql_client.Types.Remote.{
  LoadTableDataPayload, ExecuteSqlPayload, ExportFileFormat, ExportScope, ExportSource, table_data,
  query_result, ExportDialogState,
}
use zszc_sql_client.Types.Tabs.{
  DataGridRow, deleted, DataTab, ConsoleTab, WorkspaceTab, data_tab, design_tab, console_tab,
  profile_tab, group_assignment_tab,
}
use zszc_sql_client.Grid.{is_state}
use zszc_sql_client.Tabs.{TabsState}

-- `selected_only` of the options, false when there are none.
abbrev pub is_exported : Bool → DataGridRow → Bool
is_exported selected_only row =
    if is_state row.state deleted then false else if selected_only then row.selected else true

abbrev pub exported_row : DataGridRow → TableDataRow
exported_row row = record { row_key = row.row_key; values = row.values }

unfoldable pub build_export_rows : Bool → List DataGridRow → List TableDataRow
build_export_rows selected_only rows = map exported_row (filter (is_exported selected_only) rows)

abbrev pub has_any {ℓ} : {A : Type ℓ} → List A → Bool
has_any [] = false
has_any (x ∷ xs) = true

unfoldable pub open_data_export_dialog : DataTab → ExportDialogState
unfolding build_export_rows
open_data_export_dialog tab =
    let rows = build_export_rows false tab.grid.rows in
    let chosen = build_export_rows true tab.grid.rows in
    record {
      title = "导出表数据";
      subtitle = joined (tab.database_name ∷ "." ∷ tab.table_name ∷ []);
      busy = false;
      format = ExportFileFormat.csv;
      scope =
          if has_any chosen
          then ExportScope.selected_rows
          else if has_any rows
          then ExportScope.current_page
          else ExportScope.all_rows;
      columns = tab.grid.columns;
      rows = rows;
      selected_rows = chosen;
      source = table_data (record {
        profile_id = tab.profile_id;
        database_name = tab.database_name;
        table_name = tab.table_name;
        where_clause = some tab.grid.where_clause;
        order_by_clause = some tab.grid.order_by_clause;
        limit = some tab.grid.limit;
        offset = some tab.grid.offset;
      });
    }

-- The data tab that shows a table, if there is one.
unfoldable pub find_data_tab : String → String → String → List WorkspaceTab → Option DataTab
find_data_tab profile_id database_name table_name [] = none
find_data_tab profile_id database_name table_name (data_tab t ∷ tabs) =
    if t.profile_id == profile_id && t.database_name == database_name && t.table_name == table_name
    then some t
    else find_data_tab profile_id database_name table_name tabs
find_data_tab profile_id database_name table_name (design_tab t ∷ tabs) =
    find_data_tab profile_id database_name table_name tabs
find_data_tab profile_id database_name table_name (console_tab t ∷ tabs) =
    find_data_tab profile_id database_name table_name tabs
find_data_tab profile_id database_name table_name (profile_tab t ∷ tabs) =
    find_data_tab profile_id database_name table_name tabs
find_data_tab profile_id database_name table_name (group_assignment_tab t ∷ tabs) =
    find_data_tab profile_id database_name table_name tabs

unfoldable pub open_table_export_dialog : String → String → String → TabsState → ExportDialogState
unfolding find_data_tab open_data_export_dialog
open_table_export_dialog profile_id database_name table_name s =
    elim (find_data_tab profile_id database_name table_name s.tabs) [
      | some tab ↦ open_data_export_dialog tab
      | none ↦ record {
        title = "导出表数据";
        subtitle = joined (database_name ∷ "." ∷ table_name ∷ []);
        busy = false;
        format = ExportFileFormat.csv;
        scope = ExportScope.all_rows;
        columns = [];
        rows = [];
        selected_rows = [];
        source = table_data (record {
          profile_id = profile_id;
          database_name = database_name;
          table_name = table_name;
          where_clause = some "";
          order_by_clause = some "";
          limit = none;
          offset = none;
        });
      }
    ]

unfoldable pub update_export_dialog_scope :
    ExportScope → Option ExportDialogState → Option ExportDialogState
update_export_dialog_scope scope none = none
update_export_dialog_scope scope (some dialog) = some (record dialog { scope = scope })

unfoldable pub update_export_dialog_format :
    ExportFileFormat → Option ExportDialogState → Option ExportDialogState
update_export_dialog_format format none = none
update_export_dialog_format format (some dialog) = some (record dialog { format = format })

-- The rows that the confirmation and the copy send.
unfoldable pub rows_to_send : ExportDialogState → List TableDataRow
rows_to_send dialog = elim dialog.scope [
  | ExportScope.selected_rows ↦ dialog.selected_rows
  | ExportScope.current_page ↦ dialog.rows
  | ExportScope.all_rows ↦ dialog.rows
]

unfoldable pub set_busy : Bool → Option ExportDialogState → Option ExportDialogState
set_busy busy none = none
set_busy busy (some dialog) = some (record dialog { busy = busy })

module _ (trim : String → String) where
  -- `none` when nothing is opened: there are no columns, or no statement.
  unfoldable pub open_query_result_export_dialog : ConsoleTab → Option ExportDialogState
  unfolding build_export_rows
  open_query_result_export_dialog tab =
      let executed =
        trim
          (if tab.console.executed_sql == "" then tab.console.sql else tab.console.executed_sql) in
      let chosen = build_export_rows true tab.console.rows in
      if not (has_any tab.console.columns)
      then none
      else if executed == ""
      then none
      else some (record {
        title = "导出查询结果";
        subtitle = tab.subtitle;
        busy = false;
        format = ExportFileFormat.csv;
        scope = if has_any chosen then ExportScope.selected_rows else ExportScope.current_page;
        columns = tab.console.columns;
        rows = build_export_rows false tab.console.rows;
        selected_rows = chosen;
        source = query_result (record {
          profile_id = tab.profile_id;
          database_name = tab.database_name;
          sql = executed;
          limit = some tab.console.limit;
          offset = some tab.console.offset;
        });
      })

  -- `Boolean(text?.trim())`
  abbrev pub is_given : Option String → Bool
  is_given none = false
  is_given (some text) = not (trim text == "")

  abbrev pub has_filter : LoadTableDataPayload → Bool
  has_filter payload = is_given payload.where_clause || is_given payload.order_by_clause
