-- ===== src/TableDomain/Rows.antt =====
-- The draft layer over the rows of a data tab: editing, selecting, adding, deleting, restoring.
pub mod Tracked
pub mod Edits
pub mod Pending
pub mod Selection
use zszc_sql_client.Base.{
  ℕ, ◌+◌, min, max, String, Bool, true, false, not, ◌&&◌, ◌||◌, Option, none, some, List, [], ◌∷◌,
  ◌++◌, map, flat_map, find_index_from, leb, ◌==◌, if◌then◌else◌,
}
use zszc_sql_client.Base.Dict.{insert, from_entries}
use zszc_sql_client.Types.Cells.{
  CellValue, text, number, null, Double, is_nan, JsonRecord, TableDataColumn,
}
use zszc_sql_client.Types.Tabs.{
  RowState, clean, new, updated, deleted, DataGridRow, DataTab, ConsoleTab,
}
use zszc_sql_client.Grid.{is_state, has_entries, build_changed_data_values}
use zszc_sql_client.Tabs.{TabsState, patch_tab}
use zszc_sql_client.TableDomain.{on_data, on_console, with_rows}

-- The new state of a row whose cell is written.
abbrev pub next_state : RowState → JsonRecord → RowState
next_state state changed =
    if is_state state new then new else if not (has_entries changed) then clean else updated

unfoldable pub write_cell : String → CellValue → DataGridRow → DataGridRow
unfolding build_changed_data_values insert
write_cell column_name next_value row =
    let next_values = insert column_name next_value row.values in
    record row {
      values = next_values;
      state =
          next_state row.state (build_changed_data_values (record row { values = next_values }));
    }

unfoldable pub edit_row : String → String → CellValue → DataGridRow → DataGridRow
unfolding write_cell
edit_row client_id column_name next_value row =
    if not (row.client_id == client_id) || is_state row.state deleted
    then row
    else write_cell column_name next_value row

unfoldable pub update_data_row : String → String → String → CellValue → TabsState → TabsState
unfolding edit_row patch_tab
update_data_row tab_id client_id column_name next_value =
    patch_tab tab_id (on_data (with_rows (map (edit_row client_id column_name next_value))))

-- A row at an index that is in the range or not.
abbrev pub mark_row : Bool → Bool → DataGridRow → DataGridRow
mark_row inside append row =
    if inside
    then record row { selected = true }
    else if append
    then row
    else record row { selected = false }

unfoldable pub mark_range : ℕ → ℕ → Bool → ℕ → List DataGridRow → List DataGridRow
mark_range lo hi append i [] = []
mark_range lo hi append i (row ∷ rows) =
    mark_row (leb lo i && leb i hi) append row ∷ mark_range lo hi append (i + 1) rows

-- `rows.findIndex(row => row.client_id === id)`
abbrev pub row_index : String → List DataGridRow → Option ℕ
row_index id = find_index_from 0 (λ row. row.client_id == id)

abbrev pub mark_between : Option ℕ → Option ℕ → Bool → List DataGridRow → List DataGridRow
mark_between (some a) (some b) append rows = mark_range (min a b) (max a b) append 0 rows
mark_between (some a) none append rows = rows
mark_between none b append rows = rows

unfoldable pub select_rows : String → String → Bool → List DataGridRow → List DataGridRow
unfolding mark_range
select_rows start_client_id end_client_id append rows =
    mark_between (row_index start_client_id rows) (row_index end_client_id rows) append rows

unfoldable pub select_data_rows_range : String → String → String → Bool → TabsState → TabsState
unfolding select_rows patch_tab
select_data_rows_range tab_id start_client_id end_client_id append =
    patch_tab tab_id (on_data (with_rows (select_rows start_client_id end_client_id append)))

unfoldable pub select_console_rows_range : String → String → String → Bool → TabsState → TabsState
unfolding select_rows patch_tab
select_console_rows_range tab_id start_client_id end_client_id append = patch_tab tab_id (
    on_console λ tab. record tab {
      console = record tab.console {
        rows = select_rows start_client_id end_client_id append tab.console.rows;
      };
    })

-- `appHelpers.inferDefaultCellValue`. `now` is the text of the current time, and `to_number` is the
-- conversion `Number(text)`.
unfoldable pub infer_default_cell_value : String → (String → Double) → String → CellValue
unfolding is_nan
infer_default_cell_value now to_number raw_default =
    if raw_default == "CURRENT_TIMESTAMP"
    then text now
    else if not (is_nan (to_number raw_default))
    then number (to_number raw_default)
    else text raw_default

-- `column.default_value ? inferDefaultCellValue(column.default_value) : null`
abbrev pub default_cell : String → (String → Double) → Option String → CellValue
default_cell now to_number none = null
default_cell now to_number (some raw) =
    if raw == "" then null else infer_default_cell_value now to_number raw

unfoldable pub blank_row : String → String → (String → Double) → List TableDataColumn → DataGridRow
unfolding infer_default_cell_value from_entries
blank_row client_id now to_number columns = record {
  client_id = client_id;
  selected = false;
  state = new;
  row_key = none;
  original_values = [];
  values =
      from_entries
        (map (λ column. (column.name, default_cell now to_number column.default_value)) columns);
}

unfoldable pub add_data_row : String → String → (String → Double) → String → TabsState → TabsState
unfolding blank_row patch_tab
add_data_row client_id now to_number tab_id = patch_tab tab_id (
    on_data λ tab.
      with_rows (λ rows. rows ++ blank_row client_id now to_number tab.grid.columns ∷ []) tab)

unfoldable pub delete_row : DataGridRow → List DataGridRow
delete_row row =
    if not row.selected
    then row ∷ []
    else if is_state row.state new
    then []
    else record row { state = deleted; selected = false } ∷ []

unfoldable pub delete_selected_data_rows : String → TabsState → TabsState
unfolding delete_row patch_tab
delete_selected_data_rows tab_id = patch_tab tab_id (on_data (with_rows (flat_map delete_row)))

unfoldable pub restore_row : DataGridRow → List DataGridRow
restore_row row =
    if not row.selected
    then row ∷ []
    else if is_state row.state new
    then []
    else record row { selected = false; state = clean; values = row.original_values } ∷ []

unfoldable pub restore_selected_data_rows : String → TabsState → TabsState
unfolding restore_row patch_tab
restore_selected_data_rows tab_id = patch_tab tab_id (on_data (with_rows (flat_map restore_row)))
