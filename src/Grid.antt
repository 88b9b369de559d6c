-- ===== src/Grid.antt =====
-- features/table-data/dataMutations.ts: grid rows, their changed values, and what is submitted.
pub mod Changes
pub mod Payload
mod Tests
use zszc_sql_client.Base.{
  ℕ, ◌+◌, String, Bool, true, false, not, ◌&&◌, ◌||◌, Option, none, some, List, [], ◌∷◌, ◌++◌,
  filter, any, length, eqb, if◌then◌else◌, is_some,
}
use zszc_sql_client.Base.Dict.{Dict, lookup, from_entries}
use zszc_sql_client.Types.Cells.{
  CellValue, text, number, boolean, null, JsonRecord, TableDataRow, strict_eq, is_nan,
}
use zszc_sql_client.Types.Tabs.{
  RowState, clean, new, updated, deleted, DataGridRow, DataTab, TransactionMode,
}

-- `createGridRow`; the client id is that which `createClientId` returns.
unfoldable pub create_grid_row : String → TableDataRow → DataGridRow
create_grid_row client_id row = record {
  client_id = client_id;
  selected = false;
  state = clean;
  row_key = row.row_key;
  original_values = row.values;
  values = row.values;
}

-- `typeof left === 'number' && typeof right === 'number' && isNaN(left) && isNaN(right)`
abbrev both_nan : CellValue → CellValue → Bool
both_nan (number a) (number b) = is_nan a && is_nan b
both_nan _ _ = false

-- `none` is `undefined`.
unfoldable pub is_cell_value_equal : Option CellValue → Option CellValue → Bool
unfolding strict_eq is_nan
is_cell_value_equal none none = true
is_cell_value_equal (some left) (some right) = strict_eq left right || both_nan left right
is_cell_value_equal _ _ = false

-- The test of the filter in `buildChangedDataValues`.
unfoldable pub is_changed_entry : JsonRecord → String × CellValue → Bool
unfolding is_cell_value_equal lookup
is_changed_entry original (column_name, value) =
    if not (is_some (lookup column_name original))
    then true
    else not (is_cell_value_equal (some value) (lookup column_name original))

unfoldable pub build_changed_data_values : DataGridRow → JsonRecord
unfolding is_changed_entry from_entries
build_changed_data_values row =
    from_entries (filter (is_changed_entry row.original_values) row.values)

abbrev pub is_state : RowState → RowState → Bool
is_state clean clean = true
is_state new new = true
is_state updated updated = true
is_state deleted deleted = true
is_state _ _ = false

-- `Object.keys(buildChangedDataValues(row)).length > 0`
abbrev pub has_entries : JsonRecord → Bool
has_entries [] = false
has_entries (e ∷ m) = true

unfoldable pub is_pending_row : DataGridRow → Bool
unfolding build_changed_data_values
is_pending_row row =
    if is_state row.state new || is_state row.state deleted
    then true
    else if not (is_state row.state updated) || not (is_some row.row_key)
    then false
    else has_entries (build_changed_data_values row)

unfoldable pub has_pending_data_mutations : DataTab → Bool
unfolding is_pending_row
has_pending_data_mutations tab = any is_pending_row tab.grid.rows

unfoldable pub has_selected_data_rows_for_delete : DataTab → Bool
has_selected_data_rows_for_delete tab =
    any (λ row. row.selected && not (is_state row.state deleted)) tab.grid.rows

unfoldable pub is_restorable_row : DataGridRow → Bool
unfolding build_changed_data_values
is_restorable_row row =
    if not row.selected
    then false
    else if is_state row.state new || is_state row.state deleted
    then true
    else if not (is_state row.state updated)
    then false
    else has_entries (build_changed_data_values row)

unfoldable pub has_restorable_selected_data_rows : DataTab → Bool
unfolding is_restorable_row
has_restorable_selected_data_rows tab = any is_restorable_row tab.grid.rows

pub record UpdatedRowPayload : Type 0 where
  pub row_key : JsonRecord
  pub values : JsonRecord

pub record ApplyTableDataChangesPayload : Type 0 where
  pub profile_id : String
  pub database_name : String
  pub table_name : String
  pub transaction_mode : TransactionMode
  pub inserted_rows : List JsonRecord
  pub updated_rows : List UpdatedRowPayload
  pub deleted_rows : List JsonRecord

-- `rows.filter(row => row.state === 'new').map(row => ({ values: row.values }))`
unfoldable pub inserted_rows : List DataGridRow → List JsonRecord
inserted_rows [] = []
inserted_rows (row ∷ rows) =
    let rest = inserted_rows rows in if is_state row.state new then row.values ∷ rest else rest

-- One row's part of `updatedRows`, its two filters included.
unfoldable pub updated_row : DataGridRow → List UpdatedRowPayload
unfolding build_changed_data_values
updated_row row = elim row.row_key [
  | none ↦ []
  | some key ↦
      if is_state row.state updated && has_entries (build_changed_data_values row)
      then record { row_key = key; values = build_changed_data_values row } ∷ []
      else []
]

unfoldable pub updated_rows : List DataGridRow → List UpdatedRowPayload
unfolding updated_row
updated_rows [] = []
updated_rows (row ∷ rows) = updated_row row ++ updated_rows rows

unfoldable pub deleted_row : DataGridRow → List JsonRecord
deleted_row row = elim row.row_key [
  | none ↦ []
  | some key ↦ if is_state row.state deleted then key ∷ [] else []
]

unfoldable pub deleted_rows : List DataGridRow → List JsonRecord
unfolding deleted_row
deleted_rows [] = []
deleted_rows (row ∷ rows) = deleted_row row ++ deleted_rows rows

unfoldable pub build_data_mutation_payload : DataTab → Option ApplyTableDataChangesPayload
unfolding inserted_rows updated_rows deleted_rows
build_data_mutation_payload tab =
    let rows = tab.grid.rows in
    if eqb (length (inserted_rows rows) + length (updated_rows rows) + length (deleted_rows rows)) 0
    then none
    else some (record {
      profile_id = tab.profile_id;
      database_name = tab.database_name;
      table_name = tab.table_name;
      transaction_mode = tab.grid.transaction_mode;
      inserted_rows = inserted_rows rows;
      updated_rows = updated_rows rows;
      deleted_rows = deleted_rows rows;
    })
