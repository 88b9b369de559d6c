-- ===== src/TableDomain/Tests.antt =====
-- A data tab, its pages and its rows, and the columns of a design.
use zszc_sql_client.Base.{
  ℕ, ◌≡◌, ◌<◌, ◌≤◌, ◌+◌, refl, String, Bool, true, false, some, List, [], ◌∷◌, All, get_elem?,
  or_else, arith, inl, inr,
}
use zszc_sql_client.Base.Dict.{lookup}
use zszc_sql_client.Types.Cells.{text, JsonRecord}
use zszc_sql_client.Types.Tabs.{
  RowState, clean, updated, deleted, DataGridRow, DataTab, DataTabState, data_tab, TransactionMode,
  TabStatus,
}
use zszc_sql_client.Grid.{build_changed_data_values, has_pending_data_mutations}
use zszc_sql_client.Tabs.{TabsState}
use zszc_sql_client.TableDomain.Rows.{update_data_row, delete_selected_data_rows, select_rows}
use zszc_sql_client.TableDomain.Rows.Tracked.{IsTracked}
use zszc_sql_client.TableDomain.Rows.Edits.{AreTracked, RowsStep, RowsReach, RowsReach-AreTracked}
use zszc_sql_client.TableDomain.Rows.Pending.{
  HasKeyIfUpdated, has_pending-eq-any_dirty, SelectedOrClean,
}
use zszc_sql_client.TableDomain.Rows.Selection.{get_elem?-select_rows}
use zszc_sql_client.TableDomain.Pages.{Direction, data_page_offset}
use zszc_sql_client.TableDomain.Pages.Bounds.{IsAligned, data_last_page}

abbrev loaded : JsonRecord
loaded = ("name", text "old") ∷ []

abbrev edited : JsonRecord
edited = ("name", text "new") ∷ []

abbrev key : JsonRecord
key = ("id", text "1") ∷ []

abbrev row_of : String → Bool → RowState → JsonRecord → DataGridRow
row_of client_id selected state values = record {
  client_id = client_id;
  selected = selected;
  state = state;
  row_key = some key;
  original_values = loaded;
  values = values;
}

abbrev clean_row : DataGridRow
clean_row = row_of "a" false clean loaded

abbrev edited_row : DataGridRow
edited_row = row_of "b" true updated edited

abbrev deleted_row : DataGridRow
deleted_row = row_of "c" true deleted loaded

abbrev rows : List DataGridRow
rows = clean_row ∷ edited_row ∷ deleted_row ∷ []

-- The second page of two rows of five.
abbrev grid_of : List DataGridRow → ℕ → ℕ → DataTabState
grid_of rows offset limit = record {
  loading = false;
  error = "";
  columns = [];
  rows = rows;
  primary_keys = "id" ∷ [];
  where_clause = "";
  order_by_clause = "";
  offset = offset;
  limit = limit;
  total_rows = 5;
  row_count_exact = true;
  editable = true;
  transaction_mode = TransactionMode.auto;
}

abbrev tab : DataTab
tab = record {
  id = "data:1";
  title = "users";
  subtitle = "";
  status = TabStatus.ready;
  error = "";
  profile_id = "p";
  database_name = "d";
  table_name = "users";
  grid = grid_of rows 0 100;
}

abbrev state : TabsState
state = record { tabs = data_tab tab ∷ []; active_tab_id = "data:1"; tabs_ref = [] }

clean_row-IsTracked : IsTracked clean_row
unfolding lookup build_changed_data_values
clean_row-IsTracked = record { dict = (refl, tt); original = (refl, tt); matches = refl }

edited_row-IsTracked : IsTracked edited_row
unfolding lookup build_changed_data_values
edited_row-IsTracked = record { dict = (refl, tt); original = (refl, tt); matches = refl }

deleted_row-IsTracked : IsTracked deleted_row
unfolding lookup
deleted_row-IsTracked = record { dict = (refl, tt); original = (refl, tt); matches = tt }

rows-AreTracked : All IsTracked rows
rows-AreTracked = (clean_row-IsTracked, (edited_row-IsTracked, (deleted_row-IsTracked, tt)))

-- A cell is written, and then the selected rows are deleted.
abbrev later : TabsState
later = delete_selected_data_rows "data:1" (update_data_row "data:1" "a" "name" (text "x") state)

later-RowsReach : RowsReach state later
later-RowsReach =
    RowsReach.then_step
      (RowsReach.then_step RowsReach.here (RowsStep.edits "data:1" "a" "name" (text "x")))
      (RowsStep.deletes "data:1")

RowsReach-AreTracked_example : AreTracked later
RowsReach-AreTracked_example = RowsReach-AreTracked later-RowsReach (rows-AreTracked, tt)

loaded_name : lookup "name" loaded ≡ some (text "old")
unfolding lookup
loaded_name = refl

keyed :
    (client_id : String) (selected : Bool) (state : RowState) (values : JsonRecord)
    → HasKeyIfUpdated (row_of client_id selected state values)
keyed client_id selected state values = λ u n. ground arith

rows-keyed : All HasKeyIfUpdated rows
rows-keyed = (
  keyed "a" false clean loaded,
  (keyed "b" true updated edited, (keyed "c" true deleted loaded, tt)),
)

has_pending-eq-any_dirty_example : has_pending_data_mutations tab ≡ true
has_pending-eq-any_dirty_example = has_pending-eq-any_dirty tab rows-AreTracked rows-keyed

rows-SelectedOrClean : All SelectedOrClean rows
rows-SelectedOrClean = (inr refl, (inl refl, (inl refl, tt)))

get_elem?-select_rows_example : get_elem? (select_rows "b" "a" false rows) 1 ≡ some edited_row
get_elem?-select_rows_example = get_elem?-select_rows "b" "a" false rows 1 0 1 refl refl

-- The third page of two rows each, from the second.
next_offset : data_page_offset (grid_of (clean_row ∷ edited_row ∷ []) 2 2) Direction.next ≡ some 4
unfolding data_page_offset
next_offset = refl

two_IsAligned : IsAligned 2 2
two_IsAligned = refl

data_last_page_example :
    (offset : ℕ) × (or_else (data_page_offset (grid_of [] 0 2) Direction.last) 0 ≡ offset)
    × (offset < 5)
    × (5 ≤ offset + 2)
data_last_page_example = data_last_page (grid_of [] 0 2) refl (omega arith) (omega arith)
