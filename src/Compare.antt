-- ===== src/Compare.antt =====
-- features/compare/state.ts: what of a finished comparison is selected for the sync SQL, and the
-- cache of difference pages.
pub mod Selection
pub mod Signatures
pub mod Summary
pub mod Pages
pub mod Task
pub mod Structure
mod Tests
use zszc_sql_client.Base.{
  ℕ, ◌+◌, ◌-◌, String, Bool, true, false, not, ◌&&◌, ◌||◌, Option, none, some, List, [], ◌∷◌, ◌++◌,
  map, filter, length, includes, ltb, leb, eqb, ◌==◌, if◌then◌else◌, or_else, drop,
}
use Prim.Native.String
use zszc_sql_client.Base.Dict
use zszc_sql_client.Base.Dict.{Dict}
use zszc_sql_client.Types.Cells.{JsonRecord}

pub record RowSample : Type 0 where
  pub signature : String
  pub row : JsonRecord

pub record UpdateSample : Type 0 where
  pub signature : String
  pub key : JsonRecord
  pub source_row : JsonRecord
  pub target_row : JsonRecord
  pub diff_columns : List String

pub record TableCompareResult : Type 0 where
  pub source_table : String
  pub target_table : String
  pub key_columns : List String
  pub compared_columns : List String
  pub compare_mode : String
  pub insert_count : ℕ
  pub update_count : ℕ
  pub delete_count : ℕ
  pub warnings : List String
  pub sample_inserts : List RowSample
  pub sample_updates : List UpdateSample
  pub sample_deletes : List RowSample

pub data CompareDetailType : Type 0 where
  insert update delete : CompareDetailType

pub record DataCompareSelectionItem : Type 0 where
  pub table_enabled : Bool
  pub insert_enabled : Bool
  pub update_enabled : Bool
  pub delete_enabled : Bool
  pub excluded_insert_signatures : List String
  pub excluded_update_signatures : List String
  pub excluded_delete_signatures : List String

abbrev pub SelectionByTable : Type 0
SelectionByTable = Dict DataCompareSelectionItem

unfoldable pub build_data_compare_result_table_key : TableCompareResult → String
build_data_compare_result_table_key item =
    String.◌++◌ item.source_table (String.◌++◌ "__" item.target_table)

abbrev pub create_empty_data_compare_selection_item : DataCompareSelectionItem
create_empty_data_compare_selection_item = record {
  table_enabled = true;
  insert_enabled = true;
  update_enabled = true;
  delete_enabled = true;
  excluded_insert_signatures = [];
  excluded_update_signatures = [];
  excluded_delete_signatures = [];
}

-- The table results of the response are its argument.
unfoldable pub create_data_compare_selection_state : List TableCompareResult → SelectionByTable
unfolding build_data_compare_result_table_key Dict.from_entries
create_data_compare_selection_state table_results = Dict.from_entries (
    map
      (λ item. (build_data_compare_result_table_key item, create_empty_data_compare_selection_item))
      table_results)

unfoldable pub get_data_compare_action_total_count : TableCompareResult → CompareDetailType → ℕ
get_data_compare_action_total_count item update = item.update_count
get_data_compare_action_total_count item delete = item.delete_count
get_data_compare_action_total_count item insert = item.insert_count

-- `selectionByTable[tableKey] ?? createEmptyDataCompareSelectionItem()`
unfoldable pub selection_of : SelectionByTable → String → DataCompareSelectionItem
unfolding Dict.lookup
selection_of selection_by_table table_key =
    or_else (Dict.lookup table_key selection_by_table) create_empty_data_compare_selection_item

abbrev pub excluded_signatures : DataCompareSelectionItem → CompareDetailType → List String
excluded_signatures selection update = selection.excluded_update_signatures
excluded_signatures selection delete = selection.excluded_delete_signatures
excluded_signatures selection insert = selection.excluded_insert_signatures

unfoldable pub get_data_compare_excluded_signatures :
    SelectionByTable → String → CompareDetailType → List String
unfolding selection_of
get_data_compare_excluded_signatures selection_by_table table_key detail_type =
    excluded_signatures (selection_of selection_by_table table_key) detail_type

abbrev pub detail_enabled : DataCompareSelectionItem → CompareDetailType → Bool
detail_enabled selection insert = selection.insert_enabled
detail_enabled selection update = selection.update_enabled
detail_enabled selection delete = selection.delete_enabled

-- `actionEnabled`
abbrev pub action_enabled : DataCompareSelectionItem → CompareDetailType → Bool
action_enabled selection detail_type =
    selection.table_enabled && detail_enabled selection detail_type

pub record ActionStats : Type 0 where
  pub selected : ℕ
  pub total : ℕ
  pub checked : Bool
  pub indeterminate : Bool

-- The return of the enabled branch, from the number of excluded signatures.
abbrev pub enabled_stats : ℕ → ℕ → ActionStats
enabled_stats total selected = record {
  selected = selected;
  total = total;
  checked = ltb 0 total && eqb selected total;
  indeterminate = ltb 0 selected && ltb selected total;
}

unfoldable pub get_data_compare_action_selection_stats :
    TableCompareResult → SelectionByTable → CompareDetailType → ActionStats
unfolding get_data_compare_action_total_count get_data_compare_excluded_signatures
get_data_compare_action_selection_stats item selection_by_table detail_type =
    let table_key = build_data_compare_result_table_key item in
    let selection = selection_of selection_by_table table_key in
    let total = get_data_compare_action_total_count item detail_type in
    if not (action_enabled selection detail_type)
    then record { selected = 0; total = total; checked = false; indeterminate = false }
    else enabled_stats total (
        total
        - length (get_data_compare_excluded_signatures selection_by_table table_key detail_type))

pub record TableStats : Type 0 where
  pub selected_total : ℕ
  pub total_total : ℕ
  pub table_checked : Bool
  pub table_indeterminate : Bool
  pub insert_stats : ActionStats
  pub update_stats : ActionStats
  pub delete_stats : ActionStats

-- The fields `insert_selected`, `insert_total`, … of the source are those of `insert_stats`, ….
unfoldable pub get_data_compare_table_selection_stats :
    TableCompareResult → SelectionByTable → TableStats
get_data_compare_table_selection_stats item selection_by_table =
    let insert_stats = get_data_compare_action_selection_stats item selection_by_table insert in
    let update_stats = get_data_compare_action_selection_stats item selection_by_table update in
    let delete_stats = get_data_compare_action_selection_stats item selection_by_table delete in
    let selected_total = insert_stats.selected + update_stats.selected + delete_stats.selected in
    let total_total = insert_stats.total + update_stats.total + delete_stats.total in
    record {
      selected_total = selected_total;
      total_total = total_total;
      table_checked = ltb 0 total_total && eqb selected_total total_total;
      table_indeterminate = ltb 0 selected_total && ltb selected_total total_total;
      insert_stats = insert_stats;
      update_stats = update_stats;
      delete_stats = delete_stats;
    }

pub record SelectionSummary : Type 0 where
  pub selected_tables : ℕ
  pub insert_selected : ℕ
  pub update_selected : ℕ
  pub delete_selected : ℕ

-- One round of the `reduce` in `getDataCompareSelectionSummary`.
unfoldable pub add_table :
    SelectionByTable → SelectionSummary → TableCompareResult → SelectionSummary
add_table selection_by_table summary item =
    let stats = get_data_compare_table_selection_stats item selection_by_table in
    record {
      selected_tables =
          if ltb 0 stats.selected_total
          then summary.selected_tables + 1
          else summary.selected_tables;
      insert_selected = summary.insert_selected + stats.insert_stats.selected;
      update_selected = summary.update_selected + stats.update_stats.selected;
      delete_selected = summary.delete_selected + stats.delete_stats.selected;
    }

unfoldable pub summarize :
    SelectionByTable → SelectionSummary → List TableCompareResult → SelectionSummary
unfolding add_table
summarize selection_by_table summary [] = summary
summarize selection_by_table summary (item ∷ items) =
    summarize selection_by_table (add_table selection_by_table summary item) items

abbrev pub no_tables : SelectionSummary
no_tables = record {
  selected_tables = 0;
  insert_selected = 0;
  update_selected = 0;
  delete_selected = 0;
}

-- A missing result gives the summary of no table.
unfoldable pub get_data_compare_selection_summary :
    Option (List TableCompareResult) → SelectionByTable → SelectionSummary
unfolding summarize
get_data_compare_selection_summary result selection_by_table =
    summarize selection_by_table no_tables (or_else result [])

unfoldable pub is_data_compare_detail_selected :
    TableCompareResult → SelectionByTable → CompareDetailType → String → Bool
unfolding get_data_compare_excluded_signatures
is_data_compare_detail_selected item selection_by_table detail_type signature =
    let table_key = build_data_compare_result_table_key item in
    if not (action_enabled (selection_of selection_by_table table_key) detail_type)
    then false
    else not (
        includes (get_data_compare_excluded_signatures selection_by_table table_key detail_type)
          signature)

-- A `Set` of strings, as a list in the order of insertion.
unfoldable pub set_add : List String → String → List String
set_add set signature = if includes set signature then set else set ++ signature ∷ []

unfoldable pub set_of : List String → List String → List String
unfolding set_add
set_of set [] = set
set_of set (signature ∷ rest) = set_of (set_add set signature) rest

unfoldable pub toggle_excluded_signature : List String → String → Bool → List String
unfolding set_of
toggle_excluded_signature signatures signature checked =
    let next = set_of [] signatures in
    if checked then filter (λ s. not (s == signature)) next else set_add next signature

pub record TableSqlSelection : Type 0 where
  pub source_table : String
  pub target_table : String
  pub table_enabled : Bool
  pub insert_enabled : Bool
  pub update_enabled : Bool
  pub delete_enabled : Bool
  pub excluded_insert_signatures : List String
  pub excluded_update_signatures : List String
  pub excluded_delete_signatures : List String

unfoldable pub table_sql_selection : SelectionByTable → TableCompareResult → TableSqlSelection
table_sql_selection selection_by_table item =
    let table_key = build_data_compare_result_table_key item in
    let stats = get_data_compare_table_selection_stats item selection_by_table in
    record {
      source_table = item.source_table;
      target_table = item.target_table;
      table_enabled = ltb 0 stats.selected_total;
      insert_enabled = ltb 0 stats.insert_stats.selected;
      update_enabled = ltb 0 stats.update_stats.selected;
      delete_enabled = ltb 0 stats.delete_stats.selected;
      excluded_insert_signatures =
          get_data_compare_excluded_signatures selection_by_table table_key insert;
      excluded_update_signatures =
          get_data_compare_excluded_signatures selection_by_table table_key update;
      excluded_delete_signatures =
          get_data_compare_excluded_signatures selection_by_table table_key delete;
    }

unfoldable pub build_data_compare_table_selections :
    List TableCompareResult → SelectionByTable → List TableSqlSelection
unfolding table_sql_selection
build_data_compare_table_selections table_results selection_by_table =
    map (table_sql_selection selection_by_table) table_results
