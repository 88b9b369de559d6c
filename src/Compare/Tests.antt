-- ===== src/Compare/Tests.antt =====
-- A comparison of one table with three inserts.
use zszc_sql_client.Base.{
  drop, ◌-◌, ℕ, none, ◌≢◌, ◌≡◌, ◌≤◌, refl, String, true, some, List, [], ◌∷◌, filter, length, All,
  includes, Distinct, arith,
}
use zszc_sql_client.Base.Dict.{Dict}
use zszc_sql_client.Compare.{
  TableCompareResult, CompareDetailType, insert, SelectionByTable, RowSample,
  build_data_compare_result_table_key, get_data_compare_action_selection_stats,
  get_data_compare_action_total_count, get_data_compare_excluded_signatures,
  get_data_compare_selection_summary, build_data_compare_table_selections,
  is_data_compare_detail_selected,
}
use zszc_sql_client.Compare.Selection.{selected-eq-length_filter}
use zszc_sql_client.Compare.Summary.{enabled_count, sum_by, summary-selected_tables}
use zszc_sql_client.Compare.Pages.{
  CompareDetailPageResponse, DetailPages, build_pruned_data_compare_detail_pages,
}
use zszc_sql_client.Compare.Pages.Cache.{current, load_more, all_rows, load_pages}
use zszc_sql_client.Compare.Structure.{
  StructureTableItem, StructureCompareResponse, get_structure_selection_total,
  create_structure_selection_state,
}

abbrev result_of : String → String → TableCompareResult
result_of source target = record {
  source_table = source;
  target_table = target;
  key_columns = "id" ∷ [];
  compared_columns = "name" ∷ [];
  compare_mode = "key";
  insert_count = 3;
  update_count = 0;
  delete_count = 0;
  warnings = [];
  sample_inserts = [];
  sample_updates = [];
  sample_deletes = [];
}

abbrev users : TableCompareResult
users = result_of "users" "users"

-- One of the three inserts is excluded.
abbrev selection : SelectionByTable
selection =
    (
      "users__users",
      record {
        table_enabled = true;
        insert_enabled = true;
        update_enabled = true;
        delete_enabled = true;
        excluded_insert_signatures = "b" ∷ [];
        excluded_update_signatures = [];
        excluded_delete_signatures = [];
      },
    )
    ∷ []

two_selected : (get_data_compare_action_selection_stats users selection insert).selected ≡ 2
unfolding get_data_compare_action_selection_stats build_data_compare_result_table_key
two_selected = refl

users-excluded :
    get_data_compare_excluded_signatures selection
      (build_data_compare_result_table_key users)
      insert
    ≡ "b" ∷ []
unfolding get_data_compare_excluded_signatures build_data_compare_result_table_key
users-excluded = refl

users-total : 3 ≡ get_data_compare_action_total_count users insert
unfolding get_data_compare_action_total_count
users-total = refl

users-Distinct : Distinct (
    get_data_compare_excluded_signatures selection
      (build_data_compare_result_table_key users)
      insert)
users-Distinct = rw users-excluded (refl, tt)

users-known :
    All
      (λ e. includes ("a" ∷ "b" ∷ "c" ∷ []) e ≡ true)
      (get_data_compare_excluded_signatures selection
        (build_data_compare_result_table_key users)
        insert)
users-known = rw users-excluded (refl, tt)

selected-eq-length_filter_example :
    (get_data_compare_action_selection_stats users selection insert).selected
    ≡ length
        (filter (is_data_compare_detail_selected users selection insert) ("a" ∷ "b" ∷ "c" ∷ []))
selected-eq-length_filter_example =
    selected-eq-length_filter users selection insert ("a" ∷ "b" ∷ "c" ∷ [])
      (refl, (refl, (refl, tt))) users-total users-Distinct users-known

summary-selected_tables_example :
    (get_data_compare_selection_summary (some (users ∷ [])) selection).selected_tables
    ≡ enabled_count (build_data_compare_table_selections (users ∷ []) selection)
summary-selected_tables_example = summary-selected_tables selection (users ∷ [])

abbrev total_selected : CompareDetailType → ℕ
total_selected t =
    sum_by (λ item. (get_data_compare_action_selection_stats item selection t).selected)
      (users ∷ [])

abbrev page_with : List RowSample → CompareDetailPageResponse
page_with rows = record {
  source_table = "users";
  target_table = "users";
  detail_type = insert;
  total = 3;
  offset = 0;
  limit = 2;
  has_more = true;
  row_columns = "id" ∷ [];
  row_items = rows;
  update_items = [];
}

abbrev first_page : CompareDetailPageResponse
first_page =
    page_with (record { signature = "a"; row = [] } ∷ record { signature = "b"; row = [] } ∷ [])

abbrev second_page : CompareDetailPageResponse
second_page = page_with (record { signature = "c"; row = [] } ∷ [])

abbrev loaded : Dict DetailPages
loaded =
    load_more "users__users" insert
      (build_pruned_data_compare_detail_pages [] "users__users" insert first_page true)
      (second_page ∷ [])

load_pages_example :
    ((current "users__users" insert loaded).row_items
      ≡ drop
          (length (all_rows (first_page ∷ second_page ∷ [])) - 300)
          (all_rows (first_page ∷ second_page ∷ [])))
    × ((current "users__users" insert loaded).fetched ≡ 3)
    × (length (current "users__users" insert loaded).row_items ≤ 300)
load_pages_example =
    load_pages "users__users" insert [] first_page (second_page ∷ []) (λ e. ground arith)

abbrev item_of : String → StructureTableItem
item_of name = record {
  table_name = name;
  preview_sql = none;
  source_sql = none;
  target_sql = none;
  source_changed_lines = [];
  target_changed_lines = [];
  warnings = [];
}

-- No table was added, and one is modified.
abbrev structures : StructureCompareResponse
structures = record {
  added_tables = [];
  modified_tables = item_of "users" ∷ [];
  deleted_tables = [];
}

one_table : get_structure_selection_total (create_structure_selection_state structures) ≢ 0
unfolding get_structure_selection_total create_structure_selection_state
one_table e = omega (arith, e)

abbrev users_name : String
users_name = "users"
