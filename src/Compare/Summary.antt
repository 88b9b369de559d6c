-- ===== src/Compare/Summary.antt =====
-- The summary over all tables, and the selections that the SQL export is asked for.
use zszc_sql_client.Base.{ℕ, suc, ◌+◌, ◌≡◌, ◌||◌, some, List, [], ◌∷◌, arith, if◌then◌else◌}
use zszc_sql_client.Compare.{
  TableCompareResult, SelectionByTable, CompareDetailType, insert, update, delete, SelectionSummary,
  no_tables, TableSqlSelection, add_table, summarize, get_data_compare_selection_summary,
  table_sql_selection, build_data_compare_table_selections, get_data_compare_table_selection_stats,
  get_data_compare_action_selection_stats,
}

-- A table is exported exactly if one of its three kinds of difference is.
pub table_enabled-eq-or :
    (selection : SelectionByTable) (item : TableCompareResult)
    → let t = table_sql_selection selection item in
      t.table_enabled ≡ (t.insert_enabled || t.update_enabled || t.delete_enabled)
unfolding table_sql_selection get_data_compare_table_selection_stats
table_enabled-eq-or selection item = ground arith

-- Sums over the tables.
unfoldable pub sum_by : (TableCompareResult → ℕ) → List TableCompareResult → ℕ
sum_by f [] = 0
sum_by f (item ∷ items) = f item + sum_by f items

unfoldable pub enabled_count : List TableSqlSelection → ℕ
enabled_count [] = 0
enabled_count (t ∷ ts) = let rest = enabled_count ts in if t.table_enabled then suc rest else rest

summarize-selected_tables :
    (selection : SelectionByTable) (summary : SelectionSummary) (items : List TableCompareResult)
    → (summarize selection summary items).selected_tables
      ≡ summary.selected_tables
        + enabled_count (build_data_compare_table_selections items selection)
unfolding summarize enabled_count build_data_compare_table_selections
summarize-selected_tables selection summary [] = omega arith
summarize-selected_tables selection summary (item ∷ items) =
    ground (arith, summarize-selected_tables selection (add_table selection summary item) items)

-- The summary counts as selected exactly the tables that the export enables.
pub summary-selected_tables :
    (selection : SelectionByTable) (items : List TableCompareResult)
    → (get_data_compare_selection_summary (some items) selection).selected_tables
      ≡ enabled_count (build_data_compare_table_selections items selection)
unfolding get_data_compare_selection_summary
summary-selected_tables selection items =
    omega (arith, summarize-selected_tables selection no_tables items)

summarize-sums :
    (selection : SelectionByTable) (summary : SelectionSummary) (items : List TableCompareResult)
    → let result = summarize selection summary items in
      let selected = λ (t : CompareDetailType).
        sum_by
          (λ item. (get_data_compare_action_selection_stats item selection t).selected)
          items in
      (result.insert_selected ≡ summary.insert_selected + selected insert)
      × (result.update_selected ≡ summary.update_selected + selected update)
      × (result.delete_selected ≡ summary.delete_selected + selected delete)
unfolding summarize sum_by get_data_compare_table_selection_stats
summarize-sums selection summary [] = omega arith
summarize-sums selection summary (item ∷ items) =
    ground (arith, summarize-sums selection (add_table selection summary item) items)

-- The summary's counts are the sums of the counts that the tables show.
pub summary-sums :
    (selection : SelectionByTable) (items : List TableCompareResult)
    → let summary = get_data_compare_selection_summary (some items) selection in
      let selected = λ (t : CompareDetailType).
        sum_by
          (λ item. (get_data_compare_action_selection_stats item selection t).selected)
          items in
      (summary.insert_selected ≡ selected insert)
      × (summary.update_selected ≡ selected update)
      × (summary.delete_selected ≡ selected delete)
unfolding get_data_compare_selection_summary
summary-sums selection items = omega (arith, summarize-sums selection no_tables items)
