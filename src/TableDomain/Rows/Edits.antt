-- ===== src/TableDomain/Rows/Edits.antt =====
-- Sequences of operations on the rows of data tabs, in any tabs.
use zszc_sql_client.Base.{
  ℕ, ◌+◌, min, max, String, ◌≡◌, ◌≢◌, ◌∙◌, Bool, true, false, Option, none, some, List, [], ◌∷◌,
  ◌++◌, map, All, All-map, All-flat_map, All-append, arith, eq_iff, ◌==◌, Bool-cases, inl, inr,
}
use zszc_sql_client.Base.Dict.{lookup, lookup-insert, from_entries-IsDict, insert-IsDict, insert}
use zszc_sql_client.Types.Cells.{CellValue, Double}
use zszc_sql_client.Types.Tabs.{
  clean, new, DataGridRow, DataTab, WorkspaceTab, profile_tab, design_tab, data_tab, console_tab,
  group_assignment_tab,
}
use zszc_sql_client.Grid.{build_changed_data_values}
use zszc_sql_client.Grid.Changes.{changed_value, lookup-build_changed, is_cell_value_equal_refl}
use zszc_sql_client.Tabs.{TabsState, is_tab, patch_tab, patch_one}
use zszc_sql_client.TableDomain.{on_data, with_rows}
use zszc_sql_client.TableDomain.Rows.{
  mark_row, mark_range, mark_between, row_index, select_rows, edit_row, write_cell, blank_row,
  default_cell, delete_row, restore_row, update_data_row, select_data_rows_range, add_data_row,
  delete_selected_data_rows, restore_selected_data_rows,
}
use zszc_sql_client.TableDomain.Rows.Tracked.{
  IsTracked, edit_row-IsTracked, delete_row-IsTracked, restore_row-IsTracked, has_entries-eq-false,
  lookup_of_has_entries, next_state-eq-clean,
}

abbrev pub TabIsTracked : WorkspaceTab → Type 0
TabIsTracked (data_tab t) = All IsTracked t.grid.rows
TabIsTracked (profile_tab t) = Unit
TabIsTracked (design_tab t) = Unit
TabIsTracked (console_tab t) = Unit
TabIsTracked (group_assignment_tab t) = Unit

-- Every row of every data tab is tracked.
abbrev pub AreTracked : TabsState → Type 0
AreTracked s = All TabIsTracked s.tabs

on_data-TabIsTracked :
    (f : DataTab → DataTab)
    → ((tab : DataTab) → All IsTracked tab.grid.rows → All IsTracked (f tab).grid.rows)
    → (tab : WorkspaceTab) → TabIsTracked tab
    → TabIsTracked (on_data f tab)
on_data-TabIsTracked f keep (data_tab t) h = keep t h
on_data-TabIsTracked f keep (profile_tab t) h = tt
on_data-TabIsTracked f keep (design_tab t) h = tt
on_data-TabIsTracked f keep (console_tab t) h = tt
on_data-TabIsTracked f keep (group_assignment_tab t) h = tt

patch_one-TabIsTracked :
    (id : String) (f : WorkspaceTab → WorkspaceTab) (tab : WorkspaceTab)
    → TabIsTracked (f tab)
    → TabIsTracked tab
    → TabIsTracked (patch_one id f tab)
patch_one-TabIsTracked id f tab after before = elim (Bool-cases (is_tab id tab)) [
  | inl here ↦ rw here after
  | inr other ↦ rw other before
]

-- An update of a data tab that keeps its rows tracked keeps all tabs tracked.
patch_data-AreTracked :
    (id : String) (f : DataTab → DataTab) (s : TabsState)
    → ((tab : DataTab) → All IsTracked tab.grid.rows → All IsTracked (f tab).grid.rows)
    → AreTracked s
    → AreTracked (patch_tab id (on_data f) s)
unfolding patch_tab
patch_data-AreTracked id f s keep h =
    All-map TabIsTracked TabIsTracked (patch_one id (on_data f))
      (λ tab t. patch_one-TabIsTracked id (on_data f) tab (on_data-TabIsTracked f keep tab t) t)
      s.tabs h

blank_row-IsTracked :
    (client_id now : String) (to_number : String → Double) (tab : DataTab)
    → IsTracked (blank_row client_id now to_number tab.grid.columns)
unfolding blank_row
blank_row-IsTracked client_id now to_number tab = record {
  dict = from_entries-IsDict {V = CellValue} (
      map (λ column. (column.name, default_cell now to_number column.default_value))
        tab.grid.columns);
  original = tt;
  matches = tt;
}

mark_row-IsTracked :
    (inside append : Bool) (row : DataGridRow)
    → IsTracked row
    → IsTracked (mark_row inside append row)
mark_row-IsTracked true append row t = record {
  dict = t.dict;
  original = t.original;
  matches = unfold build_changed_data_values in t.matches;
}
mark_row-IsTracked false true row t = t
mark_row-IsTracked false false row t = record {
  dict = t.dict;
  original = t.original;
  matches = unfold build_changed_data_values in t.matches;
}

mark_range-IsTracked :
    (lo hi : ℕ) (append : Bool) (i : ℕ) (rows : List DataGridRow)
    → All IsTracked rows
    → All IsTracked (mark_range lo hi append i rows)
unfolding mark_range
mark_range-IsTracked lo hi append i [] h = tt
mark_range-IsTracked lo hi append i (row ∷ rows) h =
    (mark_row-IsTracked _ append row h.0, mark_range-IsTracked lo hi append (i + 1) rows h.1)

mark_between-IsTracked :
    (a b : Option ℕ) (append : Bool) (rows : List DataGridRow)
    → All IsTracked rows
    → All IsTracked (mark_between a b append rows)
mark_between-IsTracked (some a) (some b) append rows h =
    mark_range-IsTracked (min a b) (max a b) append 0 rows h
mark_between-IsTracked (some a) none append rows h = h
mark_between-IsTracked none b append rows h = h

-- One operation on the rows of a data tab.
pub data RowsStep (s : TabsState) : TabsState → Type 0 where
  edits :
      (tab_id client_id column_name : String) (v : CellValue)
      → RowsStep s (update_data_row tab_id client_id column_name v s)
  selects :
      (tab_id first last : String) (append : Bool)
      → RowsStep s (select_data_rows_range tab_id first last append s)
  adds :
      (client_id now : String) (to_number : String → Double) (tab_id : String)
      → RowsStep s (add_data_row client_id now to_number tab_id s)
  deletes : (tab_id : String) → RowsStep s (delete_selected_data_rows tab_id s)
  restores : (tab_id : String) → RowsStep s (restore_selected_data_rows tab_id s)

pub data RowsReach (s : TabsState) : TabsState → Type 0 where
  here : RowsReach s s
  then_step : {t u : TabsState} → RowsReach s t → RowsStep t u → RowsReach s u

step-AreTracked : {s t : TabsState} → RowsStep s t → AreTracked s → AreTracked t
step-AreTracked {s} (edits tab_id client_id column_name v) h =
    unfold update_data_row in
    patch_data-AreTracked tab_id (with_rows (map (edit_row client_id column_name v))) s
      (λ tab.
        All-map IsTracked IsTracked (edit_row client_id column_name v)
          (edit_row-IsTracked client_id column_name v) tab.grid.rows)
      h
step-AreTracked {s} (selects tab_id first last append) h =
    unfold select_data_rows_range select_rows in
    patch_data-AreTracked tab_id (with_rows (select_rows first last append)) s
      (λ tab.
        mark_between-IsTracked (row_index first tab.grid.rows) (row_index last tab.grid.rows) append
          tab.grid.rows)
      h
step-AreTracked {s} (adds client_id now to_number tab_id) h =
    unfold add_data_row in
    patch_data-AreTracked tab_id
      (λ tab.
        with_rows (λ rows. rows ++ blank_row client_id now to_number tab.grid.columns ∷ []) tab)
      s
      (λ tab t.
        All-append IsTracked tab.grid.rows _ t
          (blank_row-IsTracked client_id now to_number tab, tt))
      h
step-AreTracked {s} (deletes tab_id) h =
    unfold delete_selected_data_rows in
    patch_data-AreTracked tab_id _ s
      (λ tab. All-flat_map IsTracked IsTracked delete_row delete_row-IsTracked tab.grid.rows) h
step-AreTracked {s} (restores tab_id) h =
    unfold restore_selected_data_rows in
    patch_data-AreTracked tab_id _ s
      (λ tab. All-flat_map IsTracked IsTracked restore_row restore_row-IsTracked tab.grid.rows) h

-- Whatever is edited, selected, added, deleted and restored, in any order and in any tabs: if every
-- row of every data tab was tracked at first, it still is.
pub RowsReach-AreTracked : {s t : TabsState} → RowsReach s t → AreTracked s → AreTracked t
RowsReach-AreTracked here h = h
RowsReach-AreTracked (then_step r st) h = step-AreTracked st (RowsReach-AreTracked r h)

changed_value_back :
    (column_name k : String) (v w : CellValue) (row : DataGridRow)
    → IsTracked row
    → row.state ≡ clean
    → lookup column_name row.original_values ≡ some w
    → changed_value
        (lookup k (insert column_name w (insert column_name v row.values)))
        (lookup k row.original_values)
      ≡ none
changed_value_back column_name k v w row t c e = elim (Bool-cases (column_name == k)) [
  | inl same ↦
      rw (lookup-insert, same, ← (eq_iff column_name k).0 same, e) (rw (is_cell_value_equal_refl w))
  | inr other ↦
      rw (lookup-insert, other, lookup-insert, other)
        (rw (lookup-build_changed row k t.dict) at
          (lookup_of_has_entries (build_changed_data_values row) k (simp c at t.matches)))
]

write_cell-ne-new :
    (column_name : String) (v : CellValue) (row : DataGridRow)
    → row.state ≡ clean
    → (write_cell column_name v row).state ≢ new
unfolding write_cell
write_cell-ne-new column_name v row c = ground arith

-- Writing any value to a cell of a clean row, and then the loaded value, makes the row clean again.
pub write_cell_back :
    (column_name : String) (v w : CellValue) (row : DataGridRow)
    → IsTracked row
    → row.state ≡ clean
    → lookup column_name row.original_values ≡ some w
    → (write_cell column_name w (write_cell column_name v row)).state ≡ clean
unfolding write_cell
write_cell_back column_name v w row t c e =
    let back = record row {
      values = insert column_name w (insert column_name v row.values);
      state = (write_cell column_name v row).state;
    } in
    next_state-eq-clean (write_cell column_name v row).state (build_changed_data_values back)
      (write_cell-ne-new column_name v row c)
      (has_entries-eq-false (build_changed_data_values back) λ k.
        lookup-build_changed back k
          (insert-IsDict column_name w _ (insert-IsDict column_name v row.values t.dict))
        ∙ changed_value_back column_name k v w row t c e)
