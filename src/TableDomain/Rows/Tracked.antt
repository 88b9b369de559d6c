-- ===== src/TableDomain/Rows/Tracked.antt =====
-- The invariant of a grid row: its state says whether its values differ from the loaded ones.
use zszc_sql_client.Base.{
  String, ◌≡◌, ◌≢◌, ◌∙◌, refl, Bool, true, false, not, Option, ◌||◌, ◌==◌, none, some, [], ◌∷◌, All,
  arith, eq_refl, Bool-cases, inl, inr,
}
use zszc_sql_client.Base.Dict.{IsDict, lookup, insert, insert-IsDict}
use zszc_sql_client.Types.Cells.{CellValue, JsonRecord, TableDataRow}
use zszc_sql_client.Types.Tabs.{RowState, clean, new, updated, deleted, DataGridRow}
use zszc_sql_client.Grid.{is_state, has_entries, build_changed_data_values, create_grid_row}
use zszc_sql_client.Grid.Changes.{is_cell_value_equal_refl, changed_value, lookup-build_changed}
use zszc_sql_client.TableDomain.Rows.{next_state, write_cell, edit_row, delete_row, restore_row}

abbrev pub StateMatches : RowState → Bool → Type 0
StateMatches clean differs = differs ≡ false
StateMatches updated differs = differs ≡ true
StateMatches new differs = Unit
StateMatches deleted differs = Unit

-- Both records have each key once; a clean row has no changed value and an updated row has one.
pub record IsTracked (row : DataGridRow) : Type 0 where
  pub dict : IsDict row.values
  pub original : IsDict row.original_values
  pub matches : StateMatches row.state (has_entries (build_changed_data_values row))

-- An object has no entry exactly if it has no value under any key.
pub has_entries-eq-false :
    (m : JsonRecord) → ((k : String) → lookup k m ≡ none) → has_entries m ≡ false
unfolding lookup
has_entries-eq-false [] h = refl
has_entries-eq-false ((k, v) ∷ m) h = ground (arith, h k, eq_refl k)

pub lookup_of_has_entries :
    (m : JsonRecord) (k : String) → has_entries m ≡ false → lookup k m ≡ none
unfolding lookup
lookup_of_has_entries [] k h = refl
lookup_of_has_entries (e ∷ m) k h = ground arith

changed_value_self : (v : Option CellValue) → changed_value v v ≡ none
changed_value_self none = refl
changed_value_self (some v) = rw (is_cell_value_equal_refl v)

-- A row whose values are the loaded ones has no changed value.
pub unchanged-has_entries :
    (row : DataGridRow)
    → IsDict row.values
    → row.values ≡ row.original_values
    → has_entries (build_changed_data_values row) ≡ false
unchanged-has_entries row h e =
    has_entries-eq-false (build_changed_data_values row)
      λ k. lookup-build_changed row k h ∙ (rw (← e) (changed_value_self (lookup k row.values)))

pub create_grid_row-IsTracked :
    (client_id : String) (row : TableDataRow)
    → IsDict row.values
    → IsTracked (create_grid_row client_id row)
unfolding create_grid_row
create_grid_row-IsTracked client_id row h = record {
  dict = h;
  original = h;
  matches = unchanged-has_entries _ h refl;
}

next_state-StateMatches :
    (state : RowState) (changed : JsonRecord)
    → StateMatches (next_state state changed) (has_entries changed)
next_state-StateMatches new changed = tt
next_state-StateMatches clean [] = refl
next_state-StateMatches clean (e ∷ m) = refl
next_state-StateMatches updated [] = refl
next_state-StateMatches updated (e ∷ m) = refl
next_state-StateMatches deleted [] = refl
next_state-StateMatches deleted (e ∷ m) = refl

-- A row that is not new is clean after a write that leaves no changed value.
pub next_state-eq-clean :
    (state : RowState) (changed : JsonRecord)
    → state ≢ new
    → has_entries changed ≡ false
    → next_state state changed ≡ clean
next_state-eq-clean state changed n h = ground arith

pub write_cell-IsTracked :
    (column_name : String) (v : CellValue) (row : DataGridRow)
    → IsTracked row
    → IsTracked (write_cell column_name v row)
unfolding write_cell
write_cell-IsTracked column_name v row t = record {
  dict = insert-IsDict column_name v row.values t.dict;
  original = t.original;
  matches =
      next_state-StateMatches row.state
        (build_changed_data_values (record row { values = insert column_name v row.values }));
}

-- Writing a cell of a row keeps the row tracked.
pub edit_row-IsTracked :
    (client_id column_name : String) (v : CellValue) (row : DataGridRow)
    → IsTracked row
    → IsTracked (edit_row client_id column_name v row)
unfolding edit_row
edit_row-IsTracked client_id column_name v row t =
    elim (Bool-cases (not (row.client_id == client_id) || is_state row.state deleted)) [
      | inl kept ↦ rw kept t
      | inr written ↦ rw written (write_cell-IsTracked column_name v row t)
    ]

delete_mark-IsTracked :
    (row : DataGridRow)
    → IsTracked row
    → IsTracked (record row { state = deleted; selected = false })
delete_mark-IsTracked row t = record { dict = t.dict; original = t.original; matches = tt }

restore_mark-IsTracked :
    (row : DataGridRow)
    → IsTracked row
    → IsTracked (record row { selected = false; state = clean; values = row.original_values })
restore_mark-IsTracked row t = record {
  dict = t.original;
  original = t.original;
  matches = unchanged-has_entries _ t.original refl;
}

pub delete_row-IsTracked : (row : DataGridRow) → IsTracked row → All IsTracked (delete_row row)
unfolding delete_row
delete_row-IsTracked row t = elim (Bool-cases row.selected) [
  | inl chosen ↦ elim (Bool-cases (is_state row.state new)) [
    | inl fresh ↦ rw (chosen, fresh) tt
    | inr old ↦ rw (chosen, old) (delete_mark-IsTracked row t, tt)
  ]
  | inr other ↦ simp other (t, tt)
]

pub restore_row-IsTracked : (row : DataGridRow) → IsTracked row → All IsTracked (restore_row row)
unfolding restore_row
restore_row-IsTracked row t = elim (Bool-cases row.selected) [
  | inl chosen ↦ elim (Bool-cases (is_state row.state new)) [
    | inl fresh ↦ rw (chosen, fresh) tt
    | inr old ↦ rw (chosen, old) (restore_mark-IsTracked row t, tt)
  ]
  | inr other ↦ simp other (t, tt)
]
