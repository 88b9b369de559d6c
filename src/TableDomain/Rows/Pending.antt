-- ===== src/TableDomain/Rows/Pending.antt =====
-- Pending mutations of tracked rows, and what deleting and restoring does to them.
use zszc_sql_client.Base.{
  ◌≡◌, ◌≢◌, ◌⊎◌, refl, Bool, true, false, not, none, List, [], ◌∷◌, ◌++◌, append_assoc, any,
  flat_map, All, arith,
}
use zszc_sql_client.Types.Tabs.{clean, updated, DataGridRow, DataTab}
use zszc_sql_client.Grid.{
  is_state, has_entries, build_changed_data_values, is_pending_row, has_pending_data_mutations,
  inserted_rows, updated_rows, deleted_rows, build_data_mutation_payload,
}
use zszc_sql_client.TableDomain.{with_rows}
use zszc_sql_client.TableDomain.Rows.{delete_row, restore_row}
use zszc_sql_client.TableDomain.Rows.Tracked.{IsTracked}

-- An updated row can be addressed by its key.
abbrev pub HasKeyIfUpdated : DataGridRow → Type 0
HasKeyIfUpdated row = row.state ≡ updated → row.row_key ≢ none

abbrev pub is_dirty : DataGridRow → Bool
is_dirty row = not (is_state row.state clean)

updated-has_entries :
    (row : DataGridRow)
    → IsTracked row
    → row.state ≡ updated
    → has_entries (build_changed_data_values row) ≡ true
updated-has_entries row t u = simp u at t.matches

pending_row-eq-dirty :
    (row : DataGridRow) → IsTracked row → HasKeyIfUpdated row → is_pending_row row ≡ is_dirty row
unfolding is_pending_row
pending_row-eq-dirty row t k = ground (arith, updated-has_entries row t)

any-pending-eq-dirty :
    (rows : List DataGridRow)
    → All IsTracked rows
    → All HasKeyIfUpdated rows
    → any is_pending_row rows ≡ any is_dirty rows
any-pending-eq-dirty [] t k = refl
any-pending-eq-dirty (row ∷ rows) t k =
    ground (arith, pending_row-eq-dirty row t.0 k.0, any-pending-eq-dirty rows t.1 k.1)

-- With tracked rows, where every updated row has its key, a tab has pending mutations exactly when
-- some row is not clean.
pub has_pending-eq-any_dirty :
    (tab : DataTab)
    → All IsTracked tab.grid.rows
    → All HasKeyIfUpdated tab.grid.rows
    → has_pending_data_mutations tab ≡ any is_dirty tab.grid.rows
unfolding has_pending_data_mutations
has_pending-eq-any_dirty tab t k = any-pending-eq-dirty tab.grid.rows t k

abbrev pub SelectedOrClean : DataGridRow → Type 0
SelectedOrClean row = (row.selected ≡ true) ⊎ (row.state ≡ clean)

restored-not-pending :
    (rows : List DataGridRow)
    → All SelectedOrClean rows
    → any is_pending_row (flat_map restore_row rows) ≡ false
unfolding restore_row is_pending_row
restored-not-pending [] h = refl
restored-not-pending (row ∷ rows) h = ground (arith, restored-not-pending rows h.1)

restored-inserted :
    (rows : List DataGridRow)
    → All SelectedOrClean rows
    → inserted_rows (flat_map restore_row rows) ≡ []
unfolding restore_row inserted_rows
restored-inserted [] h = refl
restored-inserted (row ∷ rows) h = ground (arith, restored-inserted rows h.1)

restored-updated :
    (rows : List DataGridRow)
    → All SelectedOrClean rows
    → updated_rows (flat_map restore_row rows) ≡ []
unfolding restore_row updated_rows
restored-updated [] h = refl
restored-updated (row ∷ rows) h = ground (arith, restored-updated rows h.1)

restored-deleted :
    (rows : List DataGridRow)
    → All SelectedOrClean rows
    → deleted_rows (flat_map restore_row rows) ≡ []
unfolding restore_row deleted_rows
restored-deleted [] h = refl
restored-deleted (row ∷ rows) h = ground (arith, restored-deleted rows h.1)

-- If every row that is not clean is selected, restoring leaves nothing pending and no payload.
pub restore_every :
    (tab : DataTab)
    → All SelectedOrClean tab.grid.rows
    → (has_pending_data_mutations (with_rows (flat_map restore_row) tab) ≡ false)
      × (build_data_mutation_payload (with_rows (flat_map restore_row) tab) ≡ none)
unfolding has_pending_data_mutations build_data_mutation_payload
restore_every tab h =
    let rows = tab.grid.rows in
    (
      restored-not-pending rows h,
      rw (restored-inserted rows h, restored-updated rows h, restored-deleted rows h),
    )

restore-delete_row : (row : DataGridRow) → flat_map restore_row (delete_row row) ≡ delete_row row
unfolding restore_row delete_row
restore-delete_row row = ground arith

flat_map-append :
    (f : DataGridRow → List DataGridRow) (xs ys : List DataGridRow)
    → flat_map f (xs ++ ys) ≡ flat_map f xs ++ flat_map f ys
flat_map-append f [] ys = refl
flat_map-append f (x ∷ xs) ys = simp (flat_map-append f xs ys, append_assoc)

-- Deleting clears the selection, so restoring at once after it changes nothing: the deleted rows
-- have to be selected again.
pub restore-delete :
    (rows : List DataGridRow)
    → flat_map restore_row (flat_map delete_row rows) ≡ flat_map delete_row rows
restore-delete [] = refl
restore-delete (row ∷ rows) = simp (flat_map-append, restore-delete_row, restore-delete rows)
