-- ===== src/Grid/Payload.antt =====
-- When there is something to submit: `hasPendingDataMutations` and `buildDataMutationPayload`.
use zszc_sql_client.Base.{
  ℕ, ◌+◌, ◌≡◌, refl, ◌≢◌, none, List, [], ◌∷◌, arith, ltb, any, length, All, is_some, length-append,
}
use zszc_sql_client.Types.Tabs.{DataGridRow, DataTab, deleted}
use zszc_sql_client.Grid.{
  is_pending_row, has_pending_data_mutations, inserted_rows, updated_row, updated_rows, deleted_row,
  deleted_rows, build_data_mutation_payload,
}

-- A row marked as deleted can be addressed by its key.
abbrev pub HasKeyIfDeleted : DataGridRow → Type 0
HasKeyIfDeleted row = row.state ≡ deleted → row.row_key ≢ none

-- How many entries of the payload a list of rows gives.
abbrev payload_size : List DataGridRow → ℕ
payload_size rows =
    length (inserted_rows rows) + length (updated_rows rows) + length (deleted_rows rows)

pending_row-eq-ltb :
    (row : DataGridRow)
    → HasKeyIfDeleted row
    → is_pending_row row
      ≡ ltb 0
          (length (inserted_rows (row ∷ [])) + length (updated_row row) + length (deleted_row row))
unfolding is_pending_row inserted_rows updated_row deleted_row
pending_row-eq-ltb row h = ground arith

payload_size-cons :
    (row : DataGridRow) (rows : List DataGridRow)
    → payload_size (row ∷ rows)
      ≡ length (inserted_rows (row ∷ []))
        + length (updated_row row)
        + length (deleted_row row)
        + payload_size rows
unfolding inserted_rows updated_rows deleted_rows
payload_size-cons row rows = ground (
  arith,
  length-append (updated_row row) (updated_rows rows),
  length-append (deleted_row row) (deleted_rows rows),
)

pending-eq-ltb-payload_size :
    (rows : List DataGridRow)
    → All HasKeyIfDeleted rows
    → any is_pending_row rows ≡ ltb 0 (payload_size rows)
pending-eq-ltb-payload_size [] h = unfold inserted_rows updated_rows deleted_rows in refl
pending-eq-ltb-payload_size (row ∷ rows) h = ground (
  arith,
  pending_row-eq-ltb row h.0,
  payload_size-cons row rows,
  pending-eq-ltb-payload_size rows h.1,
)

-- Where every deleted row has its key, the tab has pending mutations exactly when there is a
-- payload to submit.
pub has_pending-eq-is_some_payload :
    (tab : DataTab)
    → All HasKeyIfDeleted tab.grid.rows
    → has_pending_data_mutations tab ≡ is_some (build_data_mutation_payload tab)
unfolding has_pending_data_mutations build_data_mutation_payload
has_pending-eq-is_some_payload tab h = ground (arith, pending-eq-ltb-payload_size tab.grid.rows h)
