-- ===== src/Grid/Tests.antt =====
-- Edited rows of a table with the columns `id` and `name`.
use zszc_sql_client.Base.{
  ◌≡◌, refl, String, true, false, Option, some, List, [], ◌∷◌, is_some, arith,
}
use zszc_sql_client.Base.Dict.{IsDict, lookup}
use zszc_sql_client.Types.Cells.{text, JsonRecord}
use zszc_sql_client.Types.Tabs.{
  RowState, updated, deleted, DataGridRow, DataTab, TransactionMode, TabStatus,
}
use zszc_sql_client.Grid.{
  build_changed_data_values, has_pending_data_mutations, build_data_mutation_payload,
}
use zszc_sql_client.Grid.Changes.{changed_value, lookup-build_changed}
use zszc_sql_client.Grid.Payload.{HasKeyIfDeleted, has_pending-eq-is_some_payload}

abbrev loaded : JsonRecord
loaded = ("id", text "1") ∷ ("name", text "old") ∷ []

abbrev edited : JsonRecord
edited = ("id", text "1") ∷ ("name", text "new") ∷ []

abbrev row_of : String → RowState → Option JsonRecord → DataGridRow
row_of client_id state key = record {
  client_id = client_id;
  selected = false;
  state = state;
  row_key = key;
  original_values = loaded;
  values = edited;
}

abbrev edited_row : DataGridRow
edited_row = row_of "a" updated (some (("id", text "1") ∷ []))

abbrev tab_of : List DataGridRow → DataTab
tab_of rows = record {
  id = "data:1";
  title = "users";
  subtitle = "";
  status = TabStatus.ready;
  error = "";
  profile_id = "p";
  database_name = "d";
  table_name = "users";
  grid = record {
    loading = false;
    error = "";
    columns = [];
    rows = rows;
    primary_keys = "id" ∷ [];
    where_clause = "";
    order_by_clause = "";
    offset = 0;
    limit = 100;
    total_rows = 1;
    row_count_exact = true;
    editable = true;
    transaction_mode = TransactionMode.auto;
  };
}

edited-IsDict : IsDict edited
unfolding lookup
edited-IsDict = (refl, (refl, tt))

-- Only the column that differs is submitted.
changed_name : build_changed_data_values edited_row ≡ ("name", text "new") ∷ []
unfolding build_changed_data_values
changed_name = refl

lookup-build_changed_example :
    lookup "name" (build_changed_data_values edited_row)
    ≡ changed_value (lookup "name" edited) (lookup "name" loaded)
lookup-build_changed_example = lookup-build_changed edited_row "name" edited-IsDict

edited_name : lookup "name" edited ≡ some (text "new")
unfolding lookup
edited_name = refl

-- An edited and a deleted row, each with its key.
abbrev pending_rows : List DataGridRow
pending_rows = edited_row ∷ row_of "c" deleted (some (("id", text "2") ∷ [])) ∷ []

keyed :
    (client_id : String) (state : RowState) (key : JsonRecord)
    → HasKeyIfDeleted (row_of client_id state (some key))
keyed client_id state key = λ d n. ground arith

has_pending-eq-is_some_payload_example :
    has_pending_data_mutations (tab_of pending_rows)
    ≡ is_some (build_data_mutation_payload (tab_of pending_rows))
has_pending-eq-is_some_payload_example =
    has_pending-eq-is_some_payload (tab_of pending_rows)
      (keyed "a" updated (("id", text "1") ∷ []), (keyed "c" deleted (("id", text "2") ∷ []), tt))
