-- ===== src/TableDomain/Remote/Tests.antt =====
-- A data tab that is opened, asked for twice and answered.
use zszc_sql_client.Base.{ℕ, ◌≡◌, refl, String, true, false, none, [], ◌∷◌, All}
use zszc_sql_client.Base.Dict.{lookup}
use zszc_sql_client.Types.Cells.{text}
use zszc_sql_client.Types.Remote.{TableDataPage}
use zszc_sql_client.Types.Tabs.{DataTab, data_tab, TabStatus, TransactionMode}
use zszc_sql_client.Grid.{has_pending_data_mutations, build_data_mutation_payload}
use zszc_sql_client.Tabs.{TabsState, initial, upsert_tab}
use zszc_sql_client.TableDomain.Rows.Tracked.{IsTracked}
use zszc_sql_client.TableDomain.Remote.{
  data_page, page_loaded, failed, show_page, begin_request, finish_request,
}
use zszc_sql_client.TableDomain.Remote.Answers.{late_page_shows, loaded_page_is_fresh}
use zszc_sql_client.TableDomain.Remote.Requests.{
  Request, RemoteState, asks, answers, opens_loading, RemoteReach, start, later, AllServed,
  answer_all, is_loading,
}
use zszc_sql_client.TableDomain.Remote.Requests.Serving.{RemoteReach-AllServed, answer_all-quiet}

abbrev new_tab : DataTab
new_tab = record {
  id = "t";
  title = "db.users";
  subtitle = "";
  status = TabStatus.loading;
  error = "";
  profile_id = "p";
  database_name = "db";
  table_name = "users";
  grid = record {
    loading = true;
    error = "";
    columns = [];
    rows = [];
    primary_keys = [];
    where_clause = "";
    order_by_clause = "";
    offset = 0;
    limit = 100;
    total_rows = 0;
    row_count_exact = true;
    editable = true;
    transaction_mode = TransactionMode.auto;
  };
}

abbrev page_from : ℕ → TableDataPage
page_from offset = record {
  profile_id = "p";
  database_name = "db";
  table_name = "users";
  columns = [];
  rows = record { row_key = none; values = ("name", text "a") ∷ [] } ∷ [];
  primary_keys = [];
  offset = offset;
  limit = 1;
  total_rows = 2;
  row_count_exact = true;
  editable = true;
}

abbrev ids : ℕ → String
ids n = "row"

abbrev request : Request
request = record { kind = data_page; tab = "t" }

-- The tab is open and asked for twice; one of the two requests fails.
abbrev opened : TabsState
opened = begin_request data_page "t" (upsert_tab (data_tab new_tab) initial)

abbrev asked : TabsState
asked = begin_request data_page "t" opened

abbrev answered : RemoteState
answered = record {
  tabs = finish_request (failed data_page "timeout") "t" asked;
  requests = request ∷ [];
}

abbrev answered-reached : RemoteReach answered
answered-reached =
    later (later (later start (opens_loading (data_tab new_tab) data_page refl)) (asks request))
      (answers [] (request ∷ []) request (failed data_page "timeout") refl refl)

RemoteReach-AllServed_example : AllServed (request ∷ []) answered.tabs
RemoteReach-AllServed_example = RemoteReach-AllServed answered-reached

answer_all-quiet_example :
    All
      (λ tab. is_loading tab ≡ false)
      (answer_all (λ r. failed r.kind "timeout") (request ∷ []) answered.tabs).tabs
answer_all-quiet_example =
    answer_all-quiet (λ r. failed r.kind "timeout") (λ r. refl) answered-reached

late_page_shows_example :
    let second =
      finish_request
        (page_loaded "" "" ids (page_from 1))
        "t"
        (begin_request data_page "t" (begin_request data_page "t" opened)) in
    finish_request (page_loaded "" "" ids (page_from 0)) "t" second
    ≡ finish_request (page_loaded "" "" ids (page_from 0)) "t" opened
late_page_shows_example = late_page_shows "t" "" "" "" "" ids ids (page_from 0) (page_from 1) opened

loaded_page_is_fresh_example :
    (has_pending_data_mutations (show_page "" "" ids (page_from 0) new_tab) ≡ false)
    × (build_data_mutation_payload (show_page "" "" ids (page_from 0) new_tab) ≡ none)
    × All IsTracked (show_page "" "" ids (page_from 0) new_tab).grid.rows
unfolding lookup
loaded_page_is_fresh_example = loaded_page_is_fresh "" "" ids (page_from 0) new_tab ((refl, tt), tt)
