-- ===== src/TableDomain/Opening/Tests.antt =====
-- Opening a table twice.
use zszc_sql_client.Base.{◌≡◌, false, none, some, []}
use zszc_sql_client.Types.Tabs.{data_tab}
use zszc_sql_client.Grid.{has_pending_data_mutations, build_data_mutation_payload}
use zszc_sql_client.Tabs.{TabsState, initial, active_tab}
use zszc_sql_client.TableDomain.Opening.{loading_data_tab, open_data_tab}
use zszc_sql_client.TableDomain.Opening.Fresh.{open_data_tab_is_fresh}

abbrev open_once : TabsState
open_once = open_data_tab [] "p" "db" "users" initial

open_data_tab_is_fresh_example :
    (active_tab (open_data_tab [] "p" "db" "users" open_once)
      ≡ some (data_tab (loading_data_tab [] "p" "db" "users")))
    × (has_pending_data_mutations (loading_data_tab [] "p" "db" "users") ≡ false)
    × (build_data_mutation_payload (loading_data_tab [] "p" "db" "users") ≡ none)
open_data_tab_is_fresh_example = open_data_tab_is_fresh [] "p" "db" "users" open_once
