-- ===== src/TableDomain/Opening/Console.antt =====
-- `openConsoleTab`: a console for a data source, a database or a table.
-- `quote` is `quoteIdentifier`; what is loaded for the new console is not modelled.
use zszc_sql_client.Base.{
  String, not, Option, none, some, List, [], ◌∷◌, true, false, joined, is_some, or_else,
}
use zszc_sql_client.Base.Dict.{Dict, lookup}
use zszc_sql_client.Types.Remote.{
  ConnectionProfile, DatabaseEntry, SelectionState, none_selected, profile_selected,
  database_selected, table_selected,
}
use zszc_sql_client.Types.Tabs.{ConsoleTab, console_tab, TabStatus, ResultKind}
use zszc_sql_client.Tabs.{TabsState, upsert_tab}
use zszc_sql_client.TableDomain.Opening.{source_name}

module _ (quote : String → String) (profiles : List ConnectionProfile)
    (databases_by_profile : Dict (List DatabaseEntry)) where
  -- The console of a scope, by its parts: the label, the names, the statement and the message.
  unfoldable pub fresh_console :
      String → Option String → Option String → String → String → String → ConsoleTab
  unfolding lookup
  fresh_console profile_id database_name table_name label sql message = record {
    id = joined (
        "console:"
        ∷ profile_id
        ∷ ":"
        ∷ or_else database_name "__profile__"
        ∷ ":"
        ∷ or_else table_name "__scope__"
        ∷ []);
    title = "控制台";
    subtitle = label;
    status = TabStatus.ready;
    error = "";
    profile_id = profile_id;
    database_name = database_name;
    table_name = table_name;
    console = record {
      loading = false;
      error = "";
      sql = sql;
      message = message;
      executed_sql = "";
      result_kind = ResultKind.idle;
      columns = [];
      rows = [];
      offset = 0;
      limit = 200;
      total_rows = 0;
      row_count_exact = true;
      affected_rows = 0;
      truncated = false;
      database_loading = not (is_some (lookup profile_id databases_by_profile));
    };
  }

  unfoldable pub console_of_scope : SelectionState → Option ConsoleTab
  unfolding fresh_console source_name
  console_of_scope none_selected = none
  console_of_scope (profile_selected profile_id) = some (
      fresh_console profile_id none none (source_name profiles profile_id) ""
        "当前控制台未指定默认数据库，请使用库名前缀或先选择数据库。")
  console_of_scope (database_selected profile_id database_name) = some (
      fresh_console profile_id (some database_name) none
        (joined (source_name profiles profile_id ∷ " / " ∷ database_name ∷ [])) ""
        (joined ("当前控制台默认连接到 " ∷ database_name ∷ "。" ∷ [])))
  console_of_scope (table_selected profile_id database_name table_name) = some (
      fresh_console profile_id (some database_name) (some table_name)
        (joined (source_name profiles profile_id ∷ " / " ∷ database_name ∷ "." ∷ table_name ∷ []))
        (joined ("SELECT *\nFROM " ∷ quote database_name ∷ "." ∷ quote table_name ∷ []))
        (joined ("当前控制台默认连接到 " ∷ database_name ∷ "。" ∷ [])))

  unfoldable pub open_console_tab : SelectionState → TabsState → TabsState
  unfolding console_of_scope upsert_tab
  open_console_tab scope s = elim (console_of_scope scope) [
    | none ↦ s
    | some tab ↦ upsert_tab (console_tab tab) s
  ]
