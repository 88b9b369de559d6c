-- ===== src/TableDomain/Remote/Requests.antt =====
-- Requests under way: they are answered in any order, while tabs are opened, edited and closed.
pub mod Updates
pub mod Serving
use zszc_sql_client.Base.{
  String, ◌≡◌, ◌∙◌, refl, sym, subst, Bool, true, false, not, ◌&&◌, ◌||◌, Option, none, some, List,
  [], ◌∷◌, ◌++◌, map, any, filter, All, All-map, All-append, All-imp, arith, ◌==◌, eq_refl,
  Bool-cases, inl, inr, ◌⊎◌,
}
use zszc_sql_client.Types.Tabs.{
  DataGridRow, DataTab, DesignTab, ConsoleTab, WorkspaceTab, profile_tab, design_tab, data_tab,
  console_tab, group_assignment_tab, tab_id,
}
use zszc_sql_client.Tabs.{
  TabsState, initial, is_tab, patch_one, patch_tab, upsert_tab, remove_tab, sync_tabs_ref,
  without_tab,
}
use zszc_sql_client.Tabs.Laws.{patch_one_cases}
use zszc_sql_client.TableDomain.{on_data, on_design, on_console, with_rows}
use zszc_sql_client.TableDomain.Remote.{
  RemoteKind, data_page, table_design, sql_run, Outcome, page_loaded, design_loaded, sql_finished,
  failed, kind_of, begin, finish, fail, begin_request, finish_request, begin_data, begin_design,
  begin_console, show_page, show_design, show_result, fail_data, fail_design, fail_console,
}

pub record Request : Type 0 where
  pub kind : RemoteKind
  pub tab : String

-- The kind of request whose answer changes a tab.
abbrev pub kind_of_tab : WorkspaceTab → Option RemoteKind
kind_of_tab (data_tab t) = some data_page
kind_of_tab (design_tab t) = some table_design
kind_of_tab (console_tab t) = some sql_run
kind_of_tab (profile_tab t) = none
kind_of_tab (group_assignment_tab t) = none

abbrev pub is_kind : RemoteKind → Option RemoteKind → Bool
is_kind data_page (some data_page) = true
is_kind table_design (some table_design) = true
is_kind sql_run (some sql_run) = true
is_kind _ _ = false

abbrev pub is_loading : WorkspaceTab → Bool
is_loading (data_tab t) = t.grid.loading
is_loading (design_tab t) = t.design.loading
is_loading (console_tab t) = t.console.loading
is_loading (profile_tab t) = false
is_loading (group_assignment_tab t) = false

abbrev pub serves : WorkspaceTab → Request → Bool
serves tab r = is_kind r.kind (kind_of_tab tab) && is_tab r.tab tab

-- A tab that shows that it is loading has a request under way that will change it.
abbrev pub IsServed : List Request → WorkspaceTab → Type 0
IsServed requests tab = not (is_loading tab) || any (serves tab) requests ≡ true

-- The tabs, and the requests under way.
pub record RemoteState : Type 0 where
  pub tabs : TabsState
  pub requests : List Request

-- `renders` is the effect that brings the ref of the tabs up to date. `edits` is any change of the rows of a
-- data tab; `opens` is that of a tab which is not loading, or whose request is made at once.
pub data RemoteStep (s : RemoteState) : RemoteState → Type 0 where
  asks :
      (r : Request)
      → RemoteStep s
          (record { tabs = begin_request r.kind r.tab s.tabs; requests = r ∷ s.requests })
  answers :
      (before after : List Request) (r : Request) (outcome : Outcome)
      → s.requests ≡ before ++ r ∷ after
      → kind_of outcome ≡ r.kind
      → RemoteStep s
          (record { tabs = finish_request outcome r.tab s.tabs; requests = before ++ after })
  opens :
      (tab : WorkspaceTab)
      → is_loading tab ≡ false
      → RemoteStep s (record { tabs = upsert_tab tab s.tabs; requests = s.requests })
  opens_loading :
      (tab : WorkspaceTab) (kind : RemoteKind)
      → is_kind kind (kind_of_tab tab) ≡ true
      → RemoteStep s (record {
        tabs = begin_request kind (tab_id tab) (upsert_tab tab s.tabs);
        requests = record { kind = kind; tab = tab_id tab } ∷ s.requests;
      })
  edits :
      (id : String) (f : DataTab → List DataGridRow → List DataGridRow)
      → RemoteStep s (record {
        tabs = patch_tab id (on_data λ t. with_rows (f t) t) s.tabs;
        requests = s.requests;
      })
  closes :
      (id : String)
      → RemoteStep s (record { tabs = remove_tab id (sync_tabs_ref s.tabs); requests = s.requests })
  renders : RemoteStep s (record { tabs = sync_tabs_ref s.tabs; requests = s.requests })

pub data RemoteReach : RemoteState → Type 0 where
  start : RemoteReach (record { tabs = initial; requests = [] })
  later : {s t : RemoteState} → RemoteReach s → RemoteStep s t → RemoteReach t

-- Every tab is served.
abbrev pub AllServed : List Request → TabsState → Type 0
AllServed requests s = All (IsServed requests) s.tabs

-- Every request under way is answered.
unfoldable pub answer_all : (Request → Outcome) → List Request → TabsState → TabsState
answer_all respond [] s = s
answer_all respond (r ∷ requests) s =
    answer_all respond requests (finish_request (respond r) r.tab s)
