-- ===== src/TableDomain/Remote/Requests/Updates.antt =====
-- What the two parts of a request do to tabs.
use zszc_sql_client.Base.{
  String, ◌≡◌, refl, Bool, true, false, List, [], ◌∷◌, ◌++◌, any, arith, Bool-cases, inl, inr, ◌⊎◌,
}
use zszc_sql_client.Types.Tabs.{
  DataTab, DesignTab, ConsoleTab, WorkspaceTab, profile_tab, design_tab, data_tab, console_tab,
  group_assignment_tab, tab_id,
}
use zszc_sql_client.Tabs.{is_tab, patch_one}
use zszc_sql_client.TableDomain.{on_data, on_design, on_console}
use zszc_sql_client.TableDomain.Remote.{
  RemoteKind, data_page, table_design, sql_run, Outcome, page_loaded, design_loaded, sql_finished,
  failed, kind_of, begin, finish, fail, begin_data, begin_design, begin_console, show_page,
  show_design, show_result, fail_data, fail_design, fail_console,
}
use zszc_sql_client.TableDomain.Remote.Requests.{Request, kind_of_tab, is_kind, is_loading, serves}

-- An update of tabs of one kind: it sets the loading mark, and keeps kind and id; other tabs stay.
abbrev pub IsUpdate : RemoteKind → Bool → (WorkspaceTab → WorkspaceTab) → Type 0
IsUpdate kind loading g =
    (tab : WorkspaceTab)
    → ((is_kind kind (kind_of_tab tab) ≡ true)
        × (is_loading (g tab) ≡ loading)
        × (kind_of_tab (g tab) ≡ kind_of_tab tab)
        × (tab_id (g tab) ≡ tab_id tab))
      ⊎ ((is_kind kind (kind_of_tab tab) ≡ false) × (g tab ≡ tab))

on_data-IsUpdate :
    (loading : Bool) (f : DataTab → DataTab)
    → ((t : DataTab) → ((f t).grid.loading ≡ loading) × ((f t).id ≡ t.id))
    → IsUpdate data_page loading (on_data f)
on_data-IsUpdate loading f h (data_tab t) = inl (refl, (h t).0, refl, (h t).1)
on_data-IsUpdate loading f h (design_tab t) = inr (refl, refl)
on_data-IsUpdate loading f h (console_tab t) = inr (refl, refl)
on_data-IsUpdate loading f h (profile_tab t) = inr (refl, refl)
on_data-IsUpdate loading f h (group_assignment_tab t) = inr (refl, refl)

on_design-IsUpdate :
    (loading : Bool) (f : DesignTab → DesignTab)
    → ((t : DesignTab) → ((f t).design.loading ≡ loading) × ((f t).id ≡ t.id))
    → IsUpdate table_design loading (on_design f)
on_design-IsUpdate loading f h (design_tab t) = inl (refl, (h t).0, refl, (h t).1)
on_design-IsUpdate loading f h (data_tab t) = inr (refl, refl)
on_design-IsUpdate loading f h (console_tab t) = inr (refl, refl)
on_design-IsUpdate loading f h (profile_tab t) = inr (refl, refl)
on_design-IsUpdate loading f h (group_assignment_tab t) = inr (refl, refl)

on_console-IsUpdate :
    (loading : Bool) (f : ConsoleTab → ConsoleTab)
    → ((t : ConsoleTab) → ((f t).console.loading ≡ loading) × ((f t).id ≡ t.id))
    → IsUpdate sql_run loading (on_console f)
on_console-IsUpdate loading f h (console_tab t) = inl (refl, (h t).0, refl, (h t).1)
on_console-IsUpdate loading f h (data_tab t) = inr (refl, refl)
on_console-IsUpdate loading f h (design_tab t) = inr (refl, refl)
on_console-IsUpdate loading f h (profile_tab t) = inr (refl, refl)
on_console-IsUpdate loading f h (group_assignment_tab t) = inr (refl, refl)

pub begin-IsUpdate : (kind : RemoteKind) → IsUpdate kind true (begin kind)
unfolding begin begin_data begin_design begin_console
begin-IsUpdate data_page = on_data-IsUpdate true begin_data λ t. (refl, refl)
begin-IsUpdate table_design = on_design-IsUpdate true begin_design λ t. (refl, refl)
begin-IsUpdate sql_run = on_console-IsUpdate true begin_console λ t. (refl, refl)

fail-IsUpdate : (kind : RemoteKind) (message : String) → IsUpdate kind false (fail kind message)
unfolding fail fail_data fail_design fail_console
fail-IsUpdate data_page message = on_data-IsUpdate false (fail_data message) λ t. (refl, refl)
fail-IsUpdate table_design message =
    on_design-IsUpdate false (fail_design message) λ t. (refl, refl)
fail-IsUpdate sql_run message = on_console-IsUpdate false (fail_console message) λ t. (refl, refl)

pub finish-IsUpdate : (outcome : Outcome) → IsUpdate (kind_of outcome) false (finish outcome)
unfolding finish show_page show_design show_result
finish-IsUpdate (page_loaded where_clause order_by_clause ids page) =
    on_data-IsUpdate false (show_page where_clause order_by_clause ids page) λ t. (refl, refl)
finish-IsUpdate (design_loaded ids design) =
    on_design-IsUpdate false (show_design ids design) λ t. (refl, refl)
finish-IsUpdate (sql_finished ids result) =
    on_console-IsUpdate false (show_result ids result) λ t. (refl, refl)
finish-IsUpdate (failed kind message) = fail-IsUpdate kind message

pub any-append_cons :
    (tab : WorkspaceTab) (before after : List Request) (r : Request)
    → serves tab r ≡ false
    → any (serves tab) (before ++ r ∷ after) ≡ any (serves tab) (before ++ after)
any-append_cons tab [] after r h = rw h
any-append_cons tab (b ∷ before) after r h = rw (any-append_cons tab before after r h)

-- What an update of a tab by its id does to any tab.
pub patch-cases :
    (r : Request) (loading : Bool) (g : WorkspaceTab → WorkspaceTab)
    → IsUpdate r.kind loading g
    → (tab : WorkspaceTab)
    → ((is_loading (patch_one r.tab g tab) ≡ loading) × (serves (patch_one r.tab g tab) r ≡ true))
      ⊎ ((serves tab r ≡ false) × (patch_one r.tab g tab ≡ tab))
patch-cases r loading g u tab = elim (Bool-cases (is_tab r.tab tab)) [
  | inr other ↦ inr (ground arith, rw other)
  | inl here ↦ elim (u tab) [
    | inl (kind, loads, same, id) ↦ inl (rw here loads, rw (here, same, id, kind) here)
    | inr (kind, same) ↦ inr (ground arith, rw here same)
  ]
]
