-- ===== src/Tabs/Stale.antt =====
-- Closing tabs: the next active tab, and closing while the ref is behind the tabs.
use zszc_sql_client.Base.{
  String, ◌≡◌, ◌≢◌, refl, true, false, not, List, [], ◌∷◌, find, last, eq_iff, arith, includes,
  ◌==◌, if◌then◌else◌, Distinct, eq_refl,
}
use zszc_sql_client.Types.Tabs.{WorkspaceTab, tab_id}
use zszc_sql_client.Tabs.{
  TabsState, sync_tabs_ref, is_tab, without_tab, remove_tab, active_tab, last_id,
}
use zszc_sql_client.Tabs.Laws.{ids, includes-without, includes-filter, filter-Distinct}

includes-without_self :
    (id : String) (tabs : List WorkspaceTab) → includes (ids (without_tab id tabs)) id ≡ false
includes-without_self id [] = refl
includes-without_self id (tab ∷ tabs) = ground (arith, includes-without_self id tabs)

-- A tab that is closed after a render is gone, and every other tab is open exactly if it was.
pub includes-remove_tab :
    (id other : String) (s : TabsState)
    → includes (ids (remove_tab id (sync_tabs_ref s)).tabs) other
      ≡ (if id == other then false else includes (ids s.tabs) other)
unfolding remove_tab sync_tabs_ref
includes-remove_tab id other s =
    ground
      (arith, eq_iff id other, includes-without_self id s.tabs, includes-without id other s.tabs)

last-mem :
    (tab : WorkspaceTab) (tabs : List WorkspaceTab)
    → includes (ids (tab ∷ tabs)) (last_id (last (tab ∷ tabs))) ≡ true
last-mem tab [] = ground (arith, eq_refl (tab_id tab))
last-mem tab (next ∷ tabs) = ground (arith, last-mem next tabs)

find-last :
    (tabs : List WorkspaceTab)
    → Distinct (ids tabs)
    → includes (ids tabs) "" ≡ false
    → find (is_tab (last_id (last tabs))) tabs ≡ last tabs
find-last [] d h = refl
find-last (tab ∷ []) d h = ground (arith, eq_refl (tab_id tab))
find-last (tab ∷ next ∷ tabs) d h = ground (
  arith,
  find-last (next ∷ tabs) d.1,
  last-mem next tabs,
  eq_iff (tab_id tab) (last_id (last (next ∷ tabs))),
)

-- With distinct ids that are not empty, closing the active tab after a render activates the last
-- tab that remains, or none if none remains.
pub active_tab-remove_active :
    (s : TabsState)
    → Distinct (ids s.tabs)
    → includes (ids s.tabs) "" ≡ false
    → active_tab (remove_tab s.active_tab_id (sync_tabs_ref s))
      ≡ last (without_tab s.active_tab_id s.tabs)
unfolding remove_tab sync_tabs_ref active_tab
active_tab-remove_active s d h = ground (
  arith,
  eq_refl s.active_tab_id,
  find-last (without_tab s.active_tab_id s.tabs)
      (filter-Distinct (λ tab. not (is_tab s.active_tab_id tab)) s.tabs d)
      (includes-filter (λ tab. not (is_tab s.active_tab_id tab)) "" s.tabs h),
)

-- Two different tabs closed in one batch, before a render: the second call starts from the ref as
-- it was, so a tab that was open comes back by the second call.
pub remove_tab_twice_unsynced :
    (first second : String) (s : TabsState)
    → first ≢ second
    → includes (ids s.tabs_ref) first ≡ true
    → includes (ids (remove_tab second (remove_tab first s)).tabs) first ≡ true
unfolding remove_tab
remove_tab_twice_unsynced first second s ne h =
    ground (arith, includes-without second first s.tabs_ref)
