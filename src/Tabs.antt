-- ===== src/Tabs.antt =====
-- features/workspace/useWorkspaceTabsState.ts: the open tabs and the active one.
-- `tabs_ref` is the ref that the effect sets to the tabs of the last render, so it is behind the
-- tabs between an update and the next render; `sync_tabs_ref` is that effect.
pub mod Laws
pub mod Opening
pub mod Reach
pub mod Stale
mod Tests
use zszc_sql_client.Base.{
  String, Bool, not, ◌&&◌, ◌||◌, Option, none, some, List, [], ◌∷◌, ◌++◌, map, filter, find, any,
  last, ◌==◌, if◌then◌else◌,
}
use zszc_sql_client.Types.Tabs.{WorkspaceTab, tab_id}

pub record TabsState : Type 0 where
  pub tabs : List WorkspaceTab
  pub active_tab_id : String
  pub tabs_ref : List WorkspaceTab

unfoldable pub initial : TabsState
initial = record { tabs = []; active_tab_id = ""; tabs_ref = [] }

unfoldable pub sync_tabs_ref : TabsState → TabsState
sync_tabs_ref s = record s { tabs_ref = s.tabs }

abbrev pub is_tab : String → WorkspaceTab → Bool
is_tab id tab = tab_id tab == id

abbrev pub patch_one : String → (WorkspaceTab → WorkspaceTab) → WorkspaceTab → WorkspaceTab
patch_one id updater tab = if is_tab id tab then updater tab else tab

unfoldable pub patch_tab : String → (WorkspaceTab → WorkspaceTab) → TabsState → TabsState
patch_tab id updater s = record s { tabs = map (patch_one id updater) s.tabs }

-- `remaining.at(-1)?.id ?? ''`
abbrev pub last_id : Option WorkspaceTab → String
last_id none = ""
last_id (some tab) = tab_id tab

abbrev pub without_tab : String → List WorkspaceTab → List WorkspaceTab
without_tab id = filter (λ tab. not (is_tab id tab))

unfoldable pub remove_tab : String → TabsState → TabsState
remove_tab id s =
    let remaining = without_tab id s.tabs_ref in
    record s {
      tabs = remaining;
      active_tab_id = if s.active_tab_id == id then last_id (last remaining) else s.active_tab_id;
    }

unfoldable pub replace_tab : String → WorkspaceTab → TabsState → TabsState
replace_tab id next s = record s {
  tabs =
      map (patch_one id (λ _. next))
        (filter (λ tab. not (is_tab (tab_id next) tab) || is_tab id tab) s.tabs);
  active_tab_id = tab_id next;
}

unfoldable pub upsert_tab : WorkspaceTab → TabsState → TabsState
upsert_tab next s = record s {
  tabs =
      if any (is_tab (tab_id next)) s.tabs
      then map (patch_one (tab_id next) (λ _. next)) s.tabs
      else s.tabs ++ next ∷ [];
  active_tab_id = tab_id next;
}

unfoldable pub active_tab : TabsState → Option WorkspaceTab
active_tab s = find (is_tab s.active_tab_id) s.tabs
