-- ===== src/Tabs/Reach.antt =====
-- The tabs as a state machine: each operation is followed by a render.
use zszc_sql_client.Base.{
  String, ◌≡◌, refl, true, inl, includes, ◌≢◌, none, find, List, [], ◌∷◌, arith, inr,
}
use zszc_sql_client.Types.Tabs.{WorkspaceTab}
use zszc_sql_client.Tabs.{
  TabsState, initial, sync_tabs_ref, is_tab, patch_tab, remove_tab, replace_tab, upsert_tab,
  active_tab,
}
use zszc_sql_client.Tabs.Laws.{ids, IsValid, KeepsId, patch_tab-IsValid, remove_tab-IsValid}
use zszc_sql_client.Tabs.Opening.{upsert_tab-IsValid, replace_tab-IsValid}

pub data TabsStep (s : TabsState) : TabsState → Type 0 where
  patches :
      (id : String) (updater : WorkspaceTab → WorkspaceTab)
      → KeepsId updater
      → TabsStep s (sync_tabs_ref (patch_tab id updater s))
  removes : (id : String) → TabsStep s (sync_tabs_ref (remove_tab id s))
  replaces :
      (id : String) (next : WorkspaceTab)
      → includes (ids s.tabs) id ≡ true
      → TabsStep s (sync_tabs_ref (replace_tab id next s))
  upserts : (next : WorkspaceTab) → TabsStep s (sync_tabs_ref (upsert_tab next s))

pub data TabsReach : TabsState → Type 0 where
  start : TabsReach initial
  next_step : {s t : TabsState} → TabsReach s → TabsStep s t → TabsReach t

-- What holds between renders.
pub record IsSynced (s : TabsState) : Type 0 where
  pub valid : IsValid s
  pub same : sync_tabs_ref s ≡ s

sync-IsSynced : (s : TabsState) → IsValid s → IsSynced (sync_tabs_ref s)
unfolding sync_tabs_ref
sync-IsSynced s v = record {
  valid = record { distinct = v.distinct; active = v.active };
  same = refl;
}

step-IsSynced : {s t : TabsState} → TabsStep s t → IsSynced s → IsSynced t
step-IsSynced {s} (patches id updater keep) h =
    sync-IsSynced _ (patch_tab-IsValid id updater s keep h.valid)
step-IsSynced {s} (removes id) h = sync-IsSynced _ (rw h.same at (remove_tab-IsValid id s h.valid))
step-IsSynced {s} (replaces id next present) h =
    sync-IsSynced _ (replace_tab-IsValid id next s present h.valid)
step-IsSynced {s} (upserts next) h = sync-IsSynced _ (upsert_tab-IsValid next s h.valid)

initial-IsSynced : IsSynced initial
unfolding initial sync_tabs_ref
initial-IsSynced = record { valid = record { distinct = tt; active = inl refl }; same = refl }

pub reach-IsSynced : {s : TabsState} → TabsReach s → IsSynced s
reach-IsSynced start = initial-IsSynced
reach-IsSynced (next_step r st) = step-IsSynced st (reach-IsSynced r)

find_of_includes :
    (id : String) (tabs : List WorkspaceTab)
    → includes (ids tabs) id ≡ true
    → find (is_tab id) tabs ≢ none
find_of_includes id [] h = ground arith
find_of_includes id (tab ∷ tabs) h = ground (arith, find_of_includes id tabs)

-- In every state reached by opening, patching, closing and replacing tabs (where a patch keeps the
-- id, a replaced tab is open, and a render follows each operation), a tab is active unless the
-- active id is empty.
pub reach-active_tab : {s : TabsState} → TabsReach s → s.active_tab_id ≢ "" → active_tab s ≢ none
unfolding active_tab
reach-active_tab {s} r h = elim (reach-IsSynced r).valid.active [
  | inl e ↦ absurd (h e)
  | inr e ↦ find_of_includes s.active_tab_id s.tabs e
]

-- In every such state the ids of the tabs are distinct and the active id is empty or names a tab.
pub reach-IsValid : {s : TabsState} → TabsReach s → IsValid s
reach-IsValid r = (reach-IsSynced r).valid
