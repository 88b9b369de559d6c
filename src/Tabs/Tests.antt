-- ===== src/Tabs/Tests.antt =====
-- Two open tabs, and what the operations make of them.
use zszc_sql_client.Base.{
  if◌then◌else◌, ◌==◌, ◌≡◌, ◌≢◌, refl, String, true, false, none, [], ◌∷◌, arith, eq_iff, inr,
  includes,
}
use zszc_sql_client.Types.Tabs.{WorkspaceTab, group_assignment_tab, TabStatus}
use zszc_sql_client.Tabs.{
  TabsState, initial, sync_tabs_ref, remove_tab, replace_tab, upsert_tab, active_tab,
}
use zszc_sql_client.Tabs.Laws.{ids, IsValid}
use zszc_sql_client.Tabs.Opening.{replace_tab-IsValid}
use zszc_sql_client.Tabs.Reach.{TabsReach, TabsStep, reach-active_tab}
use zszc_sql_client.Tabs.Stale.{includes-remove_tab, remove_tab_twice_unsynced}

abbrev tab_of : String → WorkspaceTab
tab_of id = group_assignment_tab (record {
  id = id;
  title = id;
  subtitle = "";
  status = TabStatus.ready;
  error = "";
  assignment = record {
    target_group_id = "";
    filter_text = "";
    selected_profile_ids = [];
    submitting = false;
  };
})

abbrev two_tabs : TabsState
two_tabs = record {
  tabs = tab_of "a" ∷ tab_of "b" ∷ [];
  active_tab_id = "b";
  tabs_ref = tab_of "a" ∷ tab_of "b" ∷ [];
}

two_tabs-IsValid : IsValid two_tabs
two_tabs-IsValid = record { distinct = (refl, (refl, tt)); active = inr refl }

-- Closing the active tab shows the last one of the others.
close_active : (remove_tab "b" two_tabs).active_tab_id ≡ "a"
unfolding remove_tab
close_active = refl

includes-remove_tab_example :
    includes (ids (remove_tab "a" (sync_tabs_ref two_tabs)).tabs) "b"
    ≡ (if "a" == "b" then false else includes (ids two_tabs.tabs) "b")
includes-remove_tab_example = includes-remove_tab "a" "b" two_tabs

replace_tab-IsValid_example : IsValid (replace_tab "a" (tab_of "b") two_tabs)
replace_tab-IsValid_example = replace_tab-IsValid "a" (tab_of "b") two_tabs refl two_tabs-IsValid

remove_tab_twice_unsynced_example :
    includes (ids (remove_tab "a" (remove_tab "b" two_tabs)).tabs) "b" ≡ true
remove_tab_twice_unsynced_example =
    remove_tab_twice_unsynced "b" "a" two_tabs (λ e. ground (arith, eq_iff "b" "a")) refl

-- Two tabs are opened and the first is closed.
abbrev two_opened : TabsState
two_opened = sync_tabs_ref (
    remove_tab "a"
      (sync_tabs_ref (upsert_tab (tab_of "b") (sync_tabs_ref (upsert_tab (tab_of "a") initial)))))

two_opened-TabsReach : TabsReach two_opened
two_opened-TabsReach =
    TabsReach.next_step
      (TabsReach.next_step (TabsReach.next_step TabsReach.start (TabsStep.upserts (tab_of "a")))
        (TabsStep.upserts (tab_of "b")))
      (TabsStep.removes "a")

two_opened-active : two_opened.active_tab_id ≢ ""
unfolding initial sync_tabs_ref upsert_tab remove_tab
two_opened-active e = ground (arith, eq_iff "b" "")

reach-active_tab_example : active_tab two_opened ≢ none
reach-active_tab_example = reach-active_tab two_opened-TabsReach two_opened-active
