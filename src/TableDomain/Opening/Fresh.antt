-- ===== src/TableDomain/Opening/Fresh.antt =====
-- What is shown when a table is opened, also where it is open already.
use zszc_sql_client.Base.{
  String, ◌≡◌, ◌∙◌, refl, ap, none, some, false, List, [], ◌∷◌, map, find, arith,
}
use zszc_sql_client.Types.Remote.{ConnectionProfile}
use zszc_sql_client.Types.Tabs.{
  WorkspaceTab, data_tab, design_tab, console_tab, profile_tab, group_assignment_tab, tab_id,
}
use zszc_sql_client.Tabs.{TabsState, is_tab, patch_one, patch_tab, upsert_tab, active_tab}
use zszc_sql_client.Tabs.Opening.{active_tab-upsert}
use zszc_sql_client.Grid.{
  has_pending_data_mutations, build_data_mutation_payload, inserted_rows, updated_rows,
  deleted_rows,
}
use zszc_sql_client.Tabs.Laws.{KeepsId}
use zszc_sql_client.TableDomain.Opening.{loading_data_tab, open_data_tab}
use zszc_sql_client.TableDomain.Remote.{data_page, begin_request, begin, begin_data}

find-patch_one :
    (id : String) (g : WorkspaceTab → WorkspaceTab) (tabs : List WorkspaceTab) (tab : WorkspaceTab)
    → ((t : WorkspaceTab) → tab_id (g t) ≡ tab_id t)
    → find (is_tab id) tabs ≡ some tab
    → find (is_tab id) (map (patch_one id g) tabs) ≡ some (g tab)
find-patch_one id g [] tab k h = ground arith
find-patch_one id g (t ∷ tabs) tab k h = ground (arith, find-patch_one id g tabs tab k, k t)

pub active_tab-patch :
    (g : WorkspaceTab → WorkspaceTab) (s : TabsState) (tab : WorkspaceTab)
    → ((t : WorkspaceTab) → tab_id (g t) ≡ tab_id t)
    → active_tab s ≡ some tab
    → active_tab (patch_tab s.active_tab_id g s) ≡ some (g tab)
unfolding active_tab patch_tab
active_tab-patch g s tab k h = find-patch_one s.active_tab_id g s.tabs tab k h

begin-loading_data_tab :
    (profiles : List ConnectionProfile) (p d t : String)
    → begin data_page (data_tab (loading_data_tab profiles p d t))
      ≡ data_tab (loading_data_tab profiles p d t)
unfolding begin begin_data loading_data_tab
begin-loading_data_tab profiles p d t = refl

begin_data-KeepsId : KeepsId (begin data_page)
unfolding begin begin_data
begin_data-KeepsId (data_tab t) = refl
begin_data-KeepsId (design_tab t) = refl
begin_data-KeepsId (console_tab t) = refl
begin_data-KeepsId (profile_tab t) = refl
begin_data-KeepsId (group_assignment_tab t) = refl

active_tab-open :
    (profiles : List ConnectionProfile) (p d t : String) (s : TabsState)
    → active_tab (open_data_tab profiles p d t s)
      ≡ some (data_tab (loading_data_tab profiles p d t))
unfolding open_data_tab begin_request upsert_tab
active_tab-open profiles p d t s =
    let tab = data_tab (loading_data_tab profiles p d t) in
    active_tab-patch (begin data_page) (upsert_tab tab s) tab begin_data-KeepsId
      (active_tab-upsert tab s)
    ∙ ap some (begin-loading_data_tab profiles p d t)

-- Opening a table shows an empty tab that is loading and has nothing to submit, also where the table
-- is open already and its tab has edits that are not submitted.
pub open_data_tab_is_fresh :
    (profiles : List ConnectionProfile) (p d t : String) (s : TabsState)
    → (active_tab (open_data_tab profiles p d t s)
        ≡ some (data_tab (loading_data_tab profiles p d t)))
      × (has_pending_data_mutations (loading_data_tab profiles p d t) ≡ false)
      × (build_data_mutation_payload (loading_data_tab profiles p d t) ≡ none)
unfolding has_pending_data_mutations build_data_mutation_payload loading_data_tab inserted_rows
    updated_rows deleted_rows
open_data_tab_is_fresh profiles p d t s = (active_tab-open profiles p d t s, refl, refl)
