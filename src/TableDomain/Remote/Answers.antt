-- ===== src/TableDomain/Remote/Answers.antt =====
-- What an answer leaves of the tab that it comes to.
use zszc_sql_client.Base.{
  ℕ, ◌+◌, String, ◌≡◌, ◌∙◌, refl, ap, false, none, List, [], ◌∷◌, map, any, All, arith, Bool-cases,
  inl, inr,
}
use zszc_sql_client.Base.Dict.{IsDict}
use zszc_sql_client.Types.Cells.{TableDataRow}
use zszc_sql_client.Types.Remote.{TableDataPage}
use zszc_sql_client.Types.Tabs.{
  DataTab, WorkspaceTab, profile_tab, design_tab, data_tab, console_tab, group_assignment_tab,
}
use zszc_sql_client.Grid.{
  is_pending_row, has_pending_data_mutations, build_data_mutation_payload, inserted_rows,
  updated_rows, deleted_rows, create_grid_row,
}
use zszc_sql_client.Tabs.{TabsState, is_tab, patch_one, patch_tab}
use zszc_sql_client.TableDomain.{on_data}
use zszc_sql_client.TableDomain.Rows.Tracked.{IsTracked, create_grid_row-IsTracked}
use zszc_sql_client.TableDomain.Remote.{
  data_page, page_loaded, grid_rows, begin_data, show_page, begin, finish, begin_request,
  finish_request,
}

-- An update of a data tab that is lost when another follows.
abbrev IsLost : (DataTab → DataTab) → (DataTab → DataTab) → Type 0
IsLost f g = (t : DataTab) → ((g t).id ≡ t.id) × (f (g t) ≡ f t)

patch_one-lost :
    (f g : DataTab → DataTab) (id : String)
    → IsLost f g
    → (tab : WorkspaceTab)
    → patch_one id (on_data f) (patch_one id (on_data g) tab) ≡ patch_one id (on_data f) tab
patch_one-lost f g id h (data_tab t) = elim (Bool-cases (is_tab id (data_tab t))) [
  | inl here ↦ simp (here, (h t).0, (h t).1)
  | inr other ↦ rw (other, other)
]
patch_one-lost f g id h (design_tab t) = ground arith
patch_one-lost f g id h (console_tab t) = ground arith
patch_one-lost f g id h (profile_tab t) = ground arith
patch_one-lost f g id h (group_assignment_tab t) = ground arith

map-patch_one-lost :
    (f g : DataTab → DataTab) (id : String)
    → IsLost f g
    → (tabs : List WorkspaceTab)
    → map (patch_one id (on_data f)) (map (patch_one id (on_data g)) tabs)
      ≡ map (patch_one id (on_data f)) tabs
map-patch_one-lost f g id h [] = refl
map-patch_one-lost f g id h (tab ∷ tabs) =
    simp (patch_one-lost f g id h tab, map-patch_one-lost f g id h tabs)

patch_tab-lost :
    (f g : DataTab → DataTab) (id : String) (s : TabsState)
    → IsLost f g
    → patch_tab id (on_data f) (patch_tab id (on_data g) s) ≡ patch_tab id (on_data f) s
unfolding patch_tab
patch_tab-lost f g id s h =
    ap (λ tabs. record s { tabs = tabs }) (map-patch_one-lost f g id h s.tabs)

begin-IsLost :
    (w o : String) (ids : ℕ → String) (page : TableDataPage)
    → IsLost (show_page w o ids page) begin_data
unfolding show_page begin_data
begin-IsLost w o ids page t = (refl, refl)

page-IsLost :
    (w o w' o' : String) (ids ids' : ℕ → String) (page page' : TableDataPage)
    → IsLost (show_page w o ids page) (show_page w' o' ids' page')
unfolding show_page
page-IsLost w o w' o' ids ids' page page' t = (refl, refl)

-- Two pages are asked for, and the answer to the first request comes last: the tab shows that page, as if
-- the second had never been asked for, whatever the two requests and answers are.
pub late_page_shows :
    (id w o w' o' : String) (ids ids' : ℕ → String) (page page' : TableDataPage) (s : TabsState)
    → let asked = begin_request data_page id (begin_request data_page id s) in
      let second = finish_request (page_loaded w' o' ids' page') id asked in
      finish_request (page_loaded w o ids page) id second
      ≡ finish_request (page_loaded w o ids page) id s
unfolding finish_request begin_request begin finish
late_page_shows id w o w' o' ids ids' page page' s =
    patch_tab-lost (show_page w o ids page) (show_page w' o' ids' page') id _
      (page-IsLost w o w' o' ids ids' page page')
    ∙ patch_tab-lost (show_page w o ids page) begin_data id _ (begin-IsLost w o ids page)
    ∙ patch_tab-lost (show_page w o ids page) begin_data id s (begin-IsLost w o ids page)

fresh-not-pending :
    (ids : ℕ → String) (index : ℕ) (rows : List TableDataRow)
    → any is_pending_row (grid_rows ids index rows) ≡ false
unfolding grid_rows is_pending_row create_grid_row
fresh-not-pending ids index [] = refl
fresh-not-pending ids index (row ∷ rows) = ground (arith, fresh-not-pending ids (index + 1) rows)

fresh-inserted :
    (ids : ℕ → String) (index : ℕ) (rows : List TableDataRow)
    → inserted_rows (grid_rows ids index rows) ≡ []
unfolding grid_rows inserted_rows create_grid_row
fresh-inserted ids index [] = refl
fresh-inserted ids index (row ∷ rows) = ground (arith, fresh-inserted ids (index + 1) rows)

fresh-updated :
    (ids : ℕ → String) (index : ℕ) (rows : List TableDataRow)
    → updated_rows (grid_rows ids index rows) ≡ []
unfolding grid_rows updated_rows create_grid_row
fresh-updated ids index [] = refl
fresh-updated ids index (row ∷ rows) = ground (arith, fresh-updated ids (index + 1) rows)

fresh-deleted :
    (ids : ℕ → String) (index : ℕ) (rows : List TableDataRow)
    → deleted_rows (grid_rows ids index rows) ≡ []
unfolding grid_rows deleted_rows create_grid_row
fresh-deleted ids index [] = refl
fresh-deleted ids index (row ∷ rows) = ground (arith, fresh-deleted ids (index + 1) rows)

fresh-IsTracked :
    (ids : ℕ → String) (index : ℕ) (rows : List TableDataRow)
    → All (λ row. IsDict row.values) rows
    → All IsTracked (grid_rows ids index rows)
unfolding grid_rows
fresh-IsTracked ids index [] h = tt
fresh-IsTracked ids index (row ∷ rows) h =
    (create_grid_row-IsTracked (ids index) row h.0, fresh-IsTracked ids (index + 1) rows h.1)

-- A page that has been loaded is a fresh start, whatever the tab held: nothing is pending, there is nothing
-- to submit, and every row is tracked, if each of its rows has every column once.
pub loaded_page_is_fresh :
    (w o : String) (ids : ℕ → String) (page : TableDataPage) (tab : DataTab)
    → All (λ row. IsDict row.values) page.rows
    → (has_pending_data_mutations (show_page w o ids page tab) ≡ false)
      × (build_data_mutation_payload (show_page w o ids page tab) ≡ none)
      × All IsTracked (show_page w o ids page tab).grid.rows
unfolding show_page has_pending_data_mutations build_data_mutation_payload
loaded_page_is_fresh w o ids page tab h = (
  fresh-not-pending ids 0 page.rows,
  rw (fresh-inserted ids 0 page.rows, fresh-updated ids 0 page.rows, fresh-deleted ids 0 page.rows),
  fresh-IsTracked ids 0 page.rows h,
)
