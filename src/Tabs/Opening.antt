-- ===== src/Tabs/Opening.antt =====
-- Opening tabs: `upsertTab` and `replaceTab`.
use zszc_sql_client.Base.{
  String, ◌≡◌, ◌∙◌, ◌≢◌, refl, inr, none, true, false, not, ◌||◌, some, List, [], ◌∷◌, ◌++◌, map,
  filter, find, any, ◌==◌, eq_iff, eq_refl, arith, includes, Distinct, Bool-cases, inl,
}
use zszc_sql_client.Types.Tabs.{WorkspaceTab, tab_id}
use zszc_sql_client.Tabs.{TabsState, is_tab, patch_one, replace_tab, upsert_tab, active_tab}
use zszc_sql_client.Tabs.Laws.{ids, IsValid}

any-is_tab :
    (id : String) (tabs : List WorkspaceTab) → any (is_tab id) tabs ≡ includes (ids tabs) id
any-is_tab id [] = refl
any-is_tab id (tab ∷ tabs) = ground (arith, any-is_tab id tabs)

ids-put :
    (next : WorkspaceTab) (tabs : List WorkspaceTab)
    → ids (map (patch_one (tab_id next) (λ _. next)) tabs) ≡ ids tabs
ids-put next [] = refl
ids-put next (tab ∷ tabs) = ground (arith, ids-put next tabs, eq_iff (tab_id tab) (tab_id next))

includes-concat :
    (next : WorkspaceTab) (id : String) (tabs : List WorkspaceTab)
    → includes (ids (tabs ++ next ∷ [])) id ≡ (includes (ids tabs) id || tab_id next == id)
includes-concat next id [] = ground arith
includes-concat next id (tab ∷ tabs) = ground (arith, includes-concat next id tabs)

Distinct-concat :
    (next : WorkspaceTab) (tabs : List WorkspaceTab)
    → Distinct (ids tabs)
    → includes (ids tabs) (tab_id next) ≡ false
    → Distinct (ids (tabs ++ next ∷ []))
Distinct-concat next [] d h = (refl, tt)
Distinct-concat next (tab ∷ tabs) d h = ground (
  arith,
  Distinct-concat next tabs d.1,
  includes-concat next (tab_id tab) tabs,
  eq_iff (tab_id tab) (tab_id next),
  eq_iff (tab_id next) (tab_id tab),
)

-- Opening a tab, new or known, keeps the state valid.
pub upsert_tab-IsValid :
    (next : WorkspaceTab) (s : TabsState) → IsValid s → IsValid (upsert_tab next s)
unfolding upsert_tab
upsert_tab-IsValid next s v = elim (Bool-cases (any (is_tab (tab_id next)) s.tabs)) [
  | inl known ↦ rw known (record {
    distinct = rw (ids-put next s.tabs) v.distinct;
    active = inr (ground (arith, ids-put next s.tabs, any-is_tab (tab_id next) s.tabs));
  })
  | inr fresh ↦ rw fresh (record {
    distinct =
        Distinct-concat next s.tabs v.distinct (ground (arith, any-is_tab (tab_id next) s.tabs));
    active = inr (ground (arith, includes-concat next (tab_id next) s.tabs, eq_refl (tab_id next)));
  })
]

find-put :
    (next : WorkspaceTab) (tabs : List WorkspaceTab)
    → any (is_tab (tab_id next)) tabs ≡ true
    → find (is_tab (tab_id next)) (map (patch_one (tab_id next) (λ _. next)) tabs) ≡ some next
find-put next [] h = ground arith
find-put next (tab ∷ tabs) h =
    ground (arith, find-put next tabs, eq_refl (tab_id next), eq_iff (tab_id tab) (tab_id next))

find-concat :
    (next : WorkspaceTab) (tabs : List WorkspaceTab)
    → any (is_tab (tab_id next)) tabs ≡ false
    → find (is_tab (tab_id next)) (tabs ++ next ∷ []) ≡ some next
find-concat next [] h = ground (arith, eq_refl (tab_id next))
find-concat next (tab ∷ tabs) h = ground (arith, find-concat next tabs)

-- Whether or not its id was open before, the tab that is opened is the active one.
pub active_tab-upsert :
    (next : WorkspaceTab) (s : TabsState) → active_tab (upsert_tab next s) ≡ some next
unfolding upsert_tab active_tab
active_tab-upsert next s = ground (arith, find-put next s.tabs, find-concat next s.tabs)

-- The list that `replaceTab` makes.
abbrev replaced : String → WorkspaceTab → List WorkspaceTab → List WorkspaceTab
replaced id next tabs =
    map (patch_one id (λ _. next))
      (filter (λ tab. not (is_tab (tab_id next) tab) || is_tab id tab) tabs)

includes-replaced_other :
    (id other : String) (next : WorkspaceTab) (tabs : List WorkspaceTab)
    → tab_id next ≢ other
    → includes (ids tabs) other ≡ false
    → includes (ids (replaced id next tabs)) other ≡ false
includes-replaced_other id other next [] ne h = refl
includes-replaced_other id other next (tab ∷ tabs) ne h =
    ground (arith, includes-replaced_other id other next tabs ne, eq_iff (tab_id next) other)

includes-replaced_next :
    (id : String) (next : WorkspaceTab) (tabs : List WorkspaceTab)
    → includes (ids (replaced id next tabs)) (tab_id next) ≡ includes (ids tabs) id
includes-replaced_next id next [] = refl
includes-replaced_next id next (tab ∷ tabs) = ground (
  arith,
  includes-replaced_next id next tabs,
  eq_iff (tab_id tab) (tab_id next),
  eq_iff (tab_id tab) id,
  eq_refl (tab_id next),
)

replaced-Distinct :
    (id : String) (next : WorkspaceTab) (tabs : List WorkspaceTab)
    → Distinct (ids tabs)
    → Distinct (ids (replaced id next tabs))
replaced-Distinct id next [] d = tt
replaced-Distinct id next (tab ∷ tabs) d = ground (
  arith,
  replaced-Distinct id next tabs d.1,
  includes-replaced_next id next tabs,
  includes-replaced_other id (tab_id tab) next tabs,
  eq_iff (tab_id tab) id,
  eq_iff (tab_id tab) (tab_id next),
)

-- Replacing a tab that is open keeps the state valid, also where the new id was open elsewhere.
pub replace_tab-IsValid :
    (id : String) (next : WorkspaceTab) (s : TabsState)
    → includes (ids s.tabs) id ≡ true
    → IsValid s
    → IsValid (replace_tab id next s)
unfolding replace_tab
replace_tab-IsValid id next s present v = record {
  distinct = replaced-Distinct id next s.tabs v.distinct;
  active = inr (includes-replaced_next id next s.tabs ∙ present);
}

find-absent :
    (id : String) (tabs : List WorkspaceTab)
    → includes (ids tabs) id ≡ false
    → find (is_tab id) tabs ≡ none
find-absent id [] h = refl
find-absent id (tab ∷ tabs) h = ground (arith, find-absent id tabs)

-- Replacing a tab that is not open, by a tab with any id, leaves no active tab.
pub active_tab-replace_absent :
    (id : String) (next : WorkspaceTab) (s : TabsState)
    → includes (ids s.tabs) id ≡ false
    → active_tab (replace_tab id next s) ≡ none
unfolding replace_tab active_tab
active_tab-replace_absent id next s absent =
    find-absent (tab_id next) (replaced id next s.tabs)
      (includes-replaced_next id next s.tabs ∙ absent)
