-- ===== src/Tabs/Laws.antt =====
-- What a valid state of the tabs is, and `patchTab` and `removeTab` on it.
use zszc_sql_client.Base.{
  String, ◌≡◌, ◌≢◌, refl, ◌⊎◌, inl, Bool, true, false, not, List, [], ◌∷◌, map, filter, last,
  eq_iff, eq_refl, arith, includes, Distinct, if◌then◌else◌,
}
use zszc_sql_client.Types.Tabs.{WorkspaceTab, tab_id}
use zszc_sql_client.Tabs.{
  TabsState, sync_tabs_ref, is_tab, patch_one, patch_tab, last_id, without_tab, remove_tab,
}

abbrev pub ids : List WorkspaceTab → List String
ids = map tab_id

-- The ids are distinct, and the active id is empty or that of a tab.
pub record IsValid (s : TabsState) : Type 0 where
  pub distinct : Distinct (ids s.tabs)
  pub active : (s.active_tab_id ≡ "") ⊎ (includes (ids s.tabs) s.active_tab_id ≡ true)

-- What holds of a tab after an update that may concern it.
pub patch_one_cases {ℓ} :
    (P : WorkspaceTab → Type ℓ) (id : String) (g : WorkspaceTab → WorkspaceTab) (tab : WorkspaceTab)
    → P (g tab)
    → P tab
    → P (patch_one id g tab)
patch_one_cases P id g tab after before =
    elim (is_tab id tab) as (λ b. P (if b then g tab else tab)) [ true ↦ after | false ↦ before ]

-- An update that is given to `patchTab` leaves the id alone.
abbrev pub KeepsId : (WorkspaceTab → WorkspaceTab) → Type 0
KeepsId updater = (tab : WorkspaceTab) → tab_id (updater tab) ≡ tab_id tab

pub ids-patch :
    (id : String) (updater : WorkspaceTab → WorkspaceTab) (tabs : List WorkspaceTab)
    → KeepsId updater
    → ids (map (patch_one id updater) tabs) ≡ ids tabs
ids-patch id updater [] keep = refl
ids-patch id updater (tab ∷ tabs) keep = ground (arith, keep tab, ids-patch id updater tabs keep)

pub patch_tab-IsValid :
    (id : String) (updater : WorkspaceTab → WorkspaceTab) (s : TabsState)
    → KeepsId updater
    → IsValid s
    → IsValid (patch_tab id updater s)
unfolding patch_tab
patch_tab-IsValid id updater s keep v =
    let same = ids-patch id updater s.tabs keep in
    record { distinct = rw same v.distinct; active = rw same v.active }

pub includes-filter :
    (p : WorkspaceTab → Bool) (id : String) (tabs : List WorkspaceTab)
    → includes (ids tabs) id ≡ false
    → includes (ids (filter p tabs)) id ≡ false
includes-filter p id [] h = refl
includes-filter p id (tab ∷ tabs) h = ground (arith, includes-filter p id tabs)

pub filter-Distinct :
    (p : WorkspaceTab → Bool) (tabs : List WorkspaceTab)
    → Distinct (ids tabs)
    → Distinct (ids (filter p tabs))
filter-Distinct p [] h = tt
filter-Distinct p (tab ∷ tabs) h =
    ground (arith, filter-Distinct p tabs h.1, includes-filter p (tab_id tab) tabs h.0)

includes-last :
    (tabs : List WorkspaceTab)
    → (last_id (last tabs) ≡ "") ⊎ (includes (ids tabs) (last_id (last tabs)) ≡ true)
includes-last [] = inl refl
includes-last (tab ∷ []) = ground (arith, eq_refl (tab_id tab))
includes-last (tab ∷ next ∷ tabs) = ground (arith, includes-last (next ∷ tabs))

pub includes-without :
    (id other : String) (tabs : List WorkspaceTab)
    → id ≢ other
    → includes (ids (without_tab id tabs)) other ≡ includes (ids tabs) other
includes-without id other [] h = refl
includes-without id other (tab ∷ tabs) h =
    ground
      (arith, includes-without id other tabs h, eq_iff (tab_id tab) id, eq_iff (tab_id tab) other)

-- Once the ref holds the tabs, closing a tab keeps the state valid.
pub remove_tab-IsValid :
    (id : String) (s : TabsState) → IsValid s → IsValid (remove_tab id (sync_tabs_ref s))
unfolding remove_tab sync_tabs_ref
remove_tab-IsValid id s v = record {
  distinct = filter-Distinct (λ tab. not (is_tab id tab)) s.tabs v.distinct;
  active = ground (
    arith,
    includes-last (without_tab id s.tabs),
    eq_iff s.active_tab_id id,
    includes-without id s.active_tab_id s.tabs,
    v.active,
  );
}
