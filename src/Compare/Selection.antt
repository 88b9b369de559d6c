-- ===== src/Compare/Selection.antt =====
-- The numbers that the selection shows for one kind of difference of one table.
use zszc_sql_client.Base.{
  ℕ, suc, ◌+◌, ◌-◌, ◌≤◌, ◌<◌, String, ◌≡◌, ◌∙◌, ◌↔◌, refl, Bool, true, false, not, List, [], ◌∷◌,
  filter, includes, length, Distinct, All, arith, eq_iff, ◌==◌, if◌then◌else◌,
}
use zszc_sql_client.Compare.{
  TableCompareResult, SelectionByTable, CompareDetailType, ActionStats, action_enabled,
  selection_of, build_data_compare_result_table_key, get_data_compare_action_total_count,
  get_data_compare_excluded_signatures, get_data_compare_action_selection_stats,
  is_data_compare_detail_selected,
}

-- The parts of the numbers that the checkbox relies on: it is checked exactly when there is a
-- difference and all are selected, and indeterminate exactly when some are selected and not all.
pub record IsConsistent (stats : ActionStats) : Type 0 where
  pub bounded : stats.selected ≤ stats.total
  pub all_selected : (stats.checked ≡ true) ↔ ((0 < stats.total) × (stats.selected ≡ stats.total))
  pub some_selected :
      (stats.indeterminate ≡ true) ↔ ((0 < stats.selected) × (stats.selected < stats.total))

-- How many of the signatures the list of exclusions names.
count_if : (String → Bool) → List String → ℕ
count_if p [] = 0
count_if p (x ∷ xs) = let rest = count_if p xs in if p x then suc rest else rest

count_absent :
    (xs : List String) (e : String) → includes xs e ≡ false → count_if (λ s. e == s) xs ≡ 0
unfolding count_if
count_absent [] e h = refl
count_absent (x ∷ xs) e h = ground (arith, count_absent xs e, eq_iff e x, eq_iff x e)

count_present :
    (xs : List String) (e : String)
    → Distinct xs
    → includes xs e ≡ true
    → count_if (λ s. e == s) xs ≡ 1
unfolding count_if
count_present [] e d h = ground arith
count_present (x ∷ xs) e d h =
    ground (arith, count_present xs e d.1, count_absent xs e, eq_iff e x, eq_iff x e)

count_or :
    (xs : List String) (e : String) (es : List String)
    → includes es e ≡ false
    → count_if (includes (e ∷ es)) xs ≡ count_if (λ s. e == s) xs + count_if (includes es) xs
unfolding count_if
count_or [] e es h = refl
count_or (x ∷ xs) e es h = ground (arith, count_or xs e es h, eq_iff e x)

count_none : (xs : List String) → count_if (includes []) xs ≡ 0
unfolding count_if
count_none [] = refl
count_none (x ∷ xs) = count_none xs

-- Exclusions that are distinct and stand among distinct signatures are counted once each.
count_excluded :
    (xs excluded : List String)
    → Distinct xs
    → Distinct excluded
    → All (λ e. includes xs e ≡ true) excluded
    → count_if (includes excluded) xs ≡ length excluded
count_excluded xs [] d k h = count_none xs
count_excluded xs (e ∷ es) d k h =
    omega (arith, count_or xs e es k.0, count_present xs e d h.0, count_excluded xs es d k.1 h.1)

length-kept :
    (p : String → Bool) (xs : List String)
    → length (filter (λ s. not (p s)) xs) + count_if p xs ≡ length xs
unfolding count_if
length-kept p [] = refl
length-kept p (x ∷ xs) = ground (arith, length-kept p xs)

filter_nothing : (xs : List String) → 0 ≡ length (filter (λ s. false) xs)
filter_nothing [] = refl
filter_nothing (x ∷ xs) = filter_nothing xs

kept_if_enabled :
    (enabled : Bool) (excluded xs : List String)
    → Distinct xs
    → Distinct excluded
    → All (λ e. includes xs e ≡ true) excluded
    → (if not enabled then 0 else length xs - length excluded)
      ≡ length (filter (λ s. if not enabled then false else not (includes excluded s)) xs)
kept_if_enabled true excluded xs d k h =
    omega (arith, length-kept (includes excluded) xs, count_excluded xs excluded d k h)
kept_if_enabled false excluded xs d k h = filter_nothing xs

stats-selected :
    (item : TableCompareResult) (selection : SelectionByTable) (detail_type : CompareDetailType)
    → (get_data_compare_action_selection_stats item selection detail_type).selected ≡ (
        if not (
          action_enabled
            (selection_of selection (build_data_compare_result_table_key item))
            detail_type)
        then 0
        else get_data_compare_action_total_count item detail_type
          - length (
              get_data_compare_excluded_signatures selection
                (build_data_compare_result_table_key item)
                detail_type))
unfolding get_data_compare_action_selection_stats
stats-selected item selection detail_type = ground arith

-- The number shown as selected is the number of differences that are selected one by one: for the
-- distinct signatures of all differences of a kind, as many as the result counts, where the
-- exclusions are distinct and are among them.
pub selected-eq-length_filter :
    (item : TableCompareResult) (selection : SelectionByTable) (detail_type : CompareDetailType)
    (signatures : List String)
    → Distinct signatures
    → length signatures ≡ get_data_compare_action_total_count item detail_type
    → Distinct (
        get_data_compare_excluded_signatures selection
          (build_data_compare_result_table_key item)
          detail_type)
    → All
        (λ e. includes signatures e ≡ true)
        (get_data_compare_excluded_signatures selection
          (build_data_compare_result_table_key item)
          detail_type)
    → (get_data_compare_action_selection_stats item selection detail_type).selected
      ≡ length (filter (is_data_compare_detail_selected item selection detail_type) signatures)
unfolding is_data_compare_detail_selected
selected-eq-length_filter item selection detail_type signatures d n k h =
    let key = build_data_compare_result_table_key item in
    stats-selected item selection detail_type
    ∙ rw (← n) (
        kept_if_enabled (action_enabled (selection_of selection key) detail_type)
          (get_data_compare_excluded_signatures selection key detail_type) signatures d k h)
