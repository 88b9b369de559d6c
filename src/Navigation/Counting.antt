-- ===== src/Navigation/Counting.antt =====
-- No profile is lost or doubled in the tree of data sources.
use zszc_sql_client.Base.{
  ℕ, ◌+◌, String, ◌≡◌, refl, Bool, some, List, [], ◌∷◌, ◌++◌, map, or_else, arith, ◌==◌,
  if◌then◌else◌, Bool-cases, inl, inr,
}
use zszc_sql_client.Base.Dict.{lookup}
use zszc_sql_client.Types.Remote.{ConnectionProfile, DataSourceGroup}
use zszc_sql_client.Navigation.{
  Sign, DataSourceTreeGroup, insert_by, sort_by, is_positive, normalize_group_name,
  compare_group_name, sort_data_source_groups,
}
use zszc_sql_client.Navigation.Groups.{
  ProfilesByGroup, push_profile, delete_group, profiles_by_group, tree_groups, leftover_group,
  build_data_source_tree_groups,
}

module _ (p : ConnectionProfile → Bool) where
  abbrev pub count : List ConnectionProfile → ℕ
  count [] = 0
  count (profile ∷ profiles) = (if p profile then 1 else 0) + count profiles

  abbrev pub count_in_tree : List DataSourceTreeGroup → ℕ
  count_in_tree [] = 0
  count_in_tree (group ∷ groups) = count group.profiles + count_in_tree groups

  abbrev count_entries : ProfilesByGroup → ℕ
  count_entries [] = 0
  count_entries ((k, profiles) ∷ entries) = count profiles + count_entries entries

  count-append : (xs ys : List ConnectionProfile) → count (xs ++ ys) ≡ count xs + count ys
  count-append [] ys = omega arith
  count-append (x ∷ xs) ys = omega (arith, count-append xs ys)

  count-push :
      (name : String) (profile : ConnectionProfile) (entries : ProfilesByGroup)
      → count_entries (push_profile name profile entries)
        ≡ (if p profile then 1 else 0) + count_entries entries
  unfolding push_profile
  count-push name profile [] = omega arith
  count-push name profile ((k, profiles) ∷ entries) = elim (Bool-cases (k == name)) [
    | inl same ↦ rw same (omega (arith, count-append profiles (profile ∷ [])))
    | inr other ↦ rw other (omega (arith, count-push name profile entries))
  ]

  count-profiles_by_group :
      (trim : String → String) (profiles : List ConnectionProfile) (entries : ProfilesByGroup)
      → count_entries (profiles_by_group trim profiles entries)
        ≡ count profiles + count_entries entries
  unfolding profiles_by_group
  count-profiles_by_group trim [] entries = omega arith
  count-profiles_by_group trim (profile ∷ profiles) entries =
      let name = normalize_group_name trim profile.group_name in
      omega (
        arith,
        count-profiles_by_group trim profiles (push_profile name profile entries),
        count-push name profile entries,
      )

  count-delete :
      (name : String) (entries : ProfilesByGroup)
      → count (or_else (lookup name entries) []) + count_entries (delete_group name entries)
        ≡ count_entries entries
  unfolding delete_group lookup
  count-delete name [] = omega arith
  count-delete name ((k, profiles) ∷ entries) = elim (Bool-cases (k == name)) [
    | inl same ↦ rw same (omega arith)
    | inr other ↦ rw other (omega (arith, count-delete name entries))
  ]

  count-tree_groups :
      (trim : String → String) (groups : List DataSourceGroup) (entries : ProfilesByGroup)
      → count_in_tree (tree_groups trim groups entries).0
          + count_entries (tree_groups trim groups entries).1
        ≡ count_entries entries
  unfolding tree_groups
  count-tree_groups trim [] entries = omega arith
  count-tree_groups trim (group ∷ groups) entries =
      let name = normalize_group_name trim (some group.group_name) in
      omega (
        arith,
        count-tree_groups trim groups (delete_group name entries),
        count-delete name entries,
      )

  count-in_tree_append :
      (xs ys : List DataSourceTreeGroup)
      → count_in_tree (xs ++ ys) ≡ count_in_tree xs + count_in_tree ys
  count-in_tree_append [] ys = omega arith
  count-in_tree_append (x ∷ xs) ys = omega (arith, count-in_tree_append xs ys)

  count-leftover :
      (entries : ProfilesByGroup)
      → count_in_tree (map leftover_group entries) ≡ count_entries entries
  count-leftover [] = refl
  count-leftover ((k, profiles) ∷ entries) = omega (arith, count-leftover entries)

  module _
      (compare : String × List ConnectionProfile → String × List ConnectionProfile → Sign) where
    count-insert_by :
        (entry : String × List ConnectionProfile) (entries : ProfilesByGroup)
        → count_entries (insert_by compare entry entries) ≡ count entry.1 + count_entries entries
    unfolding insert_by
    count-insert_by entry [] = omega arith
    count-insert_by entry (other ∷ entries) =
        elim (Bool-cases (is_positive (compare entry other))) [
          | inl after ↦ rw after (omega (arith, count-insert_by entry entries))
          | inr before ↦ rw before (omega arith)
        ]

    count-sort_by :
        (entries : ProfilesByGroup)
        → count_entries (sort_by compare entries) ≡ count_entries entries
    unfolding sort_by
    count-sort_by [] = refl
    count-sort_by (entry ∷ entries) =
        omega (arith, count-insert_by entry (sort_by compare entries), count-sort_by entries)

-- The tree has every profile just as often as the list has it, in whatever groups there are, also where
-- two groups have the same name or a profile names a group that does not exist: for every test of profiles,
-- as many pass in the tree as in the list.
pub count-build_data_source_tree_groups :
    (trim : String → String) (locale_compare : String → String → Sign)
    (groups : List DataSourceGroup) (profiles : List ConnectionProfile)
    (p : ConnectionProfile → Bool)
    → count_in_tree p (build_data_source_tree_groups trim locale_compare groups profiles)
      ≡ count p profiles
unfolding build_data_source_tree_groups
count-build_data_source_tree_groups trim locale_compare groups profiles p =
    let entries = profiles_by_group trim profiles [] in
    let sorted = sort_data_source_groups locale_compare groups in
    let tree = tree_groups trim sorted entries in
    let compare : String × List ConnectionProfile → String × List ConnectionProfile → Sign =
      λ a b. compare_group_name locale_compare a.0 b.0 in
    omega (
      arith,
      count-in_tree_append p tree.0 (map leftover_group (sort_by compare tree.1)),
      count-leftover p (sort_by compare tree.1),
      count-sort_by p compare tree.1,
      count-tree_groups p trim sorted entries,
      count-profiles_by_group p trim profiles [],
    )
