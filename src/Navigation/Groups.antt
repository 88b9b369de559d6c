-- ===== src/Navigation/Groups.antt =====
-- `buildDataSourceTreeGroups`: the groups, each with its profiles, and the groups that have only profiles.
use zszc_sql_client.Base.{
  String, none, some, List, [], ◌∷◌, ◌++◌, map, or_else, ◌==◌, if◌then◌else◌,
}
use zszc_sql_client.Base.Dict.{Dict, lookup}
use zszc_sql_client.Types.Remote.{ConnectionProfile, DataSourceGroup}
use zszc_sql_client.Navigation.{
  Sign, DataSourceTreeGroup, sort_by, normalize_group_name, key_of_group, compare_group_name,
  sort_data_source_groups,
}

abbrev pub ProfilesByGroup : Type 0
ProfilesByGroup = Dict (List ConnectionProfile)

-- `has`, `set` and `get(…).push` of one profile.
unfoldable pub push_profile : String → ConnectionProfile → ProfilesByGroup → ProfilesByGroup
push_profile name profile [] = (name, profile ∷ []) ∷ []
push_profile name profile ((k, profiles) ∷ entries) =
    let later = (k, profiles) ∷ push_profile name profile entries in
    if k == name then (k, profiles ++ profile ∷ []) ∷ entries else later

-- `delete`, of a key that stands once.
unfoldable pub delete_group : String → ProfilesByGroup → ProfilesByGroup
delete_group name [] = []
delete_group name ((k, profiles) ∷ entries) =
    let later = (k, profiles) ∷ delete_group name entries in if k == name then entries else later

module _ (trim : String → String) where
  unfoldable pub profiles_by_group : List ConnectionProfile → ProfilesByGroup → ProfilesByGroup
  unfolding push_profile normalize_group_name
  profiles_by_group [] entries = entries
  profiles_by_group (profile ∷ profiles) entries =
      profiles_by_group profiles
        (push_profile (normalize_group_name trim profile.group_name) profile entries)

  -- The first part of the tree, and the entries that remain.
  unfoldable pub tree_groups :
      List DataSourceGroup → ProfilesByGroup → List DataSourceTreeGroup × ProfilesByGroup
  unfolding delete_group normalize_group_name lookup
  tree_groups [] entries = ([], entries)
  tree_groups (group ∷ groups) entries =
      let name = normalize_group_name trim (some group.group_name) in
      let later = tree_groups groups (delete_group name entries) in
      (
        record {
          key = key_of_group name;
          group_id = some group.id;
          group_name = group.group_name;
          profiles = or_else (lookup name entries) [];
        }
            ∷ later.0,
        later.1,
      )

abbrev pub leftover_group : String × List ConnectionProfile → DataSourceTreeGroup
leftover_group (name, profiles) = record {
  key = key_of_group name;
  group_id = none;
  group_name = name;
  profiles = profiles;
}

unfoldable pub build_data_source_tree_groups :
    (String → String)
    → (String → String → Sign)
    → List DataSourceGroup
    → List ConnectionProfile
    → List DataSourceTreeGroup
unfolding profiles_by_group tree_groups sort_data_source_groups sort_by compare_group_name
build_data_source_tree_groups trim locale_compare groups profiles =
    let tree =
      tree_groups trim (sort_data_source_groups locale_compare groups)
        (profiles_by_group trim profiles []) in
    tree.0 ++ map leftover_group (sort_by (λ a b. compare_group_name locale_compare a.0 b.0) tree.1)
