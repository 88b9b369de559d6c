-- ===== src/Navigation/Tests.antt =====
-- A group, two profiles, one of which has a loaded database.
use zszc_sql_client.Base.{
  ◌≡◌, refl, String, Bool, true, ◌&&◌, ◌||◌, Option, none, some, List, [], ◌∷◌, any, includes,
  is_some, ◌==◌,
}
use zszc_sql_client.Types.Remote.{ConnectionProfile, DataSourceGroup}
use zszc_sql_client.Navigation.{Sign, zero, positive, normalize_group_name, compare_profiles}
use zszc_sql_client.Navigation.Groups.{build_data_source_tree_groups}
use zszc_sql_client.Navigation.Counting.{count, count_in_tree, count-build_data_source_tree_groups}
use zszc_sql_client.Navigation.Search.{SearchOptions, databases_of, visible_profile}
use zszc_sql_client.Navigation.Search.Visible.{
  has_keyword, database_has_keyword, visible_profile-shown,
}
use zszc_sql_client.Navigation.Forms.{ungrouped_profiles_compare}

abbrev profile_of : String → Option String → ConnectionProfile
profile_of id group_name = record {
  id = id;
  group_name = group_name;
  data_source_name = id;
  host = "localhost";
  port = 3306;
  username = "root";
  password = "";
  created_at = "";
  updated_at = "";
}

abbrev group : DataSourceGroup
group = record { id = "g"; group_name = "dev"; created_at = ""; updated_at = "" }

abbrev profiles : List ConnectionProfile
profiles = profile_of "a" (some "dev") ∷ profile_of "b" none ∷ []

abbrev same : String → String
same s = s

abbrev level : String → String → Sign
level left right = zero

abbrev any_profile : ConnectionProfile → Bool
any_profile profile = true

count-build_data_source_tree_groups_example :
    count_in_tree any_profile (build_data_source_tree_groups same level (group ∷ []) profiles)
    ≡ count any_profile profiles
count-build_data_source_tree_groups_example =
    count-build_data_source_tree_groups same level (group ∷ []) profiles any_profile

abbrev options : SearchOptions
options = record {
  search_keyword = "users";
  connected_profile_ids = "a" ∷ [];
  databases_by_profile = ("a", record { name = "shop"; table_count = 1 } ∷ []) ∷ [];
  tables_by_database =
      ("a:shop", record { name = "users"; table_rows = none; column_count = none } ∷ []) ∷ [];
}

abbrev contains : String → String → Bool
contains value keyword = value == keyword

visible_profile-shown_example :
    is_some (visible_profile same contains options (profile_of "a" none)) ≡ (
      has_keyword same contains options "a"
      || includes ("a" ∷ []) "a"
        && any
            (database_has_keyword same contains options (profile_of "a" none))
            (databases_of same contains options (profile_of "a" none)))
visible_profile-shown_example =
    visible_profile-shown same contains options refl (profile_of "a" none)

ungrouped_profiles_compare_example :
    (compare_profiles level same (profile_of "a" none) (profile_of "b" none) ≡ positive)
    × (compare_profiles level same (profile_of "b" none) (profile_of "a" none) ≡ positive)
unfolding normalize_group_name
ungrouped_profiles_compare_example =
    ungrouped_profiles_compare same level (profile_of "a" none) (profile_of "b" none) refl refl
