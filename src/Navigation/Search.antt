-- ===== src/Navigation/Search.antt =====
-- `buildNavigationTreeGroups`: what of the tree is shown for a search keyword.
pub mod Visible
use zszc_sql_client.Base.{
  String, Bool, true, false, not, ◌&&◌, ◌||◌, Option, none, some, List, [], ◌∷◌, ◌++◌, map, filter,
  any, includes, or_else, ◌==◌, if◌then◌else◌,
}
use zszc_sql_client.Base.Dict.{Dict, lookup}
use zszc_sql_client.Types.Remote.{ConnectionProfile, DatabaseEntry, TableEntry}
use zszc_sql_client.Navigation.{DataSourceTreeGroup, build_database_key}

pub record NavigationTreeTable : Type 0 where
  pub entry : TableEntry

pub record NavigationTreeDatabase : Type 0 where
  pub entry : DatabaseEntry
  pub matched_by_name : Bool
  pub tables : List NavigationTreeTable

pub record NavigationTreeProfile : Type 0 where
  pub entry : ConnectionProfile
  pub matched_by_name : Bool
  pub databases : List NavigationTreeDatabase

pub record NavigationTreeGroup : Type 0 where
  pub key : String
  pub group_id : Option String
  pub group_name : String
  pub profiles : List NavigationTreeProfile

-- `options`; `connected_profile_ids` is the set, as a list.
pub record SearchOptions : Type 0 where
  pub search_keyword : String
  pub connected_profile_ids : List String
  pub databases_by_profile : Dict (List DatabaseEntry)
  pub tables_by_database : Dict (List TableEntry)

-- `.map(f).filter(item => item !== null)`
abbrev pub filter_map {ℓ κ} : {A : Type ℓ} {B : Type κ} → (A → Option B) → List A → List B
filter_map f [] = []
filter_map f (x ∷ xs) = elim (f x) [ none ↦ filter_map f xs | some y ↦ y ∷ filter_map f xs ]

abbrev pub is_empty {ℓ} : {A : Type ℓ} → List A → Bool
is_empty [] = true
is_empty (x ∷ xs) = false

abbrev pub table_node : TableEntry → NavigationTreeTable
table_node table = record { entry = table }

module _ (lower : String → String) (contains : String → String → Bool) where
  unfoldable pub matches_navigation_search : String → String → Bool
  matches_navigation_search value keyword =
      if keyword == "" then true else contains (lower value) keyword

  module _ (options : SearchOptions) where
    abbrev pub searching : Bool
    searching = not (options.search_keyword == "")

    -- `searchKeyword ? matchesNavigationSearch(name, searchKeyword) : false`
    unfoldable pub matched : String → Bool
    unfolding matches_navigation_search
    matched name =
        if searching then matches_navigation_search name options.search_keyword else false

    abbrev pub tables_of : ConnectionProfile → DatabaseEntry → List TableEntry
    tables_of profile database =
        or_else (lookup (build_database_key profile.id database.name) options.tables_by_database) []

    abbrev pub databases_of : ConnectionProfile → List DatabaseEntry
    databases_of profile = or_else (lookup profile.id options.databases_by_profile) []

    unfoldable pub visible_tables : ConnectionProfile → DatabaseEntry → List NavigationTreeTable
    unfolding matches_navigation_search lookup
    visible_tables profile database = map table_node (
        if searching
        then filter (λ table. matches_navigation_search table.name options.search_keyword)
            (tables_of profile database)
        else tables_of profile database)

    unfoldable pub visible_database :
        ConnectionProfile → DatabaseEntry → Option NavigationTreeDatabase
    unfolding matched visible_tables
    visible_database profile database =
        if searching && not (matched database.name) && is_empty (visible_tables profile database)
        then none
        else some (record {
          entry = database;
          matched_by_name = matched database.name;
          tables = visible_tables profile database;
        })

    unfoldable pub visible_databases : ConnectionProfile → List NavigationTreeDatabase
    unfolding visible_database lookup
    visible_databases profile =
        if (if searching then includes options.connected_profile_ids profile.id else true)
        then filter_map (visible_database profile) (databases_of profile)
        else []

    unfoldable pub visible_profile : ConnectionProfile → Option NavigationTreeProfile
    unfolding matched visible_databases
    visible_profile profile =
        if searching
          && not (matched profile.data_source_name)
          && is_empty (visible_databases profile)
        then none
        else some (record {
          entry = profile;
          matched_by_name = matched profile.data_source_name;
          databases = visible_databases profile;
        })

    unfoldable pub visible_group : DataSourceTreeGroup → Option NavigationTreeGroup
    unfolding visible_profile
    visible_group group =
        let profiles : List NavigationTreeProfile = filter_map visible_profile group.profiles in
        if searching && is_empty profiles
        then none
        else some (record {
          key = group.key;
          group_id = group.group_id;
          group_name = group.group_name;
          profiles = profiles;
        })

    unfoldable pub build_navigation_tree_groups :
        List DataSourceTreeGroup → List NavigationTreeGroup
    unfolding visible_group
    build_navigation_tree_groups groups = filter_map visible_group groups
