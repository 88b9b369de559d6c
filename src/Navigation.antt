-- ===== src/Navigation.antt =====
-- frontend/src/features/workspace/navigation.ts: the tree of data sources, databases and tables.
-- `trim` and `lower` are `trim` and `toLowerCase` of the runtime, `contains` is `includes` on strings, and
-- `locale_compare` the sign of `localeCompare(…, 'zh-CN')`.
pub mod Groups
pub mod Search
pub mod Counting
pub mod Forms
mod Tests
use zszc_sql_client.Base.{
  String, Bool, true, false, not, ◌&&◌, ◌||◌, Option, none, some, List, [], ◌∷◌, ◌++◌, map, any,
  includes, joined, or_else, ◌==◌, if◌then◌else◌,
}
use zszc_sql_client.Base.Dict.{Dict, lookup}
use zszc_sql_client.Types.Remote.{ConnectionProfile, DataSourceGroup}
use zszc_sql_client.Types.Tabs.{SaveConnectionProfilePayload}

-- The sign of what a comparison returns.
pub data Sign : Type 0 where
  negative zero positive : Sign

abbrev pub is_positive : Sign → Bool
is_positive positive = true
is_positive _ = false

abbrev pub ungrouped_group_name : String
ungrouped_group_name = "未分组"

pub record DataSourceTreeGroup : Type 0 where
  pub key : String
  pub group_id : Option String
  pub group_name : String
  pub profiles : List ConnectionProfile

-- `sort` with a comparison, which is stable.
module _ {ℓ} {A : Type ℓ} (compare : A → A → Sign) where
  unfoldable pub insert_by : A → List A → List A
  insert_by x [] = x ∷ []
  insert_by x (y ∷ ys) =
      let later = y ∷ insert_by x ys in if is_positive (compare x y) then later else x ∷ y ∷ ys

  unfoldable pub sort_by : List A → List A
  unfolding insert_by
  sort_by [] = []
  sort_by (x ∷ xs) = insert_by x (sort_by xs)

module _ (trim : String → String) where
  unfoldable pub normalize_group_name : Option String → String
  normalize_group_name none = ungrouped_group_name
  normalize_group_name (some name) = if trim name == "" then ungrouped_group_name else trim name

  unfoldable pub normalize_profile_form :
      SaveConnectionProfilePayload → SaveConnectionProfilePayload
  normalize_profile_form form = record {
    id = form.id;
    group_name = elim form.group_name [
      | none ↦ none
      | some name ↦ if trim name == "" then none else some (trim name)
    ];
    data_source_name = trim form.data_source_name;
    host = trim form.host;
    port = form.port;
    username = trim form.username;
    password = form.password;
  }

  -- The keys that are added to the expanded ones.
  abbrev pub group_key : Option String → String
  group_key group_name = joined ("group:" ∷ normalize_group_name group_name ∷ [])

-- `group:…` of a name that is normalized.
abbrev pub key_of_group : String → String
key_of_group name = joined ("group:" ∷ name ∷ [])

unfoldable pub profile_to_form : ConnectionProfile → SaveConnectionProfilePayload
profile_to_form profile = record {
  id = some profile.id;
  group_name = profile.group_name;
  data_source_name = profile.data_source_name;
  host = profile.host;
  port = profile.port;
  username = profile.username;
  password = profile.password;
}

unfoldable pub upsert_profile : List ConnectionProfile → ConnectionProfile → List ConnectionProfile
upsert_profile previous profile =
    if any (λ item. item.id == profile.id) previous
    then map (λ item. if item.id == profile.id then profile else item) previous
    else previous ++ profile ∷ []

abbrev pub build_database_key : String → String → String
build_database_key profile_id database_name = joined (profile_id ∷ ":" ∷ database_name ∷ [])

module _ (locale_compare : String → String → Sign) where
  unfoldable pub compare_group_name : String → String → Sign
  compare_group_name left right =
      if left == ungrouped_group_name
      then positive
      else if right == ungrouped_group_name
      then negative
      else locale_compare left right

  unfoldable pub sort_data_source_groups : List DataSourceGroup → List DataSourceGroup
  unfolding sort_by
  sort_data_source_groups = sort_by λ left right. locale_compare left.group_name right.group_name

  -- The comparison of `sortProfiles`.
  unfoldable pub compare_profiles : (String → String) → ConnectionProfile → ConnectionProfile → Sign
  unfolding compare_group_name normalize_group_name
  compare_profiles trim left right =
      elim (compare_group_name (normalize_group_name trim left.group_name)
        (normalize_group_name trim right.group_name)) [
          | zero ↦ locale_compare left.data_source_name right.data_source_name
          | negative ↦ negative
          | positive ↦ positive
        ]

-- `next.add(key)`, on a set as the list of its elements.
abbrev pub add_key : List String → String → List String
add_key keys key = if includes keys key then keys else keys ++ key ∷ []

module _ (trim : String → String) where
  unfoldable pub expand_ancestors_for_profile : List String → ConnectionProfile → List String
  unfolding normalize_group_name
  expand_ancestors_for_profile previous profile =
      add_key previous (group_key trim profile.group_name)

  unfoldable pub expand_ancestors_for_database :
      List String → ConnectionProfile → String → List String
  unfolding expand_ancestors_for_profile
  expand_ancestors_for_database previous profile database_name =
      add_key
        (add_key (expand_ancestors_for_profile previous profile)
          (joined ("profile:" ∷ profile.id ∷ [])))
        (joined ("database:" ∷ build_database_key profile.id database_name ∷ []))

  unfoldable pub expand_ancestors_for_profile_node : List String → ConnectionProfile → List String
  unfolding expand_ancestors_for_profile
  expand_ancestors_for_profile_node previous profile =
      add_key (expand_ancestors_for_profile previous profile)
        (joined ("profile:" ∷ profile.id ∷ []))

  unfoldable pub expand_ancestors_for_table : List String → ConnectionProfile → String → List String
  unfolding expand_ancestors_for_database
  expand_ancestors_for_table previous profile database_name =
      expand_ancestors_for_database previous profile database_name
