-- ===== src/Navigation/Search/Visible.antt =====
-- When a profile is shown in the tree.
use zszc_sql_client.Base.{
  String, ◌≡◌, refl, ◌∙◌, ap, Bool, true, false, not, ◌&&◌, ◌||◌, Option, none, some, List, [], ◌∷◌,
  map, filter, any, includes, is_some, arith, ◌==◌, if◌then◌else◌,
}
use zszc_sql_client.Types.Remote.{ConnectionProfile, DatabaseEntry}
use zszc_sql_client.Navigation.Search.{
  SearchOptions, filter_map, is_empty, table_node, matches_navigation_search, matched, tables_of,
  databases_of, visible_tables, visible_database, visible_databases, visible_profile,
}

is_empty-filter {ℓ κ} :
    {A : Type ℓ} {B : Type κ} (f : A → B) (p : A → Bool) (xs : List A)
    → is_empty (map f (filter p xs)) ≡ not (any p xs)
is_empty-filter f p [] = refl
is_empty-filter f p (x ∷ xs) = ground (arith, is_empty-filter f p xs)

is_empty-keep {ℓ κ} :
    {A : Type ℓ} {B : Type κ} (f : A → Option B) (xs : List A) (o : Option B) (b : Bool)
    → is_empty (filter_map f xs) ≡ not b
    → is_empty (elim o as (λ _. List B) [ none ↦ filter_map f xs | some y ↦ y ∷ filter_map f xs ])
      ≡ not (is_some o || b)
is_empty-keep f xs none b h = h
is_empty-keep f xs (some y) b h = refl

is_empty-filter_map {ℓ κ} :
    {A : Type ℓ} {B : Type κ} (f : A → Option B) (xs : List A)
    → is_empty (filter_map f xs) ≡ not (any (λ x. is_some (f x)) xs)
is_empty-filter_map f [] = refl
is_empty-filter_map f (x ∷ xs) =
    is_empty-keep f xs (f x) (any (λ y. is_some (f y)) xs) (is_empty-filter_map f xs)

any-cong {ℓ} :
    {A : Type ℓ} (p q : A → Bool) → ((x : A) → p x ≡ q x) → (xs : List A) → any p xs ≡ any q xs
any-cong p q h [] = refl
any-cong p q h (x ∷ xs) = rw (h x, any-cong p q h xs)

-- `if searching && not m && not t then none else some …`
shown_if {ℓ} :
    {A : Type ℓ} (a : A) (m t : Bool)
    → is_some (if true && not m && not t then none else some a) ≡ (m || t)
shown_if a true t = refl
shown_if a false true = refl
shown_if a false false = refl

connected_if {ℓ} :
    {A : Type ℓ} (xs : List A) (c b : Bool)
    → is_empty xs ≡ not b
    → is_empty (if c then xs else []) ≡ not (c && b)
connected_if xs true b h = h
connected_if xs false b h = refl

module _ (lower : String → String) (contains : String → String → Bool)
    (options : SearchOptions) where
  -- A name that has the keyword in it.
  abbrev pub has_keyword : String → Bool
  has_keyword name = contains (lower name) options.search_keyword

  -- A database whose name, or that of one of its tables, has the keyword in it.
  abbrev pub database_has_keyword : ConnectionProfile → DatabaseEntry → Bool
  database_has_keyword profile database =
      has_keyword database.name
      || any (λ table. has_keyword table.name) (tables_of lower contains options profile database)

  module _ (given : (options.search_keyword == "") ≡ false) where
    visible_database-shown :
        (profile : ConnectionProfile) (database : DatabaseEntry)
        → is_some (visible_database lower contains options profile database)
          ≡ database_has_keyword profile database
    unfolding visible_database visible_tables matched matches_navigation_search
    visible_database-shown profile database =
        rw
          (
            given,
            is_empty-filter table_node (λ table. has_keyword table.name)
                (tables_of lower contains options profile database),
          )
          (shown_if _ (has_keyword database.name) _)

    visible_databases-empty :
        (profile : ConnectionProfile)
        → is_empty (visible_databases lower contains options profile)
          ≡ not (
              includes options.connected_profile_ids profile.id
              && any (database_has_keyword profile) (databases_of lower contains options profile))
    unfolding visible_databases
    visible_databases-empty profile = rw given (
        connected_if _ (includes options.connected_profile_ids profile.id) _ (
          is_empty-filter_map (visible_database lower contains options profile)
            (databases_of lower contains options profile)
          ∙ ap not (
              any-cong _ (database_has_keyword profile) (visible_database-shown profile)
                (databases_of lower contains options profile))))

    -- While there is a keyword, a profile is shown exactly if its name has the keyword in it, or if it is
    -- connected and one of its loaded databases or one of their loaded tables has it in its name.
    pub visible_profile-shown :
        (profile : ConnectionProfile)
        → is_some (visible_profile lower contains options profile) ≡ (
            has_keyword profile.data_source_name
            || includes options.connected_profile_ids profile.id
              && any (database_has_keyword profile) (databases_of lower contains options profile))
    unfolding visible_profile visible_databases matched matches_navigation_search
    visible_profile-shown profile =
        rw (visible_databases-empty profile, given)
          (shown_if _ (has_keyword profile.data_source_name) _)
