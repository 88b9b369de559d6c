-- ===== src/Sql/Analysis.antt =====
-- What a statement reads from (SqlEditor.tsx): the catalog, the relations behind `from` and `join`, the
-- common table expressions, the columns of the projection. `lower` is `toLowerCase` of the runtime.
-- As in Sql.Tokens, a function that is given an index is given the tokens from there on.
pub mod Projection
pub mod Queries
pub mod Sources
pub mod Known
pub mod Fuel
pub mod Ends
pub mod Shorter
pub mod Tails
mod Tests
pub mod Origins
use zszc_sql_client.Base.{
  Bool, true, false, not, ◌&&◌, Option, none, some, List, [], ◌∷◌, if◌then◌else◌,
}
use zszc_sql_client.Sql.Text.{Text, codes}
use zszc_sql_client.Sql.Maps.{TextMap, get, put}

pub record SqlAutocompleteColumn : Type 0 where
  pub name : Text
  pub data_type : Text
  pub nullable : Bool
  pub primary_key : Bool
  pub auto_increment : Bool
  pub comment : Text

pub record SqlAutocompleteTable : Type 0 where
  pub name : Text
  pub columns : List SqlAutocompleteColumn

pub record SqlAutocompleteSchema : Type 0 where
  pub profile_id : Text
  pub database_name : Text
  pub tables : List SqlAutocompleteTable

pub record CatalogTable : Type 0 where
  pub database_name : Text
  pub name : Text
  pub columns : List SqlAutocompleteColumn

pub record CatalogSchema : Type 0 where
  pub database_name : Text
  pub tables : TextMap CatalogTable

-- `SqlCatalog`, by its one field `schemas`.
abbrev pub SqlCatalog : Type 0
SqlCatalog = TextMap CatalogSchema

pub data SourceKind : Type 0 where
  table cte subquery : SourceKind

pub record QueryRelation : Type 0 where
  pub source_kind : SourceKind
  pub name : Text
  pub database_name : Option Text
  pub alias : Option Text
  pub columns : List SqlAutocompleteColumn

pub record QueryAnalysis : Type 0 where
  pub ctes : List QueryRelation
  pub relations : List QueryRelation
  pub projection_columns : List SqlAutocompleteColumn

-- A text that counts as true: one that is there and not empty.
abbrev pub truthy : Option Text → Option Text
truthy none = none
truthy (some []) = none
truthy (some (c ∷ s)) = some (c ∷ s)

unfoldable pub create_derived_column : Text → Text → SqlAutocompleteColumn
create_derived_column name data_type = record {
  name = name;
  data_type = data_type;
  nullable = true;
  primary_key = false;
  auto_increment = false;
  comment = [];
}

module _ (lower : Text → Text) where
  -- `new Map(schema.tables.map(…))`, into a map that has entries.
  unfoldable pub add_tables :
      Text → List SqlAutocompleteTable → TextMap CatalogTable → TextMap CatalogTable
  add_tables database_name [] entries = entries
  add_tables database_name (t ∷ tables) entries = add_tables database_name tables (
      put (lower t.name)
        (record { database_name = database_name; name = t.name; columns = t.columns }) entries)

  unfoldable pub add_schemas : List SqlAutocompleteSchema → SqlCatalog → SqlCatalog
  unfolding add_tables
  add_schemas [] catalog = catalog
  add_schemas (schema ∷ schemas) catalog = add_schemas schemas (
      put (lower schema.database_name)
        (record {
          database_name = schema.database_name;
          tables = add_tables schema.database_name schema.tables [];
        })
        catalog)

  unfoldable pub build_sql_catalog : List SqlAutocompleteSchema → SqlCatalog
  unfolding add_schemas
  build_sql_catalog schema_catalog = add_schemas schema_catalog []

  -- `catalog.schemas.get(…)?.tables.get(…) ?? null`
  abbrev pub find_table : SqlCatalog → Text → Text → Option CatalogTable
  find_table catalog database_name table_name = elim (get (lower database_name) catalog) [
    | none ↦ none
    | some schema ↦ get (lower table_name) schema.tables
  ]

  -- The last two of at least two names.
  unfoldable pub find_by_path : SqlCatalog → List Text → Option CatalogTable
  find_by_path catalog [] = none
  find_by_path catalog (a ∷ []) = none
  find_by_path catalog (a ∷ b ∷ []) = find_table catalog a b
  find_by_path catalog (a ∷ b ∷ c ∷ names) = find_by_path catalog (b ∷ c ∷ names)

  unfoldable pub resolve_catalog_table : List Text → SqlCatalog → Option Text → Option CatalogTable
  unfolding find_by_path
  resolve_catalog_table [] catalog current = none
  resolve_catalog_table (name ∷ []) catalog current = elim (truthy current) [
    | none ↦ none
    | some database_name ↦ find_table catalog database_name name
  ]
  resolve_catalog_table (a ∷ b ∷ names) catalog current = find_by_path catalog (a ∷ b ∷ names)

  abbrev pub table_relation : Option Text → CatalogTable → QueryRelation
  table_relation alias found = record {
    source_kind = table;
    name = found.name;
    database_name = some found.database_name;
    alias = alias;
    columns = found.columns;
  }

  abbrev pub catalog_relation :
      List Text → Option Text → SqlCatalog → Option Text → Option QueryRelation
  catalog_relation identifiers alias catalog current =
      elim (resolve_catalog_table identifiers catalog current) [
        | none ↦ none
        | some found ↦ some (table_relation alias found)
      ]

  -- `cteMap.get(…)`, for a path of one name.
  abbrev pub named_cte : List Text → TextMap QueryRelation → Option QueryRelation
  named_cte (name ∷ []) cte_map = get (lower name) cte_map
  named_cte _ cte_map = none

  unfoldable pub resolve_relation_from_path :
      List Text
      → Option Text
      → SqlCatalog
      → Option Text
      → TextMap QueryRelation
      → Option QueryRelation
  unfolding resolve_catalog_table
  resolve_relation_from_path identifiers alias catalog current cte_map =
      elim (named_cte identifiers cte_map) [
        | some found ↦ some (record found { alias = alias })
        | none ↦ catalog_relation identifiers alias catalog current
      ]
