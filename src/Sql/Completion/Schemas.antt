-- ===== src/Sql/Completion/Schemas.antt =====
-- The schemas that an editor knows: `dedupeSchemaCatalog` and `buildEditorContext` (SqlEditor.tsx).
-- `comes_behind` is whether `localeCompare(…, 'zh-CN')` puts the first name behind the second.
use zszc_sql_client.Base.{Bool, Option, none, some, List, [], ◌∷◌, any, if◌then◌else◌}
use zszc_sql_client.Sql.Text.{Text, codes, text_eq}
use zszc_sql_client.Sql.Maps.{TextMap, put, values}
use zszc_sql_client.Sql.Analysis.{SqlAutocompleteTable, SqlAutocompleteSchema, truthy}

module _ (comes_behind : Text → Text → Bool) where
  unfoldable pub insert_schema :
      SqlAutocompleteSchema → List SqlAutocompleteSchema → List SqlAutocompleteSchema
  insert_schema schema [] = schema ∷ []
  insert_schema schema (other ∷ schemas) =
      let later = other ∷ insert_schema schema schemas in
      if comes_behind schema.database_name other.database_name
      then later
      else schema ∷ other ∷ schemas

  unfoldable pub sort_schemas : List SqlAutocompleteSchema → List SqlAutocompleteSchema
  unfolding insert_schema
  sort_schemas [] = []
  sort_schemas (schema ∷ schemas) = insert_schema schema (sort_schemas schemas)

  unfoldable pub group_schemas :
      List SqlAutocompleteSchema → TextMap SqlAutocompleteSchema → TextMap SqlAutocompleteSchema
  group_schemas [] grouped = grouped
  group_schemas (schema ∷ schemas) grouped =
      group_schemas schemas (put schema.database_name schema grouped)

  unfoldable pub dedupe_schema_catalog : List SqlAutocompleteSchema → List SqlAutocompleteSchema
  unfolding group_schemas sort_schemas
  dedupe_schema_catalog items = sort_schemas (values (group_schemas items []))

  -- The catalog of `buildEditorContext`: the tables of the editor's own database are added, if there are any
  -- and no schema has its name.
  unfoldable pub context_catalog :
      List SqlAutocompleteSchema
      → Option Text
      → List SqlAutocompleteTable
      → List SqlAutocompleteSchema
  unfolding dedupe_schema_catalog
  context_catalog schema_catalog database_name [] = dedupe_schema_catalog schema_catalog
  context_catalog schema_catalog database_name (t ∷ tables) = elim (truthy database_name) [
    | none ↦ dedupe_schema_catalog schema_catalog
    | some name ↦
        if any (λ schema. text_eq schema.database_name name) schema_catalog
        then dedupe_schema_catalog schema_catalog
        else dedupe_schema_catalog (
            record { profile_id = codes "__inline__"; database_name = name; tables = t ∷ tables }
            ∷ schema_catalog)
  ]
