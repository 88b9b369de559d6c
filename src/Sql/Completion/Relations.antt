-- ===== src/Sql/Completion/Relations.antt =====
-- The items for tables and databases, and what is shown on hovering a relation (SqlEditor.tsx).
-- `shown` is the text of a number.
use zszc_sql_client.Base.{
  ℕ, ◌+◌, Bool, false, ◌||◌, Option, none, some, List, [], ◌∷◌, ◌++◌, find, length,
}
use zszc_sql_client.Sql.Text.{Text, codes, text_eq}
use zszc_sql_client.Sql.Maps.{TextMap, get, values}
use zszc_sql_client.Sql.Tokens.{quote_sql_identifier}
use zszc_sql_client.Sql.Analysis.{
  SqlAutocompleteColumn, SqlCatalog, CatalogTable, QueryRelation, QueryAnalysis, truthy,
}
use zszc_sql_client.Sql.Completion.Items.{
  CompletionItem, class_item, module_item, dedupe_completion_items,
}

-- `relation.database_name ? `${relation.database_name}.${relation.name}` : relation.name`
abbrev pub qualified_name : QueryRelation → Text
qualified_name relation = elim (truthy relation.database_name) [
  | none ↦ relation.name
  | some database_name ↦ database_name ++ (codes "." ++ relation.name)
]

module _ (shown : ℕ → Text) where
  abbrev column_number : List SqlAutocompleteColumn → Text
  column_number columns = shown (length columns) ++ codes " 列"

  unfoldable pub build_relation_markdown : QueryRelation → Text
  build_relation_markdown relation =
      codes "**" ++ (qualified_name relation ++ (codes "**\n\n" ++ column_number relation.columns))

  unfoldable pub build_table_markdown : CatalogTable → Text
  build_table_markdown table =
      codes "**"
      ++ (table.database_name
          ++ (codes "." ++ (table.name ++ (codes "**\n\n" ++ column_number table.columns))))

  unfoldable pub build_relation_detail : QueryRelation → Text
  build_relation_detail relation =
      qualified_name relation ++ (codes "\n\n" ++ column_number relation.columns)

  unfoldable pub cte_items : ℕ → List QueryRelation → List CompletionItem
  unfolding build_relation_markdown
  cte_items index [] = []
  cte_items index (relation ∷ relations) =
      record {
        kind = class_item;
        label = relation.name;
        insert_text = relation.name;
        detail = some (codes "CTE · " ++ column_number relation.columns);
        documentation = some (build_relation_markdown relation);
        filter_text = none;
        rank = 780 + index;
      }
      ∷ cte_items (index + 1) relations

  abbrev table_item : ℕ → Option Text → CatalogTable → CompletionItem
  table_item rank filter_text table = record {
    kind = class_item;
    label = table.name;
    insert_text = quote_sql_identifier table.name;
    detail = some (table.database_name ++ (codes " · " ++ column_number table.columns));
    documentation = some (build_table_markdown table);
    filter_text = filter_text;
    rank = rank;
  }

  -- The tables of the current schema; `pushed` is how many items there are before.
  unfoldable pub schema_table_items : ℕ → TextMap CatalogTable → List CompletionItem
  unfolding build_table_markdown quote_sql_identifier
  schema_table_items pushed [] = []
  schema_table_items pushed ((lower_name, table) ∷ tables) =
      table_item (820 + pushed) (some (table.name ++ (codes " " ++ lower_name))) table
      ∷ schema_table_items (pushed + 1) tables

  unfoldable pub database_items : ℕ → List Text → List CompletionItem
  unfolding quote_sql_identifier
  database_items index [] = []
  database_items index (name ∷ names) =
      record {
        kind = module_item;
        label = name ++ codes ".";
        insert_text = quote_sql_identifier name ++ codes ".";
        detail = some (codes "数据库");
        documentation = none;
        filter_text = none;
        rank = 880 + index;
      }
      ∷ database_items (index + 1) names

  unfoldable pub build_relation_suggestions :
      (Text → Text) → QueryAnalysis → SqlCatalog → Option Text → List Text → List CompletionItem
  unfolding cte_items schema_table_items database_items dedupe_completion_items
  build_relation_suggestions lower analysis catalog current database_names =
      let ctes : List CompletionItem = cte_items 0 analysis.ctes in
      let tables : List CompletionItem = elim (truthy current) as (λ _. List CompletionItem) [
        | none ↦ []
        | some name ↦ elim (get (lower name) catalog) as (λ _. List CompletionItem) [
          | none ↦ []
          | some schema ↦ schema_table_items (length ctes) schema.tables
        ]
      ] in
      dedupe_completion_items (ctes ++ (tables ++ database_items 0 database_names))

  unfoldable pub namespace_table_items : ℕ → List CatalogTable → List CompletionItem
  unfolding build_table_markdown quote_sql_identifier
  namespace_table_items index [] = []
  namespace_table_items index (table ∷ tables) =
      table_item (820 + index) none table ∷ namespace_table_items (index + 1) tables

  -- The first of the names is the schema.
  unfoldable pub build_namespace_table_suggestions :
      (Text → Text) → List Text → SqlCatalog → List CompletionItem
  unfolding namespace_table_items dedupe_completion_items
  build_namespace_table_suggestions lower [] catalog = []
  build_namespace_table_suggestions lower ([] ∷ names) catalog = []
  build_namespace_table_suggestions lower ((c ∷ s) ∷ names) catalog =
      elim (get (lower (c ∷ s)) catalog) [
        | none ↦ []
        | some schema ↦ dedupe_completion_items (namespace_table_items 0 (values schema.tables))
      ]

-- The relation that is found by the word under the pointer, a common table expression first.
unfoldable pub find_hover_relation : (Text → Text) → Text → QueryAnalysis → Option QueryRelation
find_hover_relation lower word analysis =
    find
      (λ relation.
        (elim relation.alias as (λ _. Bool) [
          | none ↦ false
          | some alias ↦ text_eq (lower alias) (lower word)
        ])
        || text_eq (lower relation.name) (lower word))
      (analysis.ctes ++ analysis.relations)
