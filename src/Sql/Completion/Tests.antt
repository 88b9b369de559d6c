-- ===== src/Sql/Completion/Tests.antt =====
-- Two relations that both have a column with the name id.
use zszc_sql_client.Base.{◌≡◌, refl, true, false, none, some, [], ◌∷◌, All}
use zszc_sql_client.Sql.Text.{Text, codes}
use zszc_sql_client.Sql.Analysis.{SqlAutocompleteColumn, QueryRelation, QueryAnalysis, SourceKind}
use zszc_sql_client.Sql.Completion.{
  CompletionClauseContext, scope_relations, collect_scoped_columns,
}
use zszc_sql_client.Sql.Completion.Items.{
  CompletionItem, ItemKind, is_seen, item_key, dedupe_completion_items,
  build_scoped_column_suggestions,
}
use zszc_sql_client.Sql.Completion.Dedupe.{
  keys, stands_in, AreDistinct, dedupe_completion_items_lem,
}
use zszc_sql_client.Sql.Completion.Scoped.{IsUnambiguous, collect_scoped_columns-AreUnambiguous}
use zszc_sql_client.Sql.Completion.Bare.{bare_key, every_column_is_offered_bare}

abbrev lower : Text → Text
lower s = s

abbrev id_column : SqlAutocompleteColumn
id_column = record {
  name = codes "id";
  data_type = codes "int";
  nullable = false;
  primary_key = true;
  auto_increment = true;
  comment = [];
}

abbrev relation_of : Text → QueryRelation
relation_of name = record {
  source_kind = SourceKind.table;
  name = name;
  database_name = some (codes "db");
  alias = none;
  columns = id_column ∷ [];
}

abbrev joined_tables : QueryAnalysis
joined_tables = record {
  ctes = [];
  relations = relation_of (codes "users") ∷ relation_of (codes "orders") ∷ [];
  projection_columns = [];
}

collect_scoped_columns-AreUnambiguous_example :
    All
      (IsUnambiguous lower (scope_relations joined_tables))
      (collect_scoped_columns lower joined_tables CompletionClauseContext.in_column)
collect_scoped_columns-AreUnambiguous_example =
    collect_scoped_columns-AreUnambiguous lower joined_tables CompletionClauseContext.in_column

every_column_is_offered_bare_example :
    All
      (λ relation.
        All
          (λ column.
            is_seen
              (keys (
                build_scoped_column_suggestions lower joined_tables
                  CompletionClauseContext.in_column))
              (bare_key column)
            ≡ true)
          relation.columns)
      (scope_relations joined_tables)
every_column_is_offered_bare_example =
    every_column_is_offered_bare lower joined_tables CompletionClauseContext.in_column refl

abbrev item : CompletionItem
item = record {
  kind = ItemKind.field_item;
  label = codes "id";
  insert_text = codes "id";
  detail = none;
  documentation = none;
  filter_text = none;
  rank = 820;
}

dedupe_completion_items_lem_example :
    AreDistinct (keys (dedupe_completion_items (item ∷ item ∷ [])))
    × (stands_in (keys (dedupe_completion_items (item ∷ item ∷ []))) (item_key item)
        ≡ stands_in (keys (item ∷ item ∷ [])) (item_key item))
dedupe_completion_items_lem_example = dedupe_completion_items_lem (item ∷ item ∷ []) (item_key item)
