-- ===== src/Sql/Completion/Items.antt =====
-- The completion items that are made of the columns, tables and databases in scope (SqlEditor.tsx).
-- `rank` is `1000 - priority`, the number of which `buildSortText` makes the sort text; ranges and the ids
-- of Monaco are left out. `shown` is the text of a number.
use zszc_sql_client.Base.{
  ℕ, ◌+◌, ◌-◌, String, Bool, Option, none, some, List, [], ◌∷◌, ◌++◌, any, if◌then◌else◌,
}
use zszc_sql_client.Sql.Text.{Text, codes, text_eq}
use zszc_sql_client.Sql.Tokens.{quote_sql_identifier}
use zszc_sql_client.Sql.Analysis.{SqlAutocompleteColumn, SqlCatalog, QueryAnalysis, truthy}
use zszc_sql_client.Sql.Completion.{
  CompletionClauseContext, ScopedColumn, collect_scoped_columns, resolve_qualified_namespace,
}

pub data ItemKind : Type 0 where
  class_item field_item module_item snippet_item keyword_item : ItemKind

pub record CompletionItem : Type 0 where
  pub kind : ItemKind
  pub label : Text
  pub insert_text : Text
  pub detail : Option Text
  pub documentation : Option Text
  pub filter_text : Option Text
  pub rank : ℕ

abbrev pub monaco_keyword_templates : List String
monaco_keyword_templates =
    "SELECT" ∷ "FROM" ∷ "WHERE" ∷ "JOIN" ∷ "LEFT JOIN" ∷ "INNER JOIN" ∷ "RIGHT JOIN" ∷ "ON" ∷ "AND"
    ∷ "OR" ∷ "GROUP BY" ∷ "ORDER BY" ∷ "HAVING" ∷ "LIMIT" ∷ "WITH" ∷ "AS" ∷ "EXISTS" ∷ "IN"
    ∷ "NOT IN" ∷ "LIKE" ∷ "IS NULL" ∷ "IS NOT NULL" ∷ "COUNT(*)" ∷ "DISTINCT" ∷ "UNION ALL" ∷ []

-- `tags.join(' · ')`
unfoldable pub column_tags : SqlAutocompleteColumn → Text
column_tags column =
    column.data_type
    ++ ((if column.primary_key then codes " · 主键" else [])
        ++ ((if column.auto_increment then codes " · 自增" else [])
            ++ (if column.nullable then codes " · 可空" else codes " · 非空")))

unfoldable pub build_column_markdown : SqlAutocompleteColumn → Text → Text
unfolding column_tags
build_column_markdown column scope_label =
    codes "**"
    ++ (scope_label
        ++ (codes "."
            ++ (column.name
                ++ (codes "**\n\n"
                    ++ (column_tags column
                        ++ (elim column.comment [ [] ↦ [] | c ∷ s ↦ codes "\n\n" ++ c ∷ s ]))))))

-- `seen.has(key)`, on what makes the key: the label, two colons, the text.
abbrev pub item_key : CompletionItem → Text
item_key item = item.label ++ (codes "::" ++ item.insert_text)

abbrev pub is_seen : List Text → Text → Bool
is_seen seen key = any (λ k. text_eq k key) seen

unfoldable pub dedupe_from : List Text → List CompletionItem → List CompletionItem
dedupe_from seen [] = []
dedupe_from seen (item ∷ items) =
    let kept = item ∷ dedupe_from (item_key item ∷ seen) items in
    let dropped = dedupe_from seen items in if is_seen seen (item_key item) then dropped else kept

unfoldable pub dedupe_completion_items : List CompletionItem → List CompletionItem
unfolding dedupe_from
dedupe_completion_items items = dedupe_from [] items

abbrev pub keyword_item_at : ℕ → String → CompletionItem
keyword_item_at index keyword = record {
  kind = keyword_item;
  label = codes keyword;
  insert_text = codes keyword;
  detail = none;
  documentation = none;
  filter_text = none;
  rank = 960 + index;
}

unfoldable pub keyword_items : ℕ → List String → List CompletionItem
keyword_items index [] = []
keyword_items index (keyword ∷ keywords) =
    keyword_item_at index keyword ∷ keyword_items (index + 1) keywords

-- The one or two items of a column in scope. `820 + index - boost`, where `boost` is `gain - loss`.
unfoldable pub scoped_column_items : ℕ → ScopedColumn → List CompletionItem
unfolding build_column_markdown quote_sql_identifier
scoped_column_items index item =
    let described : Text = item.scope_label ++ (codes " · " ++ item.column.data_type) in
    record {
      kind = field_item;
      label = item.column.name;
      insert_text = quote_sql_identifier item.column.name;
      detail = some described;
      documentation = some (build_column_markdown item.column item.scope_label);
      filter_text = none;
      rank = 820 + index + item.loss - item.gain;
    }
    ∷ (elim (truthy item.qualified_insert_text) [
      | none ↦ []
      | some qualified ↦
          record {
            kind = field_item;
            label = item.qualified_label;
            insert_text = qualified;
            detail = some described;
            documentation = some (build_column_markdown item.column item.scope_label);
            filter_text = none;
            rank = 870 + index + item.loss - item.gain;
          }
          ∷ []
    ])

unfoldable pub scoped_columns_items : ℕ → List ScopedColumn → List CompletionItem
unfolding scoped_column_items
scoped_columns_items index [] = []
scoped_columns_items index (item ∷ items) =
    scoped_column_items index item ++ scoped_columns_items (index + 1) items

unfoldable pub build_scoped_column_suggestions :
    (Text → Text) → QueryAnalysis → CompletionClauseContext → List CompletionItem
unfolding collect_scoped_columns scoped_columns_items keyword_items dedupe_completion_items
build_scoped_column_suggestions lower analysis context = dedupe_completion_items (
    scoped_columns_items 0 (collect_scoped_columns lower analysis context)
    ++ keyword_items 0 monaco_keyword_templates)

unfoldable pub qualified_column_items : ℕ → Text → List SqlAutocompleteColumn → List CompletionItem
unfolding build_column_markdown quote_sql_identifier
qualified_column_items index scope_label [] = []
qualified_column_items index scope_label (column ∷ columns) =
    record {
      kind = field_item;
      label = column.name;
      insert_text = quote_sql_identifier column.name;
      detail = some (scope_label ++ (codes " · " ++ column.data_type));
      documentation = some (build_column_markdown column scope_label);
      filter_text = none;
      rank = 850 + index;
    }
    ∷ qualified_column_items (index + 1) scope_label columns

abbrev pub expansion_item : Text → CompletionItem
expansion_item text = record {
  kind = snippet_item;
  label = codes "*";
  insert_text = text;
  detail = some (codes "展开全部列");
  documentation = none;
  filter_text = none;
  rank = 760;
}

unfoldable pub build_qualified_column_suggestions :
    (Text → Text) → List Text → QueryAnalysis → SqlCatalog → Option Text → List CompletionItem
unfolding resolve_qualified_namespace qualified_column_items dedupe_completion_items
build_qualified_column_suggestions lower namespaces analysis catalog current =
    elim (resolve_qualified_namespace lower namespaces analysis catalog current) [
      | none ↦ []
      | some resolution ↦ dedupe_completion_items (
          (elim resolution.expansion_insert_text [ [] ↦ [] | c ∷ s ↦ expansion_item (c ∷ s) ∷ [] ])
          ++ qualified_column_items 0 resolution.scope_label resolution.columns)
    ]
