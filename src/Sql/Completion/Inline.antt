-- ===== src/Sql/Completion/Inline.antt =====
-- The items of the editors for conditions and orders: `buildInlineSuggestions` (SqlEditor.tsx).
use zszc_sql_client.Base.{ℕ, ◌+◌, String, Bool, none, some, List, [], ◌∷◌, ◌++◌, if◌then◌else◌}
use zszc_sql_client.Sql.Text.{Text, codes}
use zszc_sql_client.Sql.Tokens.{quote_sql_identifier}
use zszc_sql_client.Sql.Analysis.{SqlAutocompleteColumn}
use zszc_sql_client.Sql.Completion.Items.{
  CompletionItem, field_item, keyword_item, dedupe_completion_items, build_column_markdown,
}

abbrev order_item : SqlAutocompleteColumn → Text → Text → ℕ → CompletionItem
order_item column direction title rank = record {
  kind = field_item;
  label = column.name ++ (codes " " ++ direction);
  insert_text = quote_sql_identifier column.name ++ (codes " " ++ direction);
  detail = some (column.data_type ++ (codes " · " ++ title));
  documentation = none;
  filter_text = none;
  rank = rank;
}

abbrev plain_item : SqlAutocompleteColumn → Text → ℕ → CompletionItem
plain_item column table_name rank = record {
  kind = field_item;
  label = column.name;
  insert_text = column.name;
  detail = some column.data_type;
  documentation = some (build_column_markdown column table_name);
  filter_text = none;
  rank = rank;
}

unfoldable pub order_by_items : Text → ℕ → List SqlAutocompleteColumn → List CompletionItem
unfolding quote_sql_identifier build_column_markdown
order_by_items table_name index [] = []
order_by_items table_name index (column ∷ columns) =
    plain_item column table_name (880 + index)
    ∷ order_item column (codes "ASC") (codes "升序") (920 + index)
    ∷ order_item column (codes "DESC") (codes "降序") (921 + index)
    ∷ order_by_items table_name (index + 1) columns

unfoldable pub where_items : Text → ℕ → List SqlAutocompleteColumn → List CompletionItem
unfolding build_column_markdown
where_items table_name index [] = []
where_items table_name index (column ∷ columns) =
    plain_item column table_name (860 + index) ∷ where_items table_name (index + 1) columns

-- The keywords, each with its label, in which runs of spaces are one.
abbrev where_keyword_item : ℕ → String → String → CompletionItem
where_keyword_item rank keyword label = record {
  kind = keyword_item;
  label = codes label;
  insert_text = codes keyword;
  detail = none;
  documentation = none;
  filter_text = none;
  rank = rank;
}

abbrev where_keyword_items : List CompletionItem
where_keyword_items =
    where_keyword_item 950 "AND" "AND"
    ∷ where_keyword_item 951 "OR" "OR"
    ∷ where_keyword_item 952 "LIKE" "LIKE"
    ∷ where_keyword_item 953 "IN ()" "IN ()"
    ∷ where_keyword_item 954 "BETWEEN  AND " "BETWEEN AND"
    ∷ where_keyword_item 955 "IS NULL" "IS NULL"
    ∷ where_keyword_item 956 "IS NOT NULL" "IS NOT NULL"
    ∷ []

-- `ordering` is whether the mode of the editor is `order_by`.
unfoldable pub build_inline_suggestions :
    Bool → List SqlAutocompleteColumn → Text → List CompletionItem
unfolding order_by_items where_items dedupe_completion_items
build_inline_suggestions ordering columns table_name =
    if ordering
    then dedupe_completion_items (order_by_items table_name 0 columns)
    else dedupe_completion_items (where_items table_name 0 columns ++ where_keyword_items)
