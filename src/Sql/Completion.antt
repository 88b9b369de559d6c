-- ===== src/Sql/Completion.antt =====
-- What the SQL editor offers at the cursor (SqlEditor.tsx): the columns in scope, what a qualifier stands
-- for, what is shown on hovering. `lower` is `toLowerCase` of the runtime. The clause and the qualifier
-- at the cursor, which regular expressions read, are arguments.
pub mod Items
pub mod Scoped
pub mod Bare
pub mod Relations
pub mod Inline
pub mod Schemas
mod Tests
pub mod Dedupe
use zszc_sql_client.Base.{
  ℕ, ◌+◌, ◌-◌, Bool, true, false, not, ◌&&◌, ◌||◌, Option, none, some, List, [], ◌∷◌, ◌++◌, map,
  flat_map, find, length, eqb, ltb, leb, or_else, if◌then◌else◌,
}
use zszc_sql_client.Sql.Text.{Text, codes, text_eq}
use zszc_sql_client.Sql.Maps.{TextMap, get}
use zszc_sql_client.Sql.Tokens.{quote_sql_identifier}
use zszc_sql_client.Sql.Analysis.{
  SqlAutocompleteColumn, SqlCatalog, CatalogTable, QueryRelation, QueryAnalysis, truthy,
  resolve_catalog_table,
}
use zszc_sql_client.Sql.Analysis.Projection.{put_relations}

pub data CompletionClauseContext : Type 0 where
  in_relation in_column : CompletionClauseContext
  join_on : Option Text → CompletionClauseContext

-- `boost` is `gain - loss`.
pub record ScopedColumn : Type 0 where
  pub gain : ℕ
  pub loss : ℕ
  pub column : SqlAutocompleteColumn
  pub qualified_insert_text : Option Text
  pub qualified_label : Text
  pub scope_label : Text

unfoldable pub scope_label_of : QueryRelation → Text
scope_label_of relation = elim (truthy relation.alias) [
  | some alias ↦ alias ++ (codes " · " ++ relation.name)
  | none ↦ elim (truthy relation.database_name) [
    | some database_name ↦ database_name ++ (codes "." ++ relation.name)
    | none ↦ relation.name
  ]
]

abbrev pub qualifier_of : QueryRelation → Text
qualifier_of relation = or_else relation.alias relation.name

unfoldable pub qualified_text : Text → Text → Text
unfolding quote_sql_identifier
qualified_text qualifier name =
    quote_sql_identifier qualifier ++ (codes "." ++ quote_sql_identifier name)

-- `analysis.relations`, or the common table expressions if there are none.
abbrev pub scope_relations : QueryAnalysis → List QueryRelation
scope_relations analysis = elim analysis.relations [
  | [] ↦ analysis.ctes
  | relation ∷ relations ↦ relation ∷ relations
]

abbrev pub is_join_on : CompletionClauseContext → Bool
is_join_on (join_on name) = true
is_join_on _ = false

abbrev pub expected_column_name : CompletionClauseContext → Option Text
expected_column_name (join_on name) = truthy name
expected_column_name _ = none

-- `left` stays before `right`: `right.boost - left.boost` is not positive.
abbrev pub comes_first : ScopedColumn → ScopedColumn → Bool
comes_first left right = leb (right.gain + left.loss) (left.gain + right.loss)

-- `sort`, which is stable.
unfoldable pub insert_sorted : ScopedColumn → List ScopedColumn → List ScopedColumn
insert_sorted item [] = item ∷ []
insert_sorted item (other ∷ items) =
    let later = other ∷ insert_sorted item items in
    if comes_first item other then item ∷ other ∷ items else later

unfoldable pub sort_by_boost : List ScopedColumn → List ScopedColumn
unfolding insert_sorted
sort_by_boost [] = []
sort_by_boost (item ∷ items) = insert_sorted item (sort_by_boost items)

module _ (lower : Text → Text) where
  -- `bareColumnCounts`: how many columns of all relations have a name.
  unfoldable pub count_in : Text → List SqlAutocompleteColumn → ℕ
  count_in key [] = 0
  count_in key (column ∷ columns) =
      let rest = count_in key columns in if text_eq (lower column.name) key then rest + 1 else rest

  unfoldable pub bare_column_count : Text → List QueryRelation → ℕ
  unfolding count_in
  bare_column_count key [] = 0
  bare_column_count key (relation ∷ relations) =
      count_in key relation.columns + bare_column_count key relations

  abbrev pub exact_boost : CompletionClauseContext → SqlAutocompleteColumn → ℕ
  exact_boost context column = elim (expected_column_name context) [
    | none ↦ 0
    | some name ↦ if text_eq (lower column.name) (lower name) then 36 else 0
  ]

  -- The suggestions of one column, in a relation at an index.
  unfoldable pub suggest_column :
      List QueryRelation
      → CompletionClauseContext
      → ℕ
      → QueryRelation
      → SqlAutocompleteColumn
      → List ScopedColumn
  unfolding bare_column_count scope_label_of qualified_text
  suggest_column relations context index relation column =
      let base : Text = qualifier_of relation in
      let focus : ℕ =
        if not (is_join_on context) || leb (length relations) (index + 2) then 28 else 0 in
      let gain : ℕ = focus + exact_boost context column in
      let bare : ScopedColumn = record {
        gain = gain;
        loss = 0;
        column = column;
        qualified_insert_text = none;
        qualified_label = base ++ (codes "." ++ column.name);
        scope_label = scope_label_of relation;
      } in
      let qualified : ScopedColumn = record {
        gain = gain;
        loss = index;
        column = column;
        qualified_insert_text = some (qualified_text base column.name);
        qualified_label = base ++ (codes "." ++ column.name);
        scope_label = scope_label_of relation;
      } in
      (if eqb (bare_column_count (lower column.name) relations) 1 then bare ∷ [] else [])
      ++ (if ltb 1 (length relations) || is_join_on context then qualified ∷ [] else [])

  unfoldable pub suggest_columns :
      List QueryRelation
      → CompletionClauseContext
      → ℕ
      → QueryRelation
      → List SqlAutocompleteColumn
      → List ScopedColumn
  unfolding suggest_column
  suggest_columns relations context index relation [] = []
  suggest_columns relations context index relation (column ∷ columns) =
      suggest_column relations context index relation column
      ++ suggest_columns relations context index relation columns

  unfoldable pub suggest_relations :
      List QueryRelation → CompletionClauseContext → ℕ → List QueryRelation → List ScopedColumn
  unfolding suggest_columns
  suggest_relations relations context index [] = []
  suggest_relations relations context index (relation ∷ later) =
      suggest_columns relations context index relation relation.columns
      ++ suggest_relations relations context (index + 1) later

  unfoldable pub collect_scoped_columns :
      QueryAnalysis → CompletionClauseContext → List ScopedColumn
  unfolding suggest_relations sort_by_boost
  collect_scoped_columns analysis context =
      sort_by_boost
        (suggest_relations (scope_relations analysis) context 0 (scope_relations analysis))

  -- `findHoverColumnMatch`: the column and the label of its relation.
  unfoldable pub find_hover_column :
      Text → List QueryRelation → Option (SqlAutocompleteColumn × Text)
  unfolding scope_label_of
  find_hover_column word [] = none
  find_hover_column word (relation ∷ relations) =
      let later = find_hover_column word relations in
      elim (find (λ column. text_eq (lower column.name) (lower word)) relation.columns) [
        | some column ↦ some (column, scope_label_of relation)
        | none ↦ later
      ]

  unfoldable pub find_hover_column_match :
      Text → QueryAnalysis → Option (SqlAutocompleteColumn × Text)
  unfolding find_hover_column
  find_hover_column_match word analysis =
      find_hover_column word (analysis.relations ++ analysis.ctes)

-- What a qualifier stands for.
pub record Resolution : Type 0 where
  pub columns : List SqlAutocompleteColumn
  pub expansion_insert_text : Text
  pub scope_label : Text

-- `columns.map(…).join(', ')`
unfoldable pub expansion : Text → List SqlAutocompleteColumn → Text
unfolding qualified_text
expansion qualifier [] = []
expansion qualifier (column ∷ []) = qualified_text qualifier column.name
expansion qualifier (column ∷ next ∷ columns) =
    qualified_text qualifier column.name ++ (codes ", " ++ expansion qualifier (next ∷ columns))

unfoldable pub relation_resolution : QueryRelation → Resolution
unfolding expansion scope_label_of
relation_resolution relation = record {
  columns = relation.columns;
  expansion_insert_text = expansion (qualifier_of relation) relation.columns;
  scope_label = scope_label_of relation;
}

unfoldable pub table_resolution : CatalogTable → Resolution
unfolding expansion
table_resolution table = record {
  columns = table.columns;
  expansion_insert_text = expansion table.name table.columns;
  scope_label = table.database_name ++ (codes "." ++ table.name);
}

module _ (lower : Text → Text) where
  -- `relationLookup.get(…)`, for one name.
  abbrev pub looked_up : List Text → QueryAnalysis → Option QueryRelation
  looked_up (name ∷ []) analysis =
      get (lower name) (put_relations lower (analysis.relations ++ analysis.ctes) [])
  looked_up _ analysis = none

  unfoldable pub resolve_qualified_namespace :
      List Text → QueryAnalysis → SqlCatalog → Option Text → Option Resolution
  unfolding put_relations relation_resolution table_resolution resolve_catalog_table
  resolve_qualified_namespace namespaces analysis catalog current =
      elim (looked_up namespaces analysis) [
        | some found ↦ some (relation_resolution found)
        | none ↦ elim (resolve_catalog_table lower namespaces catalog current) [
          | none ↦ none
          | some table ↦ some (table_resolution table)
        ]
      ]
