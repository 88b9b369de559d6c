-- ===== src/Sql/Completion/Scoped.antt =====
-- Which columns are collected without a qualifier, where several relations are in scope.
use zszc_sql_client.Base.{
  filter, Bool, false, arith, ap, sym, ◌∙◌, length-append, flat_map, if◌then◌else◌, ◌++◌, ℕ, ◌+◌,
  ◌≡◌, refl, true, ◌||◌, List, [], ◌∷◌, All, All-append, Bool-cases, inl, inr, is_some, eqb, ltb,
  length,
}
use zszc_sql_client.Sql.Text.{text_eq, Text}
use zszc_sql_client.Sql.Analysis.{SqlAutocompleteColumn, QueryRelation, QueryAnalysis}
use zszc_sql_client.Sql.Completion.{
  count_in, CompletionClauseContext, ScopedColumn, bare_column_count, suggest_column,
  suggest_columns, suggest_relations, insert_sorted, sort_by_boost, scope_relations,
  collect_scoped_columns, is_join_on, comes_first,
}

filter-append {ℓ} :
    {A : Type ℓ} (p : A → Bool) (xs ys : List A) → filter p (xs ++ ys) ≡ filter p xs ++ filter p ys
filter-append p [] ys = refl
filter-append p (x ∷ xs) ys = elim (Bool-cases (p x)) [
  | inl kept ↦ rw kept (ap (λ l. x ∷ l) (filter-append p xs ys))
  | inr dropped ↦ rw dropped (filter-append p xs ys)
]

module _ (lower : Text → Text) where
  -- The columns of all relations that have a name, upper and lower case taken together.
  abbrev pub columns_named : Text → List QueryRelation → List SqlAutocompleteColumn
  columns_named name relations =
      filter (λ column. text_eq (lower column.name) (lower name))
        (flat_map (λ relation. relation.columns) relations)

  named_first :
      (b : Bool) (n : ℕ) (column : SqlAutocompleteColumn) (later : List SqlAutocompleteColumn)
      → n ≡ length later
      → (if b then n + 1 else n) ≡ length (if b then column ∷ later else later)
  named_first true n column later e = omega arith
  named_first false n column later e = e

  count_in_lem :
      (name : Text) (columns : List SqlAutocompleteColumn)
      → count_in lower (lower name) columns
        ≡ length (filter (λ column. text_eq (lower column.name) (lower name)) columns)
  unfolding count_in
  count_in_lem name [] = refl
  count_in_lem name (column ∷ columns) =
      named_first (text_eq (lower column.name) (lower name)) _ column _ (count_in_lem name columns)

  -- The count by relation is that of all columns in one list.
  bare_column_count_lem :
      (name : Text) (relations : List QueryRelation)
      → bare_column_count lower (lower name) relations ≡ length (columns_named name relations)
  unfolding bare_column_count
  bare_column_count_lem name [] = refl
  bare_column_count_lem name (relation ∷ relations) = omega (
    arith,
    count_in_lem name relation.columns,
    bare_column_count_lem name relations,
    ap length (
        filter-append (λ column. text_eq (lower column.name) (lower name)) relation.columns
          (flat_map (λ r. r.columns) relations)),
    length-append (filter (λ column. text_eq (lower column.name) (lower name)) relation.columns)
        (columns_named name relations),
  )

  -- A suggestion has a qualifier, or its column's name is that of one column in scope.
  abbrev pub IsUnambiguous : List QueryRelation → ScopedColumn → Type 0
  IsUnambiguous relations item =
      is_some item.qualified_insert_text
        || eqb (length (columns_named item.column.name relations)) 1
      ≡ true

  module _ (relations : List QueryRelation) (context : CompletionClauseContext) where
    suggest_column-IsUnambiguous :
        (index : ℕ) (relation : QueryRelation) (column : SqlAutocompleteColumn)
        → All
            (IsUnambiguous relations)
            (suggest_column lower relations context index relation column)
    unfolding suggest_column
    suggest_column-IsUnambiguous index relation column =
        let one = bare_column_count lower (lower column.name) relations in
        elim (Bool-cases (eqb one 1)) [
          | inl bare ↦
              let named : eqb (length (columns_named column.name relations)) 1 ≡ true =
                ap (λ n. eqb n 1) (sym (bare_column_count_lem column.name relations)) ∙ bare in
              elim (Bool-cases (ltb 1 (length relations) || is_join_on context)) [
                | inl several ↦ rw (bare, several) (named, (refl, tt))
                | inr alone ↦ rw (bare, alone) (named, tt)
              ]
          | inr many ↦ elim (Bool-cases (ltb 1 (length relations) || is_join_on context)) [
            | inl several ↦ rw (many, several) (refl, tt)
            | inr alone ↦ rw (many, alone) tt
          ]
        ]

    suggest_columns-AreUnambiguous :
        (index : ℕ) (relation : QueryRelation) (columns : List SqlAutocompleteColumn)
        → All
            (IsUnambiguous relations)
            (suggest_columns lower relations context index relation columns)
    unfolding suggest_columns
    suggest_columns-AreUnambiguous index relation [] = tt
    suggest_columns-AreUnambiguous index relation (column ∷ columns) =
        All-append (IsUnambiguous relations) _ _
          (suggest_column-IsUnambiguous index relation column)
          (suggest_columns-AreUnambiguous index relation columns)

    suggest_relations-AreUnambiguous :
        (index : ℕ) (later : List QueryRelation)
        → All (IsUnambiguous relations) (suggest_relations lower relations context index later)
    unfolding suggest_relations
    suggest_relations-AreUnambiguous index [] = tt
    suggest_relations-AreUnambiguous index (relation ∷ later) =
        All-append (IsUnambiguous relations) _ _
          (suggest_columns-AreUnambiguous index relation relation.columns)
          (suggest_relations-AreUnambiguous (index + 1) later)

All-insert {ℓ} :
    (P : ScopedColumn → Type ℓ) (item : ScopedColumn) (items : List ScopedColumn)
    → P item
    → All P items
    → All P (insert_sorted item items)
unfolding insert_sorted
All-insert P item [] h k = (h, tt)
All-insert P item (other ∷ items) h k = elim (Bool-cases (comes_first item other)) [
  | inl first ↦ rw first (h, k)
  | inr after ↦ rw after (k.0, All-insert P item items h k.1)
]

All-sort {ℓ} :
    (P : ScopedColumn → Type ℓ) (items : List ScopedColumn)
    → All P items
    → All P (sort_by_boost items)
unfolding sort_by_boost
All-sort P [] h = tt
All-sort P (item ∷ items) h = All-insert P item _ h.0 (All-sort P items h.1)

-- A column is collected without a qualifier only where it is the one column of its name, but for case, among
-- all columns of the relations in scope, listed one after the other.
pub collect_scoped_columns-AreUnambiguous :
    (lower : Text → Text) (analysis : QueryAnalysis) (context : CompletionClauseContext)
    → All
        (IsUnambiguous lower (scope_relations analysis))
        (collect_scoped_columns lower analysis context)
unfolding collect_scoped_columns
collect_scoped_columns-AreUnambiguous lower analysis context =
    let relations = scope_relations analysis in
    All-sort (IsUnambiguous lower relations) _
      (suggest_relations-AreUnambiguous lower relations context 0 relations)
