-- ===== src/Sql/Completion/Bare.antt =====
-- Every column in scope is offered without a qualifier.
use zszc_sql_client.Base.{
  ℕ, ◌+◌, ◌≡◌, refl, ◌∙◌, sym, Bool, true, false, ◌||◌, List, [], ◌∷◌, ◌++◌, any, All, All-imp,
  arith, Bool-cases, inl, inr, eqb, ltb, length,
}
use zszc_sql_client.Sql.Text.{Text, text_eq, codes, text_eq_refl}
use zszc_sql_client.Sql.Tokens.{quote_sql_identifier}
use zszc_sql_client.Sql.Analysis.{SqlAutocompleteColumn, QueryRelation, QueryAnalysis}
use zszc_sql_client.Sql.Completion.{
  CompletionClauseContext, ScopedColumn, bare_column_count, suggest_column, suggest_columns,
  suggest_relations, insert_sorted, sort_by_boost, scope_relations, collect_scoped_columns,
}
use zszc_sql_client.Sql.Completion.Items.{
  CompletionItem, is_seen, scoped_column_items, scoped_columns_items,
  build_scoped_column_suggestions,
}
use zszc_sql_client.Sql.Completion.Dedupe.{keys, dedupe_completion_items_lem}

-- What makes the key of the item that offers a column without a qualifier.
abbrev pub bare_key : SqlAutocompleteColumn → Text
bare_key column = column.name ++ (codes "::" ++ quote_sql_identifier column.name)

abbrev offers : Text → ScopedColumn → Bool
offers key item = text_eq (bare_key item.column) key

or_assoc : (a b c : Bool) → (a || (b || c)) ≡ ((a || b) || c)
or_assoc true b c = refl
or_assoc false b c = refl

or_false : {a b : Bool} → a ≡ false → (a || b) ≡ b
or_false {a} {b} h = rw h refl

any-append {ℓ} :
    {A : Type ℓ} (p : A → Bool) (xs ys : List A) → any p (xs ++ ys) ≡ (any p xs || any p ys)
any-append p [] ys = refl
any-append p (x ∷ xs) ys = rw (any-append p xs ys) (or_assoc (p x) (any p xs) (any p ys))

any-insert :
    (p : ScopedColumn → Bool) (item : ScopedColumn) (items : List ScopedColumn)
    → any p (insert_sorted item items) ≡ (p item || any p items)
unfolding insert_sorted
any-insert p item [] = refl
any-insert p item (other ∷ items) = ground (arith, any-insert p item items)

any-sort :
    (p : ScopedColumn → Bool) (items : List ScopedColumn)
    → any p (sort_by_boost items) ≡ any p items
unfolding sort_by_boost
any-sort p [] = refl
any-sort p (item ∷ items) = rw (any-insert p item (sort_by_boost items), any-sort p items)

seen-behind :
    (xs ys : List CompletionItem) (key : Text)
    → is_seen (keys ys) key ≡ true
    → is_seen (keys (xs ++ ys)) key ≡ true
seen-behind [] ys key h = h
seen-behind (x ∷ xs) ys key h = ground (arith, seen-behind xs ys key h)

seen-before :
    (xs ys : List CompletionItem) (key : Text)
    → is_seen (keys xs) key ≡ true
    → is_seen (keys (xs ++ ys)) key ≡ true
seen-before [] ys key h = absurd (ground arith)
seen-before (x ∷ xs) ys key h = ground (arith, seen-before xs ys key)

either-true : (a b : Bool) → (a ≡ false → b ≡ true) → (a || b) ≡ true
either-true true b h = refl
either-true false b h = h refl

-- Whatever the boosts, a collected column makes an item without a qualifier.
items-seen :
    (index : ℕ) (items : List ScopedColumn) (key : Text)
    → any (offers key) items ≡ true
    → is_seen (keys (scoped_columns_items index items)) key ≡ true
unfolding scoped_columns_items scoped_column_items
items-seen index [] key h = absurd (ground arith)
items-seen index (item ∷ items) key h = either-true (offers key item) _ λ other.
    seen-behind _ (scoped_columns_items (index + 1) items) key
      (items-seen (index + 1) items key (sym (or_false other) ∙ h))

module _ (lower : Text → Text) (relations : List QueryRelation) (context : CompletionClauseContext)
    (several : ltb 1 (length relations) ≡ true) where
  column-IsOffered :
      (index : ℕ) (relation : QueryRelation) (column : SqlAutocompleteColumn)
      → any
          (offers (bare_key column))
          (suggest_column lower relations context index relation column)
        ≡ true
  unfolding suggest_column
  column-IsOffered index relation column =
      let count = bare_column_count lower (lower column.name) relations in
      elim (Bool-cases (eqb count 1)) [
        | inl one ↦ rw (one, several, text_eq_refl (bare_key column))
        | inr many ↦ rw (many, several, text_eq_refl (bare_key column))
      ]

  abbrev Offered : List ScopedColumn → SqlAutocompleteColumn → Type 0
  Offered items column = any (offers (bare_key column)) items ≡ true

  Offered-before :
      (xs ys : List ScopedColumn) (column : SqlAutocompleteColumn)
      → Offered xs column
      → Offered (xs ++ ys) column
  Offered-before xs ys column h = any-append (offers (bare_key column)) xs ys ∙ rw h refl

  Offered-behind :
      (xs ys : List ScopedColumn) (column : SqlAutocompleteColumn)
      → Offered ys column
      → Offered (xs ++ ys) column
  Offered-behind xs ys column h =
      any-append (offers (bare_key column)) xs ys ∙ either-true _ _ λ other. h

  columns-AreOffered :
      (index : ℕ) (relation : QueryRelation) (columns : List SqlAutocompleteColumn)
      → All (Offered (suggest_columns lower relations context index relation columns)) columns
  unfolding suggest_columns
  columns-AreOffered index relation [] = tt
  columns-AreOffered index relation (column ∷ columns) = (
    Offered-before _ _ column (column-IsOffered index relation column),
    All-imp (Offered (suggest_columns lower relations context index relation columns)) _
        (Offered-behind (suggest_column lower relations context index relation column) _) columns
        (columns-AreOffered index relation columns),
  )

  abbrev AllOffered : List ScopedColumn → QueryRelation → Type 0
  AllOffered items relation = All (Offered items) relation.columns

  relations-AreOffered :
      (index : ℕ) (later : List QueryRelation)
      → All (AllOffered (suggest_relations lower relations context index later)) later
  unfolding suggest_relations
  relations-AreOffered index [] = tt
  relations-AreOffered index (relation ∷ later) =
      let own = suggest_columns lower relations context index relation relation.columns in
      let rest = suggest_relations lower relations context (index + 1) later in
      (
        All-imp (Offered own) (Offered (own ++ rest)) (Offered-before own rest) relation.columns
            (columns-AreOffered index relation relation.columns),
        All-imp (AllOffered rest) (AllOffered (own ++ rest))
            (λ r.
              All-imp (Offered rest) (Offered (own ++ rest)) (Offered-behind own rest) r.columns)
            later (relations-AreOffered (index + 1) later),
      )

-- Where at least two relations are in scope, each of their columns is among the items without a qualifier,
-- also where its name is that of a column of another relation.
pub every_column_is_offered_bare :
    (lower : Text → Text) (analysis : QueryAnalysis) (context : CompletionClauseContext)
    → ltb 1 (length (scope_relations analysis)) ≡ true
    → All
        (λ relation.
          All
            (λ column.
              is_seen
                (keys (build_scoped_column_suggestions lower analysis context))
                (bare_key column)
              ≡ true)
            relation.columns)
        (scope_relations analysis)
unfolding build_scoped_column_suggestions collect_scoped_columns
every_column_is_offered_bare lower analysis context several =
    let relations = scope_relations analysis in
    let items = suggest_relations lower relations context 0 relations in
    All-imp (AllOffered lower relations context several items) _
      (λ relation.
        All-imp (Offered lower relations context several items) _
          (λ column h.
            (dedupe_completion_items_lem _ (bare_key column)).1
            ∙ seen-before (scoped_columns_items 0 (sort_by_boost items)) _ (bare_key column) (
                items-seen 0 (sort_by_boost items) (bare_key column)
                  (any-sort (offers (bare_key column)) items ∙ h)))
          relation.columns)
      relations (relations-AreOffered lower relations context several 0 relations)
