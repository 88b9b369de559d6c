-- ===== src/Sql/Analysis/Projection.antt =====
-- The columns of a projection: `parseProjectionColumns` and the functions that it calls.
use zszc_sql_client.Base.{
  ℕ, ◌+◌, ◌-◌, Bool, false, not, ◌&&◌, Option, none, some, List, [], ◌∷◌, find, is_some, or_else,
  eqb, flat_map, last, if◌then◌else◌,
}
use mathlib.Core.List.{reverse}
use zszc_sql_client.Sql.Text.{Text, codes, text_eq}
use zszc_sql_client.Sql.Maps.{TextMap, get, put, values}
use zszc_sql_client.Sql.Tokens.{
  SqlToken, is_identifier_type, is_text, unquote_sql_identifier, split_top_level_tokens,
}
use zszc_sql_client.Sql.Tokens.Names.{read_qualified_identifier}
use zszc_sql_client.Sql.Analysis.{
  SqlAutocompleteColumn, QueryRelation, truthy, create_derived_column,
}

abbrev pub is_word : Text → SqlToken → Bool
is_word keyword token = text_eq token.normalized keyword

-- The loop of `readProjectionAlias`, which looks for the last `as` with a name behind it.
unfoldable pub alias_behind_as : List SqlToken → Option Text
alias_behind_as [] = none
alias_behind_as (token ∷ []) = none
alias_behind_as (token ∷ second ∷ tokens) =
    let later = alias_behind_as (second ∷ tokens) in
    if is_some later
    then later
    else if is_word (codes "as") token && is_identifier_type second.type
    then some (unquote_sql_identifier second.text)
    else none

-- A name at the end, given the tokens backwards.
unfoldable pub alias_at_end : List SqlToken → Option Text
alias_at_end [] = none
alias_at_end (token ∷ []) = none
alias_at_end (token ∷ previous ∷ tokens) =
    if is_identifier_type token.type
      && not (is_text "." previous)
      && not (is_word (codes "as") previous)
    then some (unquote_sql_identifier token.text)
    else none

unfoldable pub read_projection_alias : List SqlToken → Option Text
unfolding alias_behind_as alias_at_end
read_projection_alias item =
    let behind = alias_behind_as item in
    if is_some behind then behind else alias_at_end (reverse item)

abbrev pub column_named : Text → List SqlAutocompleteColumn → Option SqlAutocompleteColumn
column_named name = find λ column. text_eq column.name name

-- The first relation that has the column.
unfoldable pub column_of_any : Text → List QueryRelation → Option SqlAutocompleteColumn
column_of_any name [] = none
column_of_any name (relation ∷ relations) =
    let own = column_named name relation.columns in
    if is_some own then own else column_of_any name relations

module _ (lower : Text → Text) where
  abbrev pub columns_of : Text → TextMap QueryRelation → List SqlAutocompleteColumn
  columns_of name relation_map = elim (get (lower name) relation_map) [
    | none ↦ []
    | some relation ↦ relation.columns
  ]

  -- The last two of at least two names are a relation and a column.
  unfoldable pub qualified_column : List Text → TextMap QueryRelation → Option SqlAutocompleteColumn
  qualified_column [] relation_map = none
  qualified_column (a ∷ []) relation_map = none
  qualified_column (scope ∷ name ∷ []) relation_map =
      column_named name (columns_of scope relation_map)
  qualified_column (a ∷ b ∷ c ∷ names) relation_map = qualified_column (b ∷ c ∷ names) relation_map

  -- One name alone is a column of any relation.
  unfoldable pub column_by_path : List Text → TextMap QueryRelation → Option SqlAutocompleteColumn
  unfolding column_of_any qualified_column
  column_by_path (name ∷ []) relation_map = column_of_any name (values relation_map)
  column_by_path names relation_map = qualified_column names relation_map

  -- The item must be a path and nothing more.
  unfoldable pub resolve_projection_column :
      List SqlToken → TextMap QueryRelation → Option SqlAutocompleteColumn
  unfolding column_by_path read_qualified_identifier
  resolve_projection_column item relation_map = elim (read_qualified_identifier item) [
    | none ↦ none
    | some path ↦ elim path.rest [
      | [] ↦ column_by_path path.identifiers relation_map
      | token ∷ tokens ↦ none
    ]
  ]

  abbrev last_name : List SqlToken → Option SqlToken
  last_name item = find (λ token. is_identifier_type token.type) (reverse item)

  unfoldable pub infer_projection_column : List SqlToken → Option SqlAutocompleteColumn
  unfolding read_projection_alias
  infer_projection_column item = elim (truthy (read_projection_alias item)) [
    | some alias ↦ some (create_derived_column alias (codes "projection"))
    | none ↦ elim (last_name item) [
      | none ↦ none
      | some token ↦
          some (create_derived_column (unquote_sql_identifier token.text) (codes "projection"))
    ]
  ]

  -- `.*` behind a path, and the path's last name, which is not empty.
  abbrev is_star : List SqlToken → Bool
  is_star (dot ∷ star ∷ tokens) = is_text "." dot && is_text "*" star
  is_star _ = false

  abbrev is_single_star : List SqlToken → Bool
  is_single_star (token ∷ []) = is_text "*" token
  is_single_star _ = false

  abbrev columns_of_last : List Text → TextMap QueryRelation → List SqlAutocompleteColumn
  columns_of_last names relation_map = elim (truthy (last names)) [
    | none ↦ []
    | some name ↦ columns_of name relation_map
  ]

  unfoldable pub read_wildcard_projection :
      List SqlToken → TextMap QueryRelation → List SqlAutocompleteColumn
  unfolding read_qualified_identifier
  read_wildcard_projection item relation_map =
      let starred = elim (read_qualified_identifier item) as (λ _. List SqlAutocompleteColumn) [
        | none ↦ []
        | some path ↦
            if is_star path.rest then columns_of_last path.identifiers relation_map else []
      ] in
      if is_single_star item
      then flat_map (λ relation. relation.columns) (values relation_map)
      else starred

  -- The entries that one relation makes in `relationMap`: its name, and its alias.
  abbrev pub put_relation : QueryRelation → TextMap QueryRelation → TextMap QueryRelation
  put_relation relation entries = elim (truthy relation.alias) [
    | none ↦ put (lower relation.name) relation entries
    | some alias ↦ put (lower alias) relation (put (lower relation.name) relation entries)
  ]

  unfoldable pub put_relations : List QueryRelation → TextMap QueryRelation → TextMap QueryRelation
  put_relations [] entries = entries
  put_relations (relation ∷ relations) entries =
      put_relations relations (put_relation relation entries)

  -- The columns of a wildcard, those of names that are there already left out.
  unfoldable pub add_missing :
      List SqlAutocompleteColumn → TextMap SqlAutocompleteColumn → TextMap SqlAutocompleteColumn
  add_missing [] entries = entries
  add_missing (column ∷ columns) entries = add_missing columns (
      if is_some (get (lower column.name) entries)
      then entries
      else put (lower column.name) column entries)

  -- The column of an item that is no wildcard.
  unfoldable pub item_column : List SqlToken → TextMap QueryRelation → Option SqlAutocompleteColumn
  unfolding resolve_projection_column infer_projection_column read_projection_alias
  item_column item relation_map = elim (resolve_projection_column item relation_map) [
    | some column ↦ some column
    | none ↦ elim (truthy (read_projection_alias item)) [
      | some alias ↦ some (create_derived_column alias (codes "projection"))
      | none ↦ infer_projection_column item
    ]
  ]

  unfoldable pub add_item :
      TextMap QueryRelation
      → List SqlToken
      → TextMap SqlAutocompleteColumn
      → TextMap SqlAutocompleteColumn
  unfolding read_wildcard_projection add_missing item_column read_projection_alias
  add_item relation_map [] entries = entries
  add_item relation_map (token ∷ tokens) entries =
      elim (read_wildcard_projection (token ∷ tokens) relation_map) [
        | column ∷ columns ↦ add_missing (column ∷ columns) entries
        | [] ↦ elim (item_column (token ∷ tokens) relation_map) [
          | none ↦ entries
          | some column ↦
              put (lower column.name)
                (record column {
                  name = or_else (read_projection_alias (token ∷ tokens)) column.name;
                })
                entries
        ]
      ]

  unfoldable pub add_items :
      TextMap QueryRelation
      → List (List SqlToken)
      → TextMap SqlAutocompleteColumn
      → TextMap SqlAutocompleteColumn
  add_items relation_map [] entries = entries
  add_items relation_map (item ∷ items) entries =
      add_items relation_map items (add_item relation_map item entries)

-- The tokens behind the first `select` outside parentheses, none if there is none.
unfoldable pub behind_select : ℕ → List SqlToken → Option (List SqlToken)
behind_select nesting [] = none
behind_select nesting (token ∷ tokens) =
    let opened = behind_select (nesting + 1) tokens in
    let closed = behind_select (nesting - 1) tokens in
    let same = behind_select nesting tokens in
    if is_text "(" token
    then opened
    else if is_text ")" token
    then closed
    else if eqb nesting 0 && is_word (codes "select") token
    then some tokens
    else same

-- The tokens before the first `from` outside parentheses, all if there is none.
unfoldable pub before_from : ℕ → List SqlToken → List SqlToken
before_from nesting [] = []
before_from nesting (token ∷ tokens) =
    let opened = token ∷ before_from (nesting + 1) tokens in
    let closed = token ∷ before_from (nesting - 1) tokens in
    let same = token ∷ before_from nesting tokens in
    if is_text "(" token
    then opened
    else if is_text ")" token
    then closed
    else if eqb nesting 0 && is_word (codes "from") token
    then []
    else same

unfoldable pub parse_projection_columns :
    (Text → Text) → List SqlToken → List QueryRelation → List SqlAutocompleteColumn
unfolding behind_select before_from put_relations add_items split_top_level_tokens
parse_projection_columns lower tokens relations = elim (behind_select 0 tokens) [
  | none ↦ []
  | some behind ↦ values (
      add_items lower (put_relations lower relations [])
        (split_top_level_tokens (before_from 0 behind) (codes ",")) [])
]
