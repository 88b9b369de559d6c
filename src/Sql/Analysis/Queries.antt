-- ===== src/Sql/Analysis/Queries.antt =====
-- `analyzeSqlTokens` with `parseCtes`, `parseRelations` and `readRelation`.
-- A subquery is analyzed by `sub`, which `analyze_at` ties to itself at the next depth; each of the loops
-- has the number of its tokens as fuel.
use zszc_sql_client.Base.{
  ℕ, zero, suc, ◌+◌, ◌-◌, String, ◌&&◌, ◌||◌, Option, none, some, List, [], ◌∷◌, ◌++◌, map, eqb,
  length, or_else, if◌then◌else◌,
}
use zszc_sql_client.Sql.Text.{Text, codes}
use zszc_sql_client.Sql.Maps.{TextMap, put}
use zszc_sql_client.Sql.Tokens.{
  SqlToken, is_identifier_type, is_text, unquote_sql_identifier, read_parenthesized_tokens,
  tokenize_sql,
}
use zszc_sql_client.Sql.Tokens.Names.{
  read_qualified_identifier, read_identifier_list, read_alias_token, Alias, is_among,
}
use zszc_sql_client.Sql.Analysis.{
  SqlAutocompleteColumn, SqlCatalog, QueryRelation, QueryAnalysis, cte, subquery,
  create_derived_column, resolve_relation_from_path,
}
use zszc_sql_client.Sql.Analysis.Projection.{is_word, parse_projection_columns}

abbrev pub join_stop_keywords : List String
join_stop_keywords =
    "where" ∷ "group" ∷ "having" ∷ "order" ∷ "limit" ∷ "offset" ∷ "fetch" ∷ "union" ∷ "intersect"
    ∷ "except" ∷ "returning" ∷ []

-- What `readRelation` returns.
pub record ReadRelation : Type 0 where
  pub relation : QueryRelation
  pub rest : List SqlToken

-- What the loop behind `from` returns.
pub record ReadRelations : Type 0 where
  pub relations : List QueryRelation
  pub rest : List SqlToken

abbrev pub with_relation : QueryRelation → ReadRelations → ReadRelations
with_relation relation p = record { relations = relation ∷ p.relations; rest = p.rest }

-- The tokens behind a comma, if one comes next.
abbrev pub behind_comma : List SqlToken → Option (List SqlToken)
behind_comma [] = none
behind_comma (token ∷ tokens) = if is_text "," token then some tokens else none

abbrev pub alias_name : Option Alias → Option Text
alias_name none = none
alias_name (some alias) = some alias.name

abbrev pub alias_rest : Option Alias → List SqlToken → List SqlToken
alias_rest none rest = rest
alias_rest (some alias) rest = alias.rest

-- One round of the loop of `parseCtes`: it stops at some tokens, or pushes an expression.
pub data CteRound : Type 0 where
  stops : List SqlToken → CteRound
  pushes_cte : QueryRelation → List SqlToken → CteRound

-- The column list of an expression: there is none, or it is read.
pub record CteColumns : Type 0 where
  pub columns : List SqlAutocompleteColumn
  pub rest : List SqlToken

unfoldable pub read_cte_columns : List SqlToken → CteColumns
unfolding read_identifier_list create_derived_column
read_cte_columns [] = record { columns = []; rest = [] }
read_cte_columns (token ∷ tokens) =
    let listed = read_identifier_list (token ∷ tokens) in
    if is_text "(" token
    then record {
      columns = map (λ name. create_derived_column name (codes "cte")) listed.identifiers;
      rest = listed.rest;
    }
    else record { columns = []; rest = token ∷ tokens }

abbrev pub cte_relation :
    Text → List SqlAutocompleteColumn → List SqlAutocompleteColumn → QueryRelation
cte_relation name [] inferred = record {
  source_kind = cte;
  name = name;
  database_name = none;
  alias = none;
  columns = inferred;
}
cte_relation name (column ∷ columns) inferred = record {
  source_kind = cte;
  name = name;
  database_name = none;
  alias = none;
  columns = column ∷ columns;
}

module _ (sub : List SqlToken → QueryAnalysis) where
  -- From the `as` on.
  unfoldable pub read_cte_body : Text → List SqlAutocompleteColumn → List SqlToken → CteRound
  unfolding read_parenthesized_tokens
  read_cte_body name columns [] = stops []
  read_cte_body name columns (token ∷ tokens) = elim (read_parenthesized_tokens tokens) [
    | none ↦ stops (token ∷ tokens)
    | some inside ↦
        if is_word (codes "as") token
        then pushes_cte (cte_relation name columns (sub inside.inner_tokens).projection_columns)
            inside.rest
        else stops (token ∷ tokens)
  ]

  unfoldable pub read_cte : List SqlToken → CteRound
  unfolding read_cte_columns read_cte_body
  read_cte [] = stops []
  read_cte (token ∷ tokens) =
      let listed = read_cte_columns tokens in
      if is_identifier_type token.type
      then read_cte_body (unquote_sql_identifier token.text) listed.columns listed.rest
      else stops (token ∷ tokens)

  unfoldable pub read_ctes : ℕ → List SqlToken → ReadRelations
  unfolding read_cte
  read_ctes zero tokens = record { relations = []; rest = tokens }
  read_ctes (suc fuel) tokens = elim (read_cte tokens) [
    | stops rest ↦ record { relations = []; rest = rest }
    | pushes_cte relation rest ↦ elim (behind_comma rest) [
      | none ↦ record { relations = relation ∷ []; rest = rest }
      | some next ↦ with_relation relation (read_ctes fuel next)
    ]
  ]

  -- Behind `with`: `recursive` is passed over.
  abbrev pub behind_recursive : List SqlToken → List SqlToken
  behind_recursive [] = []
  behind_recursive (token ∷ tokens) =
      if is_word (codes "recursive") token then tokens else token ∷ tokens

  unfoldable pub parse_ctes : List SqlToken → ReadRelations
  unfolding read_ctes
  parse_ctes [] = record { relations = []; rest = [] }
  parse_ctes (token ∷ tokens) =
      if is_word (codes "with") token
      then read_ctes (length tokens) (behind_recursive tokens)
      else record { relations = []; rest = token ∷ tokens }

  abbrev pub subquery_relation : Option Alias → List SqlToken → QueryRelation
  subquery_relation alias inner = record {
    source_kind = subquery;
    name = or_else (alias_name alias) (codes "subquery");
    database_name = none;
    alias = alias_name alias;
    columns = (sub inner).projection_columns;
  }

  module _ (lower : Text → Text) (catalog : SqlCatalog) (current : Option Text)
      (cte_map : TextMap QueryRelation) where
    -- A path of names, which must resolve.
    unfoldable pub read_named_relation : List SqlToken → Option ReadRelation
    unfolding read_qualified_identifier read_alias_token resolve_relation_from_path
    read_named_relation tokens = elim (read_qualified_identifier tokens) [
      | none ↦ none
      | some path ↦
          let alias = read_alias_token lower path.rest in
          elim (resolve_relation_from_path lower path.identifiers (alias_name alias) catalog current
            cte_map) [
              | none ↦ none
              | some relation ↦
                  some (record { relation = relation; rest = alias_rest alias path.rest })
            ]
    ]

    unfoldable pub read_relation : List SqlToken → Option ReadRelation
    unfolding read_parenthesized_tokens read_alias_token read_named_relation
    read_relation tokens = elim (read_parenthesized_tokens tokens) [
      | none ↦ read_named_relation tokens
      | some inside ↦
          let alias = read_alias_token lower inside.rest in
          some (record {
            relation = subquery_relation alias inside.inner_tokens;
            rest = alias_rest alias inside.rest;
          })
    ]

    -- The loop behind `from` or `join`.
    unfoldable pub read_relations : ℕ → List SqlToken → ReadRelations
    unfolding read_relation
    read_relations zero tokens = record { relations = []; rest = tokens }
    read_relations (suc fuel) tokens = elim (read_relation tokens) [
      | none ↦ record { relations = []; rest = tokens }
      | some read ↦ elim (behind_comma read.rest) [
        | none ↦ record { relations = read.relation ∷ []; rest = read.rest }
        | some next ↦ with_relation read.relation (read_relations fuel next)
      ]
    ]

    -- The loop of `parseRelations`.
    unfoldable pub relations_from : ℕ → ℕ → List SqlToken → List QueryRelation
    unfolding read_relations
    relations_from zero nesting tokens = []
    relations_from (suc fuel) nesting [] = []
    relations_from (suc fuel) nesting (token ∷ tokens) =
        let opened = relations_from fuel (nesting + 1) tokens in
        let closed = relations_from fuel (nesting - 1) tokens in
        let read = read_relations (length tokens) tokens in
        let listed = read.relations ++ relations_from fuel nesting read.rest in
        let same = relations_from fuel nesting tokens in
        if is_text "(" token
        then opened
        else if is_text ")" token
        then closed
        else if eqb nesting 0 && (is_word (codes "from") token || is_word (codes "join") token)
        then listed
        else if eqb nesting 0 && is_among join_stop_keywords token.normalized
        then []
        else same

    unfoldable pub parse_relations : List SqlToken → List QueryRelation
    unfolding relations_from
    parse_relations tokens = relations_from (length tokens) 0 tokens

abbrev pub empty_analysis : QueryAnalysis
empty_analysis = record { ctes = []; relations = []; projection_columns = [] }

-- `new Map(ctes.map(…))`, into a map that has entries.
unfoldable pub cte_entries :
    (Text → Text) → List QueryRelation → TextMap QueryRelation → TextMap QueryRelation
cte_entries lower [] entries = entries
cte_entries lower (relation ∷ relations) entries =
    cte_entries lower relations (put (lower relation.name) relation entries)

module _ (lower : Text → Text) (catalog : SqlCatalog) (current : Option Text) where
  -- The analysis with so many depths left: `depth > 4` is none left.
  unfoldable pub analyze_at : ℕ → List SqlToken → QueryAnalysis
  unfolding parse_ctes parse_relations parse_projection_columns cte_entries
  analyze_at zero tokens = empty_analysis
  analyze_at (suc depths) tokens =
      let read = parse_ctes (analyze_at depths) tokens in
      let relations =
        parse_relations (analyze_at depths) lower catalog current
          (cte_entries lower read.relations []) read.rest in
      elim tokens [
        | [] ↦ empty_analysis
        | token ∷ rest ↦ record {
          ctes = read.relations;
          relations = relations;
          projection_columns = parse_projection_columns lower read.rest relations;
        }
      ]

  unfoldable pub analyze_sql_statement : Text → QueryAnalysis
  unfolding analyze_at
  analyze_sql_statement sql_text = analyze_at 5 (tokenize_sql lower sql_text)
