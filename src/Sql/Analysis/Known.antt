-- ===== src/Sql/Analysis/Known.antt =====
-- Where the relations of a statement come from.
use zszc_sql_client.Base.{◌≡◌, refl, subst, Option, none, some, List, [], ◌∷◌, arith}
use mathlib.Core.Option.{some_inj}
use zszc_sql_client.Sql.Text.{Text}
use zszc_sql_client.Sql.Tokens.{SqlToken, Parenthesized, read_parenthesized_tokens}
use zszc_sql_client.Sql.Tokens.Names.{Identifiers, read_qualified_identifier, read_alias_token}
use zszc_sql_client.Sql.Analysis.Queries.{alias_name}
use zszc_sql_client.Sql.Analysis.Tails.{IsTail}
use zszc_sql_client.Sql.Maps.{TextMap, get}
use zszc_sql_client.Sql.Analysis.{
  SqlAutocompleteSchema, CatalogTable, SqlCatalog, QueryRelation, build_sql_catalog,
  resolve_catalog_table, table_relation, named_cte, resolve_relation_from_path, truthy, subquery,
  table, catalog_relation,
}
use zszc_sql_client.Sql.Analysis.Sources.{IsFoundAt, resolve_catalog_table-IsFoundAt}

module _ (lower : Text → Text) (schemas : List SqlAutocompleteSchema) where
  abbrev catalog : SqlCatalog
  catalog = build_sql_catalog lower schemas

  -- Whether a path is the name of a common table expression, or of none: only a path of one name can be.
  abbrev IsCte : TextMap QueryRelation → List Text → QueryRelation → Type 0
  IsCte cte_map [] found = ⊥
  IsCte cte_map (name ∷ []) found = get (lower name) cte_map ≡ some found
  IsCte cte_map (a ∷ b ∷ names) found = ⊥

  abbrev IsNoCte : TextMap QueryRelation → List Text → Type 0
  IsNoCte cte_map [] = Unit
  IsNoCte cte_map (name ∷ []) = get (lower name) cte_map ≡ none
  IsNoCte cte_map (a ∷ b ∷ names) = Unit

  named_cte-IsCte :
      (cte_map : TextMap QueryRelation) (names : List Text) (found : QueryRelation)
      → named_cte lower names cte_map ≡ some found
      → IsCte cte_map names found
  named_cte-IsCte cte_map [] found h = absurd (ground arith)
  named_cte-IsCte cte_map (name ∷ []) found h = h
  named_cte-IsCte cte_map (a ∷ b ∷ names) found h = absurd (ground arith)

  named_cte-IsNoCte :
      (cte_map : TextMap QueryRelation) (names : List Text)
      → named_cte lower names cte_map ≡ none
      → IsNoCte cte_map names
  named_cte-IsNoCte cte_map [] h = tt
  named_cte-IsNoCte cte_map (name ∷ []) h = h
  named_cte-IsNoCte cte_map (a ∷ b ∷ names) h = tt

  -- What a relation of a statement is. At some place of the statement's tokens a path of names is read, with
  -- the alias behind it, and it is the expression that the path names, or a table of the schemas that is
  -- found by the path, when this names no expression; or a parenthesis stands there, and it is a subquery.
  pub data IsKnown (current : Option Text) (statement : List SqlToken)
      (cte_map : TextMap QueryRelation) : QueryRelation → Type 0 where
    of_table :
        (tokens : List SqlToken) (path : Identifiers) (found : CatalogTable)
        → IsTail tokens statement
        → read_qualified_identifier tokens ≡ some path
        → IsNoCte cte_map path.identifiers
        → IsFoundAt lower schemas (truthy current) path.identifiers found
        → IsKnown current statement cte_map (record {
          source_kind = table;
          name = found.name;
          database_name = some found.database_name;
          alias = alias_name (read_alias_token lower path.rest);
          columns = found.columns;
        })
    of_cte :
        (tokens : List SqlToken) (path : Identifiers) (found : QueryRelation)
        → IsTail tokens statement
        → read_qualified_identifier tokens ≡ some path
        → IsCte cte_map path.identifiers found
        → IsKnown current statement cte_map
            (record found { alias = alias_name (read_alias_token lower path.rest) })
    of_subquery :
        (tokens : List SqlToken) (inside : Parenthesized) (relation : QueryRelation)
        → IsTail tokens statement
        → read_parenthesized_tokens tokens ≡ some inside
        → relation.source_kind ≡ subquery
        → relation.alias ≡ alias_name (read_alias_token lower inside.rest)
        → IsKnown current statement cte_map relation

  module _ (current : Option Text) (cte_map : TextMap QueryRelation)
      (statement tokens : List SqlToken) (path : Identifiers) (t : IsTail tokens statement)
      (r : read_qualified_identifier tokens ≡ some path) where
    abbrev alias_behind : Option Text
    alias_behind = alias_name (read_alias_token lower path.rest)

    catalog-IsKnown :
        (relation : QueryRelation) (o : Option CatalogTable)
        → named_cte lower path.identifiers cte_map ≡ none
        → resolve_catalog_table lower path.identifiers catalog current ≡ o
        → elim o as (λ _. Option QueryRelation) [
          | none ↦ none
          | some found ↦ some (table_relation lower alias_behind found)
        ]
          ≡ some relation
        → IsKnown current statement cte_map relation
    catalog-IsKnown relation none n e h = absurd (ground arith)
    catalog-IsKnown relation (some found) n e h =
        subst (IsKnown current statement cte_map) (some_inj.0 h) (
          of_table tokens path found t r (named_cte-IsNoCte cte_map path.identifiers n)
            (resolve_catalog_table-IsFoundAt lower schemas path.identifiers current found e))

    path-IsKnown :
        (relation : QueryRelation) (o : Option QueryRelation)
        → named_cte lower path.identifiers cte_map ≡ o
        → elim o as (λ _. Option QueryRelation) [
          | some found ↦ some (record found { alias = alias_behind })
          | none ↦ catalog_relation lower path.identifiers alias_behind catalog current
        ]
          ≡ some relation
        → IsKnown current statement cte_map relation
    path-IsKnown relation none n h =
        catalog-IsKnown relation (resolve_catalog_table lower path.identifiers catalog current) n
          refl h
    path-IsKnown relation (some found) n h =
        subst (IsKnown current statement cte_map) (some_inj.0 h)
          (of_cte tokens path found t r (named_cte-IsCte cte_map path.identifiers found n))

    pub resolve-IsKnown :
        (relation : QueryRelation)
        → resolve_relation_from_path lower path.identifiers alias_behind catalog current cte_map
          ≡ some relation
        → IsKnown current statement cte_map relation
    unfolding resolve_relation_from_path
    resolve-IsKnown relation h =
        path-IsKnown relation (named_cte lower path.identifiers cte_map) refl h
