-- ===== src/Sql/Analysis/Origins.antt =====
-- The relations of a whole statement, its subqueries and common table expressions included.
use zszc_sql_client.Base.{ℕ, Option, List, All}
use zszc_sql_client.Sql.Text.{Text}
use zszc_sql_client.Sql.Maps.{TextMap}
use zszc_sql_client.Sql.Tokens.{SqlToken}
use zszc_sql_client.Sql.Analysis.{
  SqlCatalog, SqlAutocompleteSchema, QueryRelation, QueryAnalysis, build_sql_catalog,
}
use zszc_sql_client.Sql.Analysis.Queries.{
  ReadRelation, ReadRelations, read_relation, read_relations,
}
use zszc_sql_client.Sql.Analysis.Tails.{IsTail}
use zszc_sql_client.Sql.Analysis.Known.{IsKnown}

module _ (lower : Text → Text) (schemas : List SqlAutocompleteSchema) (current : Option Text) where
  abbrev catalog : SqlCatalog
  catalog = build_sql_catalog lower schemas

  module _ (sub : List SqlToken → QueryAnalysis) (cte_map : TextMap QueryRelation)
      (statement : List SqlToken) where
    abbrev IsOfStatement : QueryRelation → Type 0
    IsOfStatement = IsKnown lower schemas current statement cte_map

    abbrev AreKnown : List QueryRelation → Type 0
    AreKnown = All IsOfStatement

    -- A relation that is read is known, and what is left behind it is a tail of the statement.
    abbrev IsReadWell : ReadRelation → Type 0
    IsReadWell read = IsOfStatement read.relation × IsTail read.rest statement

    abbrev AreReadWell : ReadRelations → Type 0
    AreReadWell read = AreKnown read.relations × IsTail read.rest statement

    abbrev read_one : List SqlToken → Option ReadRelation
    read_one = read_relation sub lower catalog current cte_map

    abbrev read_more : ℕ → List SqlToken → ReadRelations
    read_more = read_relations sub lower catalog current cte_map
