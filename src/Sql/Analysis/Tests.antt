-- ===== src/Sql/Analysis/Tests.antt =====
-- Statements on one schema with one table.
use zszc_sql_client.Base.{◌≡◌, String, true, false, none, List, [], ◌∷◌, length, arith}
use zszc_sql_client.Sql.Text.{Text, codes}
use zszc_sql_client.Sql.Tokens.{SqlToken, TokenType}
use zszc_sql_client.Sql.Analysis.{
  SqlAutocompleteColumn, SqlAutocompleteSchema, QueryAnalysis, build_sql_catalog,
}
use zszc_sql_client.Sql.Analysis.Queries.{
  empty_analysis, read_ctes, relations_from, parse_relations,
}
use zszc_sql_client.Sql.Analysis.Ends.{analysis_loops_end}

abbrev lower : Text → Text
lower s = s

abbrev id_column : SqlAutocompleteColumn
id_column = record {
  name = codes "id";
  data_type = codes "int";
  nullable = false;
  primary_key = true;
  auto_increment = true;
  comment = [];
}

abbrev schemas : List SqlAutocompleteSchema
schemas =
    record {
      profile_id = codes "p";
      database_name = codes "db";
      tables = record { name = codes "users"; columns = id_column ∷ [] } ∷ [];
    }
    ∷ []

abbrev statement : Text
statement = codes "with x as (select id from users) select * from x, db.users u"

abbrev word : String → SqlToken
word text = record { type = TokenType.word; text = codes text; normalized = codes text }

abbrev tokens : List SqlToken
tokens = word "from" ∷ word "users" ∷ []

abbrev nothing_inside : List SqlToken → QueryAnalysis
nothing_inside _ = empty_analysis

analysis_loops_end_example :
    let catalog = build_sql_catalog lower schemas in
    (read_ctes nothing_inside 5 tokens ≡ read_ctes nothing_inside (length tokens) tokens)
    × (relations_from nothing_inside lower catalog none [] 5 0 tokens
        ≡ parse_relations nothing_inside lower catalog none [] tokens)
analysis_loops_end_example =
    analysis_loops_end nothing_inside lower (build_sql_catalog lower schemas) none [] 5 tokens
      (omega arith)
