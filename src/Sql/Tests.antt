-- ===== src/Sql/Tests.antt =====
-- Short statements.
use zszc_sql_client.Base.{
  ◌≡◌, ◌-◌, refl, String, false, some, List, [], ◌∷◌, ◌++◌, take, length, arith,
}
use zszc_sql_client.Sql.Text.{Text, codes, is_space}
use zszc_sql_client.Sql.Statement.{
  find_bounds, is_terminator, advance, nest, scan_start, scan_to, statement_bounds,
  is_inside_quoted_region, extract_current_statement,
}
use zszc_sql_client.Sql.Statement.Cursor.{before_cursor_text-eq}
use zszc_sql_client.Sql.Statement.Regions.{statement_start-fresh}
use zszc_sql_client.Sql.Tokens.{
  tokenize_from, read_token, is_word_start, read_while, is_word_char, is_digit, is_punctuation,
  read_until_line_end, split_from, SqlToken, TokenType, tokenize_sql, quote_identifier,
  unquote_sql_identifier, split_top_level_tokens, read_parenthesized_tokens,
}
use zszc_sql_client.Sql.Tokens.Lexing.{Lexes, tokenize_sql-Lexes}
use zszc_sql_client.Sql.Tokens.Names.{read_qualified_identifier}
use zszc_sql_client.Sql.Tokens.Names.Paths.{dotted, unquoted, read_qualified_identifier-dotted}
use zszc_sql_client.Sql.Tokens.Quoting.{quoted_token, tokenize_sql-quote_identifier}
use zszc_sql_client.Sql.Tokens.Groups.{
  texts, delimited, delimited-split_top_level_tokens, IsBalanced, read_parenthesized-group,
}

-- A runtime whose `toLowerCase` leaves the text as it is, as for a text without capitals.
abbrev same : Text → Text
same s = s

abbrev statements : Text
statements = codes "select 1; select ';'"

-- The cursor in the second statement.
second_statement : (extract_current_statement statements 12).text ≡ codes " select ';'"
unfolding extract_current_statement statement_bounds find_bounds is_terminator advance nest
second_statement = refl

before_cursor_text-eq_example :
    (take (12 - (extract_current_statement statements 12).cursor_offset) statements
        ++ (extract_current_statement statements 12).before_cursor_text
      ≡ take 12 statements)
    × (length (extract_current_statement statements 12).before_cursor_text
        ≡ (extract_current_statement statements 12).cursor_offset)
before_cursor_text-eq_example = before_cursor_text-eq statements 12 (omega arith)

statement_start-fresh_example :
    (scan_to scan_start (statement_bounds statements 12).start statements ≡ scan_start)
    × (is_inside_quoted_region statements (statement_bounds statements 12).start ≡ false)
statement_start-fresh_example = statement_start-fresh statements 12

tokenize_sql-Lexes_example : Lexes statements (tokenize_sql same statements)
tokenize_sql-Lexes_example = tokenize_sql-Lexes same statements

read_words : texts (tokenize_sql same (codes "a.b -- c")) ≡ codes "a" ∷ codes "." ∷ codes "b" ∷ []
unfolding tokenize_sql tokenize_from read_token is_space is_word_start read_while is_word_char
    is_digit is_punctuation read_until_line_end
read_words = refl

tokenize_sql-quote_identifier_example :
    tokenize_sql same (quote_identifier (codes "a`b")) ≡ quoted_token same (codes "a`b") ∷ []
tokenize_sql-quote_identifier_example = tokenize_sql-quote_identifier same (codes "a`b")

-- A backtick inside a name stays doubled.
unquote_doubled : unquote_sql_identifier (quote_identifier (codes "a`b")) ≡ codes "a``b"
unfolding unquote_sql_identifier quote_identifier
unquote_doubled = refl

abbrev token_of : TokenType → String → SqlToken
token_of type text = record { type = type; text = codes text; normalized = codes text }

abbrev open_token : SqlToken
open_token = token_of TokenType.punctuation "("

abbrev close_token : SqlToken
close_token = token_of TokenType.punctuation ")"

abbrev name_token : SqlToken
name_token = token_of TokenType.word "id"

abbrev comma_token : SqlToken
comma_token = token_of TokenType.punctuation ","

-- `id,(id)`
abbrev items : List SqlToken
items = name_token ∷ comma_token ∷ open_token ∷ name_token ∷ close_token ∷ []

two_groups :
    split_top_level_tokens items (codes ",")
    ≡ (name_token ∷ []) ∷ (open_token ∷ name_token ∷ close_token ∷ []) ∷ []
unfolding split_top_level_tokens split_from
two_groups = refl

delimited-split_top_level_tokens_example :
    delimited (codes ",") (split_top_level_tokens items (codes ",")) ≡ codes "," ∷ texts items
delimited-split_top_level_tokens_example = delimited-split_top_level_tokens items (codes ",")

items-IsBalanced : IsBalanced items
items-IsBalanced = IsBalanced.plain name_token refl refl (
    IsBalanced.plain comma_token refl refl (
      IsBalanced.nested open_token close_token refl refl refl
        (IsBalanced.plain name_token refl refl IsBalanced.empty) IsBalanced.empty))

read_parenthesized-group_example :
    read_parenthesized_tokens (open_token ∷ items ++ close_token ∷ name_token ∷ [])
    ≡ some (record { inner_tokens = items; rest = name_token ∷ [] })
read_parenthesized-group_example =
    read_parenthesized-group open_token close_token items (name_token ∷ []) refl refl refl
      items-IsBalanced

abbrev dot_token : SqlToken
dot_token = token_of TokenType.punctuation "."

-- The path of two names, and a comma behind it.
read_qualified_identifier-dotted_example :
    read_qualified_identifier (name_token ∷ dotted dot_token (name_token ∷ []) ++ comma_token ∷ [])
    ≡ some
        (record { identifiers = unquoted (name_token ∷ name_token ∷ []); rest = comma_token ∷ [] })
read_qualified_identifier-dotted_example =
    read_qualified_identifier-dotted dot_token name_token (name_token ∷ []) (comma_token ∷ []) refl
      refl (refl, tt) refl
