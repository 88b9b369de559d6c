-- ===== src/Sql/Tokens/Names.antt =====
-- `readQualifiedIdentifier`, `readAliasToken` and `readIdentifierList`: names read from tokens.
-- Each is given the tokens from its start index on, and returns those from `next_index` on.
pub mod Paths
use zszc_sql_client.Base.{
  ℕ, ◌+◌, ◌-◌, String, Bool, true, false, not, ◌&&◌, ◌||◌, Option, none, some, List, [], ◌∷◌, eqb,
  if◌then◌else◌,
}
use zszc_sql_client.Sql.Text.{Text, codes, text_eq}
use zszc_sql_client.Sql.Tokens.{SqlToken, is_identifier_type, is_text, unquote_sql_identifier}

-- `isIdentifierToken`, at the first token there is.
abbrev pub starts_with_identifier : List SqlToken → Bool
starts_with_identifier [] = false
starts_with_identifier (token ∷ tokens) = is_identifier_type token.type

pub record Identifiers : Type 0 where
  pub identifiers : List Text
  pub rest : List SqlToken

abbrev pub with_name : SqlToken → Identifiers → Identifiers
with_name token p = record {
  identifiers = unquote_sql_identifier token.text ∷ p.identifiers;
  rest = p.rest;
}

-- The loop of `readQualifiedIdentifier`: a dot and a name in each round.
unfoldable pub read_path : List SqlToken → Identifiers
read_path [] = record { identifiers = []; rest = [] }
read_path (dot ∷ []) = record { identifiers = []; rest = dot ∷ [] }
read_path (dot ∷ token ∷ tokens) =
    let later = with_name token (read_path tokens) in
    if is_text "." dot && is_identifier_type token.type
    then later
    else record { identifiers = []; rest = dot ∷ token ∷ tokens }

unfoldable pub read_qualified_identifier : List SqlToken → Option Identifiers
unfolding read_path
read_qualified_identifier [] = none
read_qualified_identifier (token ∷ tokens) =
    if is_identifier_type token.type then some (with_name token (read_path tokens)) else none

-- The loop of `readIdentifierList` behind the opening parenthesis.
unfoldable pub read_listed : ℕ → List SqlToken → Identifiers
read_listed nesting [] = record { identifiers = []; rest = [] }
read_listed nesting (token ∷ tokens) =
    let deeper = read_listed (nesting + 1) tokens in
    let out = read_listed (nesting - 1) tokens in
    let same = read_listed nesting tokens in
    if is_text "(" token
    then deeper
    else if is_text ")" token
    then (if eqb (nesting - 1) 0 then record { identifiers = []; rest = tokens } else out)
    else if eqb nesting 1 && is_identifier_type token.type
    then with_name token same
    else same

-- The token at the start index is passed over, whatever it is.
unfoldable pub read_identifier_list : List SqlToken → Identifiers
unfolding read_listed
read_identifier_list [] = record { identifiers = []; rest = [] }
read_identifier_list (token ∷ tokens) = read_listed 1 tokens

abbrev pub alias_stop_keywords : List String
alias_stop_keywords =
    "where" ∷ "group" ∷ "having" ∷ "order" ∷ "limit" ∷ "offset" ∷ "fetch" ∷ "for" ∷ "join" ∷ "left"
    ∷ "right" ∷ "inner" ∷ "outer" ∷ "cross" ∷ "on" ∷ "union" ∷ "intersect" ∷ "except" ∷ "using" ∷ []

-- `aliasStopKeywords.has(name)`
abbrev pub is_among : List String → Text → Bool
is_among [] name = false
is_among (keyword ∷ keywords) name = text_eq (codes keyword) name || is_among keywords name

-- What `readAliasToken` returns.
pub record Alias : Type 0 where
  pub name : Text
  pub rest : List SqlToken

module _ (lower : Text → Text) where
  -- The second branch, on the first token.
  abbrev pub bare_alias : SqlToken → List SqlToken → Option Alias
  bare_alias token tokens =
      if is_identifier_type token.type
        && not (is_among alias_stop_keywords (lower (unquote_sql_identifier token.text)))
      then some (record { name = unquote_sql_identifier token.text; rest = tokens })
      else none

  unfoldable pub read_alias_token : List SqlToken → Option Alias
  read_alias_token [] = none
  read_alias_token (token ∷ []) = bare_alias token []
  read_alias_token (token ∷ second ∷ tokens) =
      if text_eq token.normalized (codes "as") && is_identifier_type second.type
      then some (record { name = unquote_sql_identifier second.text; rest = tokens })
      else bare_alias token (second ∷ tokens)
