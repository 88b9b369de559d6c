-- ===== src/Sql/Analysis/Shorter.antt =====
-- Each reader of relations and expressions passes over tokens: how many are left behind it.
use zszc_sql_client.Base.{
  ℕ, ◌+◌, ◌-◌, ◌≤◌, ◌<◌, ◌≡◌, refl, Bool, true, false, not, ◌&&◌, Option, none, some, List, [], ◌∷◌,
  arith, length, if◌then◌else◌, subst,
}
use mathlib.Core.Option.{some_inj}
use zszc_sql_client.Sql.Text.{Text, codes, text_eq}
use zszc_sql_client.Sql.Maps.{TextMap}
use zszc_sql_client.Sql.Tokens.{
  SqlToken, Parenthesized, read_parenthesized_tokens, read_nested, unquote_sql_identifier,
  is_identifier_type,
}
use zszc_sql_client.Sql.Tokens.Names.{
  Identifiers, read_path, read_qualified_identifier, Alias, bare_alias, alias_stop_keywords,
  read_alias_token, read_listed, is_among,
}
use zszc_sql_client.Sql.Analysis.{
  SqlCatalog, QueryRelation, QueryAnalysis, resolve_relation_from_path,
}
use zszc_sql_client.Sql.Analysis.Queries.{
  ReadRelation, behind_comma, alias_name, alias_rest, subquery_relation, read_named_relation,
  read_relation,
}

length-read_path : (tokens : List SqlToken) → length (read_path tokens).rest ≤ length tokens
unfolding read_path
length-read_path [] = omega arith
length-read_path (dot ∷ []) = omega arith
length-read_path (dot ∷ token ∷ tokens) = ground (arith, length-read_path tokens)

length-read_nested :
    (nesting : ℕ) (tokens : List SqlToken)
    → length (read_nested nesting tokens).rest ≤ length tokens
unfolding read_nested
length-read_nested nesting [] = omega arith
length-read_nested nesting (token ∷ tokens) = ground (
  arith,
  length-read_nested (nesting + 1) tokens,
  length-read_nested (nesting - 1) tokens,
  length-read_nested nesting tokens,
)

pub length-read_listed :
    (nesting : ℕ) (tokens : List SqlToken)
    → length (read_listed nesting tokens).rest ≤ length tokens
unfolding read_listed
length-read_listed nesting [] = omega arith
length-read_listed nesting (token ∷ tokens) = ground (
  arith,
  length-read_listed (nesting + 1) tokens,
  length-read_listed (nesting - 1) tokens,
  length-read_listed nesting tokens,
)

alias_if :
    (b : Bool) (a : Alias) (o : Option Alias) (whole : List SqlToken)
    → length a.rest ≤ length whole
    → length (alias_rest o whole) ≤ length whole
    → length (alias_rest (if b then some a else o) whole) ≤ length whole
alias_if true a o whole h k = h
alias_if false a o whole h k = k

length-bare_alias :
    (lower : Text → Text) (token : SqlToken) (tokens : List SqlToken)
    → length (alias_rest (bare_alias lower token tokens) (token ∷ tokens)) ≤ length (token ∷ tokens)
length-bare_alias lower token tokens =
    alias_if
      (is_identifier_type token.type
        && not (is_among alias_stop_keywords (lower (unquote_sql_identifier token.text))))
      (record { name = unquote_sql_identifier token.text; rest = tokens }) none (token ∷ tokens)
      (omega arith) (omega arith)

length-alias_rest :
    (lower : Text → Text) (tokens : List SqlToken)
    → length (alias_rest (read_alias_token lower tokens) tokens) ≤ length tokens
unfolding read_alias_token
length-alias_rest lower [] = omega arith
length-alias_rest lower (token ∷ []) = length-bare_alias lower token []
length-alias_rest lower (token ∷ second ∷ tokens) =
    alias_if (text_eq token.normalized (codes "as") && is_identifier_type second.type)
      (record { name = unquote_sql_identifier second.text; rest = tokens })
      (bare_alias lower token (second ∷ tokens)) (token ∷ second ∷ tokens) (omega arith)
      (length-bare_alias lower token (second ∷ tokens))

pub length-parenthesized :
    (tokens : List SqlToken) (inside : Parenthesized)
    → read_parenthesized_tokens tokens ≡ some inside
    → length inside.rest < length tokens
unfolding read_parenthesized_tokens
length-parenthesized [] inside h = absurd (ground arith)
length-parenthesized (token ∷ tokens) inside h = ground (arith, length-read_nested 1 tokens)

length-qualified :
    (tokens : List SqlToken) (path : Identifiers)
    → read_qualified_identifier tokens ≡ some path
    → length path.rest < length tokens
unfolding read_qualified_identifier
length-qualified [] path h = absurd (ground arith)
length-qualified (token ∷ tokens) path h = ground (arith, length-read_path tokens)

pub length-comma :
    (rest next : List SqlToken) → behind_comma rest ≡ some next → length next < length rest
length-comma [] next h = absurd (ground arith)
length-comma (token ∷ tokens) next h = ground arith

module _ (sub : List SqlToken → QueryAnalysis) where
  module _ (lower : Text → Text) (catalog : SqlCatalog) (current : Option Text)
      (cte_map : TextMap QueryRelation) where
    length-resolved :
        (read : ReadRelation) (rest : List SqlToken) (o : Option QueryRelation)
        → elim o as (λ _. Option ReadRelation) [
          | none ↦ none
          | some relation ↦ some (record { relation = relation; rest = rest })
        ]
          ≡ some read
        → length read.rest ≤ length rest
    length-resolved read rest none h = absurd (ground arith)
    length-resolved read rest (some relation) h =
        subst (λ (r : ReadRelation). length r.rest ≤ length rest) (some_inj.0 h) (omega arith)

    length-named :
        (tokens : List SqlToken) (read : ReadRelation) (o : Option Identifiers)
        → read_qualified_identifier tokens ≡ o
        → elim o as (λ _. Option ReadRelation) [
          | none ↦ none
          | some path ↦
              let alias = read_alias_token lower path.rest in
              elim (resolve_relation_from_path lower path.identifiers
                  (alias_name alias)
                  catalog
                  current
                  cte_map)
                as (λ _. Option ReadRelation) [
                  | none ↦ none
                  | some relation ↦
                      some (record { relation = relation; rest = alias_rest alias path.rest })
                ]
        ]
          ≡ some read
        → length read.rest < length tokens
    length-named tokens read none e h = absurd (ground arith)
    length-named tokens read (some path) e h = omega (
      arith,
      length-resolved read (alias_rest (read_alias_token lower path.rest) path.rest) _ h,
      length-alias_rest lower path.rest,
      length-qualified tokens path e,
    )

    length-read :
        (tokens : List SqlToken) (read : ReadRelation) (o : Option Parenthesized)
        → read_parenthesized_tokens tokens ≡ o
        → elim o as (λ _. Option ReadRelation) [
          | none ↦ read_named_relation sub lower catalog current cte_map tokens
          | some inside ↦
              let alias = read_alias_token lower inside.rest in
              some (record {
                relation = subquery_relation sub alias inside.inner_tokens;
                rest = alias_rest alias inside.rest;
              })
        ]
          ≡ some read
        → length read.rest < length tokens
    unfolding read_named_relation
    length-read tokens read none e h =
        length-named tokens read (read_qualified_identifier tokens) refl h
    length-read tokens read (some inside) e h =
        subst (λ (r : ReadRelation). length r.rest < length tokens) (some_inj.0 h)
          (omega (arith, length-alias_rest lower inside.rest, length-parenthesized tokens inside e))

    pub length-read_relation :
        (tokens : List SqlToken) (read : ReadRelation)
        → read_relation sub lower catalog current cte_map tokens ≡ some read
        → length read.rest < length tokens
    unfolding read_relation
    length-read_relation tokens read h =
        length-read tokens read (read_parenthesized_tokens tokens) refl h
