-- ===== src/Sql/Analysis/Tails.antt =====
-- The tokens that each reader of relations and expressions leaves are the tail of those it was given.
use zszc_sql_client.Base.{
  ℕ, zero, suc, ◌+◌, ◌-◌, ◌≡◌, refl, subst, Bool, true, false, ◌&&◌, Option, none, some, List, [],
  ◌∷◌, arith, eqb, if◌then◌else◌, length,
}
use mathlib.Core.Option.{some_inj}
use zszc_sql_client.Sql.Text.{Text, codes}
use zszc_sql_client.Sql.Tokens.{
  SqlToken, Parenthesized, read_parenthesized_tokens, read_nested, is_text, unquote_sql_identifier,
  is_identifier_type,
}
use zszc_sql_client.Sql.Tokens.Names.{
  Identifiers, read_path, read_qualified_identifier, Alias, bare_alias, read_alias_token,
  read_listed, read_identifier_list,
}
use zszc_sql_client.Sql.Analysis.{QueryAnalysis, QueryRelation, SqlAutocompleteColumn}
use zszc_sql_client.Sql.Analysis.Projection.{is_word}
use zszc_sql_client.Sql.Analysis.Queries.{
  ReadRelations, with_relation, behind_comma, alias_rest, CteRound, stops, pushes_cte, CteColumns,
  read_cte_columns, read_cte_body, read_cte, read_ctes, parse_ctes, cte_relation, behind_recursive,
}

-- Tokens that are all those of a list from some place on.
pub data IsTail (rest : List SqlToken) : List SqlToken → Type 0 where
  whole : IsTail rest rest
  behind :
      (token : SqlToken) {tokens : List SqlToken}
      → IsTail rest tokens
      → IsTail rest (token ∷ tokens)

pub IsTail-trans : {a b c : List SqlToken} → IsTail a b → IsTail b c → IsTail a c
IsTail-trans h whole = h
IsTail-trans h (behind token t) = behind token (IsTail-trans h t)

if-IsTail {ℓ} :
    {A : Type ℓ} (f : A → List SqlToken) {tokens : List SqlToken} (b : Bool) (x y : A)
    → IsTail (f x) tokens
    → IsTail (f y) tokens
    → IsTail (f (if b then x else y)) tokens
if-IsTail f true x y hx hy = hx
if-IsTail f false x y hx hy = hy

some-if {ℓ} : {A : Type ℓ} (b : Bool) (x y : A) → (if b then some x else none) ≡ some y → x ≡ y
some-if true x y h = some_inj.0 h
some-if false x y h = absurd (ground arith)

read_path-IsTail : (tokens : List SqlToken) → IsTail (read_path tokens).rest tokens
unfolding read_path
read_path-IsTail [] = whole
read_path-IsTail (dot ∷ []) = whole
read_path-IsTail (dot ∷ token ∷ tokens) =
    if-IsTail (λ (p : Identifiers). p.rest) (is_text "." dot && is_identifier_type token.type) _ _
      (behind dot (behind token (read_path-IsTail tokens))) whole

pub qualified-IsTail :
    (tokens : List SqlToken) (path : Identifiers)
    → read_qualified_identifier tokens ≡ some path
    → IsTail path.rest tokens
unfolding read_qualified_identifier
qualified-IsTail [] path h = absurd (ground arith)
qualified-IsTail (token ∷ tokens) path h =
    subst (λ (p : Identifiers). IsTail p.rest (token ∷ tokens))
      (some-if (is_identifier_type token.type) _ path h) (behind token (read_path-IsTail tokens))

read_nested-IsTail :
    (nesting : ℕ) (tokens : List SqlToken) → IsTail (read_nested nesting tokens).rest tokens
unfolding read_nested
read_nested-IsTail nesting [] = whole
read_nested-IsTail nesting (token ∷ tokens) =
    let f : Parenthesized → List SqlToken = λ p. p.rest in
    if-IsTail f (is_text "(" token) _ _ (behind token (read_nested-IsTail (nesting + 1) tokens)) (
      if-IsTail f (is_text ")" token) _ _
        (if-IsTail f (eqb (nesting - 1) 0) _ _ (behind token whole)
          (behind token (read_nested-IsTail (nesting - 1) tokens)))
        (behind token (read_nested-IsTail nesting tokens)))

pub parenthesized-IsTail :
    (tokens : List SqlToken) (inside : Parenthesized)
    → read_parenthesized_tokens tokens ≡ some inside
    → IsTail inside.rest tokens
unfolding read_parenthesized_tokens
parenthesized-IsTail [] inside h = absurd (ground arith)
parenthesized-IsTail (token ∷ tokens) inside h =
    subst (λ (p : Parenthesized). IsTail p.rest (token ∷ tokens))
      (some-if (is_text "(" token) _ inside h) (behind token (read_nested-IsTail 1 tokens))

read_listed-IsTail :
    (nesting : ℕ) (tokens : List SqlToken) → IsTail (read_listed nesting tokens).rest tokens
unfolding read_listed
read_listed-IsTail nesting [] = whole
read_listed-IsTail nesting (token ∷ tokens) =
    let f : Identifiers → List SqlToken = λ p. p.rest in
    let same = behind token (read_listed-IsTail nesting tokens) in
    if-IsTail f (is_text "(" token) _ _ (behind token (read_listed-IsTail (nesting + 1) tokens)) (
      if-IsTail f (is_text ")" token) _ _
        (if-IsTail f (eqb (nesting - 1) 0) _ _ (behind token whole)
          (behind token (read_listed-IsTail (nesting - 1) tokens)))
        (if-IsTail f (eqb nesting 1 && is_identifier_type token.type) _ _ same same))

pub comma-IsTail : (rest next : List SqlToken) → behind_comma rest ≡ some next → IsTail next rest
comma-IsTail [] next h = absurd (ground arith)
comma-IsTail (token ∷ tokens) next h =
    subst (λ l. IsTail l (token ∷ tokens)) (some-if (is_text "," token) tokens next h)
      (behind token whole)

alias_if-IsTail :
    (b : Bool) (a : Alias) (o : Option Alias) (tokens : List SqlToken)
    → IsTail a.rest tokens
    → IsTail (alias_rest o tokens) tokens
    → IsTail (alias_rest (if b then some a else o) tokens) tokens
alias_if-IsTail true a o tokens h k = h
alias_if-IsTail false a o tokens h k = k

bare_alias-IsTail :
    (lower : Text → Text) (token : SqlToken) (tokens : List SqlToken)
    → IsTail (alias_rest (bare_alias lower token tokens) (token ∷ tokens)) (token ∷ tokens)
bare_alias-IsTail lower token tokens =
    alias_if-IsTail _ _ none (token ∷ tokens) (behind token whole) whole

pub alias_rest-IsTail :
    (lower : Text → Text) (tokens : List SqlToken)
    → IsTail (alias_rest (read_alias_token lower tokens) tokens) tokens
unfolding read_alias_token
alias_rest-IsTail lower [] = whole
alias_rest-IsTail lower (token ∷ []) = bare_alias-IsTail lower token []
alias_rest-IsTail lower (token ∷ second ∷ tokens) =
    alias_if-IsTail _ _ (bare_alias lower token (second ∷ tokens)) (token ∷ second ∷ tokens)
      (behind token (behind second whole)) (bare_alias-IsTail lower token (second ∷ tokens))

cte_columns-IsTail : (tokens : List SqlToken) → IsTail (read_cte_columns tokens).rest tokens
unfolding read_cte_columns read_identifier_list
cte_columns-IsTail [] = whole
cte_columns-IsTail (token ∷ tokens) =
    if-IsTail (λ (c : CteColumns). c.rest) (is_text "(" token) _ _
      (behind token (read_listed-IsTail 1 tokens)) whole

-- What a round of `parseCtes` leaves.
abbrev round_rest : CteRound → List SqlToken
round_rest (stops rest) = rest
round_rest (pushes_cte relation rest) = rest

module _ (sub : List SqlToken → QueryAnalysis) where
  inside-IsTail :
      (name : Text) (columns : List SqlAutocompleteColumn) (token : SqlToken)
      (tokens : List SqlToken) (o : Option Parenthesized)
      → read_parenthesized_tokens tokens ≡ o
      → IsTail
          (round_rest (elim o as (λ _. CteRound) [
            | none ↦ stops (token ∷ tokens)
            | some inside ↦
                if is_word (codes "as") token
                then pushes_cte
                    (cte_relation name columns (sub inside.inner_tokens).projection_columns)
                    inside.rest
                else stops (token ∷ tokens)
          ]))
          (token ∷ tokens)
  inside-IsTail name columns token tokens none e = whole
  inside-IsTail name columns token tokens (some inside) e =
      if-IsTail round_rest (is_word (codes "as") token) _ _
        (behind token (parenthesized-IsTail tokens inside e)) whole

  body-IsTail :
      (name : Text) (columns : List SqlAutocompleteColumn) (tokens : List SqlToken)
      → IsTail (round_rest (read_cte_body sub name columns tokens)) tokens
  unfolding read_cte_body
  body-IsTail name columns [] = whole
  body-IsTail name columns (token ∷ tokens) =
      inside-IsTail name columns token tokens (read_parenthesized_tokens tokens) refl

  read_cte-IsTail : (tokens : List SqlToken) → IsTail (round_rest (read_cte sub tokens)) tokens
  unfolding read_cte
  read_cte-IsTail [] = whole
  read_cte-IsTail (token ∷ tokens) =
      let list = read_cte_columns tokens in
      if-IsTail round_rest (is_identifier_type token.type) _ _
        (IsTail-trans (body-IsTail (unquote_sql_identifier token.text) list.columns list.rest)
          (behind token (cte_columns-IsTail tokens)))
        whole

  more-IsTail :
      (fuel : ℕ) (relation : QueryRelation) (rest : List SqlToken) (o : Option (List SqlToken))
      → behind_comma rest ≡ o
      → ((next : List SqlToken) → IsTail (read_ctes sub fuel next).rest next)
      → IsTail
          (elim o as (λ _. ReadRelations) [
            | none ↦ record { relations = relation ∷ []; rest = rest }
            | some next ↦ with_relation relation (read_ctes sub fuel next)
          ]).rest
          rest
  more-IsTail fuel relation rest none e ih = whole
  more-IsTail fuel relation rest (some next) e ih =
      IsTail-trans (ih next) (comma-IsTail rest next e)

  after-IsTail :
      (fuel : ℕ) (r : CteRound)
      → ((next : List SqlToken) → IsTail (read_ctes sub fuel next).rest next)
      → IsTail
          (elim r as (λ _. ReadRelations) [
            | stops rest ↦ record { relations = []; rest = rest }
            | pushes_cte relation rest ↦ elim (behind_comma rest) as (λ _. ReadRelations) [
              | none ↦ record { relations = relation ∷ []; rest = rest }
              | some next ↦ with_relation relation (read_ctes sub fuel next)
            ]
          ]).rest
          (round_rest r)
  after-IsTail fuel (stops rest) ih = whole
  after-IsTail fuel (pushes_cte relation rest) ih =
      more-IsTail fuel relation rest (behind_comma rest) refl ih

  read_ctes-IsTail :
      (fuel : ℕ) (tokens : List SqlToken) → IsTail (read_ctes sub fuel tokens).rest tokens
  unfolding read_ctes
  read_ctes-IsTail zero tokens = whole
  read_ctes-IsTail (suc fuel) tokens =
      IsTail-trans (after-IsTail fuel (read_cte sub tokens) (read_ctes-IsTail fuel))
        (read_cte-IsTail tokens)

  recursive-IsTail :
      (fuel : ℕ) (tokens : List SqlToken)
      → IsTail (read_ctes sub fuel (behind_recursive sub tokens)).rest tokens
  recursive-IsTail fuel [] = read_ctes-IsTail fuel []
  recursive-IsTail fuel (token ∷ tokens) =
      if-IsTail (λ l. (read_ctes sub fuel l).rest) (is_word (codes "recursive") token) _ _
        (behind token (read_ctes-IsTail fuel tokens)) (read_ctes-IsTail fuel (token ∷ tokens))

  pub parse_ctes-IsTail : (tokens : List SqlToken) → IsTail (parse_ctes sub tokens).rest tokens
  unfolding parse_ctes
  parse_ctes-IsTail [] = whole
  parse_ctes-IsTail (token ∷ tokens) =
      if-IsTail (λ (r : ReadRelations). r.rest) (is_word (codes "with") token) _ _
        (behind token (recursive-IsTail (length tokens) tokens)) whole
