-- ===== src/Sql/Analysis/Ends.antt =====
-- The loops of `parseCtes` and `parseRelations` end.
use zszc_sql_client.Base.{
  ℕ, zero, suc, ◌≤◌, ◌<◌, ◌≡◌, refl, ap, Bool, true, false, Option, none, some, List, [], ◌∷◌,
  arith, length, if◌then◌else◌,
}
use zszc_sql_client.Sql.Text.{Text, codes}
use zszc_sql_client.Sql.Maps.{TextMap}
use zszc_sql_client.Sql.Tokens.{
  SqlToken, Parenthesized, read_parenthesized_tokens, unquote_sql_identifier, is_identifier_type,
}
use zszc_sql_client.Sql.Tokens.Names.{read_identifier_list}
use zszc_sql_client.Sql.Analysis.{SqlCatalog, QueryRelation, QueryAnalysis, SqlAutocompleteColumn}
use zszc_sql_client.Sql.Analysis.Projection.{is_word}
use zszc_sql_client.Sql.Analysis.Queries.{
  ReadRelations, with_relation, behind_comma, relations_from, parse_relations, CteRound, stops,
  pushes_cte, read_cte_columns, read_cte_body, read_cte, read_ctes, cte_relation,
}
use zszc_sql_client.Sql.Analysis.Shorter.{length-parenthesized, length-comma, length-read_listed}
use zszc_sql_client.Sql.Analysis.Fuel.{relations_from-fuel}

length-cte_columns :
    (tokens : List SqlToken) → length (read_cte_columns tokens).rest ≤ length tokens
unfolding read_cte_columns read_identifier_list
length-cte_columns [] = omega arith
length-cte_columns (token ∷ tokens) = ground (arith, length-read_listed 1 tokens)

-- What a round leaves, if it pushes an expression, is shorter.
abbrev Leaves : ℕ → CteRound → Type 0
Leaves bound (stops rest) = Unit
Leaves bound (pushes_cte relation rest) = length rest < bound

if-Leaves :
    (bound : ℕ) (b : Bool) (x y : CteRound)
    → Leaves bound x
    → Leaves bound y
    → Leaves bound (if b then x else y)
if-Leaves bound true x y hx hy = hx
if-Leaves bound false x y hx hy = hy

Leaves-mono : (a b : ℕ) (r : CteRound) → a ≤ b → Leaves a r → Leaves b r
Leaves-mono a b (stops rest) h l = tt
Leaves-mono a b (pushes_cte relation rest) h l = omega arith

module _ (sub : List SqlToken → QueryAnalysis) where
  inside-Leaves :
      (name : Text) (columns : List SqlAutocompleteColumn) (token : SqlToken)
      (tokens : List SqlToken) (o : Option Parenthesized)
      → read_parenthesized_tokens tokens ≡ o
      → Leaves (length (token ∷ tokens)) (elim o as (λ _. CteRound) [
        | none ↦ stops (token ∷ tokens)
        | some inside ↦
            if is_word (codes "as") token
            then pushes_cte
                (cte_relation name columns (sub inside.inner_tokens).projection_columns)
                inside.rest
            else stops (token ∷ tokens)
      ])
  inside-Leaves name columns token tokens none e = tt
  inside-Leaves name columns token tokens (some inside) e =
      if-Leaves (length (token ∷ tokens)) (is_word (codes "as") token)
        (pushes_cte (cte_relation name columns (sub inside.inner_tokens).projection_columns)
          inside.rest)
        (stops (token ∷ tokens)) (omega (arith, length-parenthesized tokens inside e)) tt

  body-Leaves :
      (name : Text) (columns : List SqlAutocompleteColumn) (tokens : List SqlToken)
      → Leaves (length tokens) (read_cte_body sub name columns tokens)
  unfolding read_cte_body
  body-Leaves name columns [] = tt
  body-Leaves name columns (token ∷ tokens) =
      inside-Leaves name columns token tokens (read_parenthesized_tokens tokens) refl

  read_cte-Leaves : (tokens : List SqlToken) → Leaves (length tokens) (read_cte sub tokens)
  unfolding read_cte
  read_cte-Leaves [] = tt
  read_cte-Leaves (token ∷ tokens) =
      let list = read_cte_columns tokens in
      let body = read_cte_body sub (unquote_sql_identifier token.text) list.columns list.rest in
      if-Leaves (length (token ∷ tokens)) (is_identifier_type token.type) body
        (stops (token ∷ tokens))
        (Leaves-mono (length list.rest) (length (token ∷ tokens)) body
          (omega (arith, length-cte_columns tokens))
          (body-Leaves (unquote_sql_identifier token.text) list.columns list.rest))
        tt

  more-equal :
      (f g : ℕ) (relation : QueryRelation) (rest : List SqlToken) (o : Option (List SqlToken))
      → ((next : List SqlToken) → o ≡ some next → read_ctes sub f next ≡ read_ctes sub g next)
      → elim o as (λ _. ReadRelations) [
        | none ↦ record { relations = relation ∷ []; rest = rest }
        | some next ↦ with_relation relation (read_ctes sub f next)
      ]
        ≡ elim o as (λ _. ReadRelations) [
          | none ↦ record { relations = relation ∷ []; rest = rest }
          | some next ↦ with_relation relation (read_ctes sub g next)
        ]
  more-equal f g relation rest none h = refl
  more-equal f g relation rest (some next) h = ap (with_relation relation) (h next refl)

  abbrev after_round : ℕ → CteRound → ReadRelations
  after_round fuel r = elim r as (λ _. ReadRelations) [
    | stops rest ↦ record { relations = []; rest = rest }
    | pushes_cte relation rest ↦ elim (behind_comma rest) as (λ _. ReadRelations) [
      | none ↦ record { relations = relation ∷ []; rest = rest }
      | some next ↦ with_relation relation (read_ctes sub fuel next)
    ]
  ]

  round-equal :
      (f g : ℕ) (tokens : List SqlToken) (r : CteRound)
      → Leaves (length tokens) r
      → ((next : List SqlToken)
          → suc (length next) ≤ length tokens
          → read_ctes sub f next ≡ read_ctes sub g next)
      → after_round f r ≡ after_round g r
  round-equal f g tokens (stops rest) l h = refl
  round-equal f g tokens (pushes_cte relation rest) l h =
      more-equal f g relation rest (behind_comma rest)
        λ next c. h next (omega (arith, length-comma rest next c))

  read_ctes-fuel :
      (f g : ℕ) (tokens : List SqlToken)
      → length tokens ≤ f
      → length tokens ≤ g
      → read_ctes sub f tokens ≡ read_ctes sub g tokens
  unfolding read_ctes
  read_ctes-fuel zero zero tokens hf hg = refl
  read_ctes-fuel zero (suc g) [] hf hg = unfold read_cte in refl
  read_ctes-fuel zero (suc g) (token ∷ tokens) hf hg = absurd (omega arith)
  read_ctes-fuel (suc f) zero [] hf hg = unfold read_cte in refl
  read_ctes-fuel (suc f) zero (token ∷ tokens) hf hg = absurd (omega arith)
  read_ctes-fuel (suc f) (suc g) tokens hf hg =
      round-equal f g tokens (read_cte sub tokens) (read_cte-Leaves tokens)
        λ next h. read_ctes-fuel f g next (omega arith) (omega arith)

  -- The loops of a statement end by themselves: a number of rounds that is at least the number of tokens
  -- gives what exactly that number gives, for the common table expressions and for the relations, whatever
  -- the analysis of subqueries returns.
  pub analysis_loops_end :
      (lower : Text → Text) (catalog : SqlCatalog) (current : Option Text)
      (cte_map : TextMap QueryRelation) (fuel : ℕ) (tokens : List SqlToken)
      → length tokens ≤ fuel
      → (read_ctes sub fuel tokens ≡ read_ctes sub (length tokens) tokens)
        × (relations_from sub lower catalog current cte_map fuel 0 tokens
            ≡ parse_relations sub lower catalog current cte_map tokens)
  unfolding parse_relations
  analysis_loops_end lower catalog current cte_map fuel tokens h = (
    read_ctes-fuel fuel (length tokens) tokens h (omega arith),
    relations_from-fuel sub lower catalog current cte_map fuel (length tokens) 0 tokens h
        (omega arith),
  )
