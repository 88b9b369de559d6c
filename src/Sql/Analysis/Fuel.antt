-- ===== src/Sql/Analysis/Fuel.antt =====
-- The loops that analyze a statement end: each round passes over a token.
use zszc_sql_client.Base.{
  ℕ, zero, suc, ◌+◌, ◌-◌, ◌≤◌, ◌≡◌, refl, ap, Option, none, some, List, [], ◌∷◌, arith, length,
}
use zszc_sql_client.Sql.Text.{Text}
use zszc_sql_client.Sql.Maps.{TextMap}
use zszc_sql_client.Sql.Tokens.{SqlToken}
use zszc_sql_client.Sql.Analysis.{SqlCatalog, QueryRelation, QueryAnalysis}
use zszc_sql_client.Sql.Analysis.Queries.{
  ReadRelation, ReadRelations, with_relation, behind_comma, read_relation, read_relations,
  relations_from,
}
use zszc_sql_client.Sql.Analysis.Shorter.{length-comma, length-read_relation}

module _ (sub : List SqlToken → QueryAnalysis) where
  module _ (lower : Text → Text) (catalog : SqlCatalog) (current : Option Text)
      (cte_map : TextMap QueryRelation) where
    -- The two loops with two amounts of fuel, on the rest of one round.
    more-equal :
        (f g : ℕ) (read : ReadRelation) (o : Option (List SqlToken))
        → ((next : List SqlToken)
            → o ≡ some next
            → read_relations sub lower catalog current cte_map f next
              ≡ read_relations sub lower catalog current cte_map g next)
        → elim o as (λ _. ReadRelations) [
          | none ↦ record { relations = read.relation ∷ []; rest = read.rest }
          | some next ↦
              with_relation read.relation (read_relations sub lower catalog current cte_map f next)
        ]
          ≡ elim o as (λ _. ReadRelations) [
            | none ↦ record { relations = read.relation ∷ []; rest = read.rest }
            | some next ↦
                with_relation read.relation
                  (read_relations sub lower catalog current cte_map g next)
          ]
    more-equal f g read none h = refl
    more-equal f g read (some next) h = ap (with_relation read.relation) (h next refl)

    abbrev listed : ℕ → List SqlToken → Option ReadRelation → ReadRelations
    listed fuel tokens o = elim o as (λ _. ReadRelations) [
      | none ↦ record { relations = []; rest = tokens }
      | some read ↦ elim (behind_comma read.rest) as (λ _. ReadRelations) [
        | none ↦ record { relations = read.relation ∷ []; rest = read.rest }
        | some next ↦
            with_relation read.relation (read_relations sub lower catalog current cte_map fuel next)
      ]
    ]

    listed-equal :
        (f g : ℕ) (tokens : List SqlToken) (o : Option ReadRelation)
        → read_relation sub lower catalog current cte_map tokens ≡ o
        → ((next : List SqlToken)
            → suc (length next) ≤ length tokens
            → read_relations sub lower catalog current cte_map f next
              ≡ read_relations sub lower catalog current cte_map g next)
        → listed f tokens o ≡ listed g tokens o
    listed-equal f g tokens none e h = refl
    listed-equal f g tokens (some read) e h = more-equal f g read (behind_comma read.rest) λ next c.
        h next (
          omega (
            arith,
            length-comma read.rest next c,
            length-read_relation sub lower catalog current cte_map tokens read e,
          ))

    -- `read_relations` does not depend on the fuel, if it is at least the number of tokens.
    read_relations-fuel :
        (f g : ℕ) (tokens : List SqlToken)
        → length tokens ≤ f
        → length tokens ≤ g
        → read_relations sub lower catalog current cte_map f tokens
          ≡ read_relations sub lower catalog current cte_map g tokens
    unfolding read_relations
    read_relations-fuel zero zero tokens hf hg = refl
    read_relations-fuel zero (suc g) [] hf hg = refl
    read_relations-fuel zero (suc g) (token ∷ tokens) hf hg = absurd (omega arith)
    read_relations-fuel (suc f) zero [] hf hg = refl
    read_relations-fuel (suc f) zero (token ∷ tokens) hf hg = absurd (omega arith)
    read_relations-fuel (suc f) (suc g) tokens hf hg =
        listed-equal f g tokens (read_relation sub lower catalog current cte_map tokens) refl
          λ next h. read_relations-fuel f g next (omega arith) (omega arith)

    rest-more :
        (fuel : ℕ) (read : ReadRelation) (o : Option (List SqlToken)) (bound : ℕ)
        → length read.rest ≤ bound
        → ((next : List SqlToken)
            → o ≡ some next
            → length (read_relations sub lower catalog current cte_map fuel next).rest ≤ bound)
        → length
            (elim o as (λ _. ReadRelations) [
              | none ↦ record { relations = read.relation ∷ []; rest = read.rest }
              | some next ↦
                  with_relation read.relation
                    (read_relations sub lower catalog current cte_map fuel next)
            ]).rest
          ≤ bound
    rest-more fuel read none bound h k = h
    rest-more fuel read (some next) bound h k = k next refl

    rest-listed :
        (fuel : ℕ) (tokens : List SqlToken) (o : Option ReadRelation)
        → read_relation sub lower catalog current cte_map tokens ≡ o
        → ((next : List SqlToken)
            → length (read_relations sub lower catalog current cte_map fuel next).rest
              ≤ length next)
        → length (listed fuel tokens o).rest ≤ length tokens
    rest-listed fuel tokens none e ih = omega arith
    rest-listed fuel tokens (some read) e ih =
        let shorter = length-read_relation sub lower catalog current cte_map tokens read e in
        rest-more fuel read (behind_comma read.rest) (length tokens) (omega (arith, shorter))
          λ next c. omega (arith, ih next, length-comma read.rest next c, shorter)

    length-read_relations :
        (fuel : ℕ) (tokens : List SqlToken)
        → length (read_relations sub lower catalog current cte_map fuel tokens).rest ≤ length tokens
    unfolding read_relations
    length-read_relations zero tokens = omega arith
    length-read_relations (suc fuel) tokens =
        rest-listed fuel tokens (read_relation sub lower catalog current cte_map tokens) refl
          (length-read_relations fuel)

    pub relations_from-fuel :
        (f g nesting : ℕ) (tokens : List SqlToken)
        → length tokens ≤ f
        → length tokens ≤ g
        → relations_from sub lower catalog current cte_map f nesting tokens
          ≡ relations_from sub lower catalog current cte_map g nesting tokens
    unfolding relations_from
    relations_from-fuel zero zero nesting tokens hf hg = refl
    relations_from-fuel zero (suc g) nesting [] hf hg = refl
    relations_from-fuel zero (suc g) nesting (token ∷ tokens) hf hg = absurd (omega arith)
    relations_from-fuel (suc f) zero nesting [] hf hg = refl
    relations_from-fuel (suc f) zero nesting (token ∷ tokens) hf hg = absurd (omega arith)
    relations_from-fuel (suc f) (suc g) nesting [] hf hg = refl
    relations_from-fuel (suc f) (suc g) nesting (token ∷ tokens) hf hg =
        let read = read_relations sub lower catalog current cte_map (length tokens) tokens in
        rw (
          relations_from-fuel f g (nesting + 1) tokens (omega arith) (omega arith),
          relations_from-fuel f g (nesting - 1) tokens (omega arith) (omega arith),
          relations_from-fuel f g nesting read.rest
              (omega (arith, length-read_relations (length tokens) tokens))
              (omega (arith, length-read_relations (length tokens) tokens)),
          relations_from-fuel f g nesting tokens (omega arith) (omega arith),
        )
