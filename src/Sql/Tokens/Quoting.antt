-- ===== src/Sql/Tokens/Quoting.antt =====
-- `quoteIdentifier` of appHelpers.ts, and what the tokenizer reads back from its result.
use zszc_sql_client.Base.{
  ℕ, zero, suc, ◌≡◌, refl, ap, false, [], ◌∷◌, ◌++◌, eqb, length, Bool-cases, inl, inr,
}
use zszc_sql_client.Sql.Text.{Text, is_space}
use zszc_sql_client.Sql.Statement.{head?, next_is}
use zszc_sql_client.Sql.Tokens.{
  SqlToken, TokenType, pushes, read_quoted, read_token, tokenize_from, tokenize_sql,
  double_backticks, quote_identifier, unquote_sql_identifier,
}

-- The scan stops at the backtick that closes a quoted name, and at none before it.
read_quoted-double_backticks :
    (name rest : Text)
    → next_is (head? rest) 96 ≡ false
    → read_quoted 96 false (double_backticks name ++ 96 ∷ rest)
      ≡ record { taken = double_backticks name ++ 96 ∷ []; rest = rest }
unfolding read_quoted double_backticks
read_quoted-double_backticks [] rest h = simp h
read_quoted-double_backticks (c ∷ name) rest h = elim (Bool-cases (eqb c 96)) [
  | inl e ↦ simp (e, read_quoted-double_backticks name rest h)
  | inr e ↦ simp (e, read_quoted-double_backticks name rest h)
]

module _ (lower : Text → Text) where
  -- The token of a quoted name.
  abbrev pub quoted_token : Text → SqlToken
  quoted_token name = record {
    type = TokenType.identifier;
    text = quote_identifier name;
    normalized = lower (unquote_sql_identifier (quote_identifier name));
  }

  -- A quoted name, whatever characters the name has, is read as one identifier token with the whole of
  -- its text, and the rest behind it is left, when no backtick follows.
  pub read_token-quote_identifier :
      (name rest : Text)
      → next_is (head? rest) 96 ≡ false
      → read_token lower 96 (double_backticks name ++ 96 ∷ rest) ≡ pushes (quoted_token name) rest
  unfolding read_token quote_identifier is_space
  read_token-quote_identifier name rest h = simp (read_quoted-double_backticks name rest h)

  tokenize_from-nil : (fuel : ℕ) → tokenize_from lower fuel [] ≡ []
  unfolding tokenize_from
  tokenize_from-nil zero = refl
  tokenize_from-nil (suc fuel) = refl

  -- A token that reaches to the end of the text is the last one.
  tokenize_from-last :
      (fuel c : ℕ) (s : Text) (token : SqlToken)
      → read_token lower c s ≡ pushes token []
      → tokenize_from lower (suc fuel) (c ∷ s) ≡ token ∷ []
  unfolding tokenize_from
  tokenize_from-last fuel c s token h =
      rw (h, tokenize_from) (ap (λ ts. token ∷ ts) (tokenize_from-nil fuel))

  -- The tokens of a quoted name, whatever characters the name has, are the one identifier token.
  pub tokenize_sql-quote_identifier :
      (name : Text) → tokenize_sql lower (quote_identifier name) ≡ quoted_token name ∷ []
  unfolding tokenize_sql quote_identifier
  tokenize_sql-quote_identifier name =
      let s = double_backticks name ++ 96 ∷ [] in
      tokenize_from-last (length s) 96 s (quoted_token name)
        (read_token-quote_identifier name [] refl)
