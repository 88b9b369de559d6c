-- ===== src/Sql/Tokens/Lexing.antt =====
-- What a text reads as: tokens and the gaps between them.
use zszc_sql_client.Base.{
  ℕ, zero, suc, ◌+◌, ◌≤◌, ◌<◌, ◌≡◌, ◌≢◌, refl, ap, Bool, true, false, not, ◌&&◌, List, [], ◌∷◌,
  ◌++◌, length, length-append, eqb, arith,
}
use zszc_sql_client.Sql.Text.{Text, is_space}
use zszc_sql_client.Sql.Tokens.{
  SqlToken, Round, skips, pushes, read_until_line_end, read_token, tokenize_from, tokenize_sql,
  is_word_char, is_number_char,
}
use zszc_sql_client.Sql.Tokens.Gaps.{
  line_end-Splits, block_end-Splits, quoted-Splits, bracketed-Splits, while-Splits, is_gap,
  line_end-IsRestOfLine, block_end-IsCommentBody, hash_gap,
}

-- How a token starts.
abbrev pub starts_token : Text → Bool
starts_token [] = false
starts_token (c ∷ s) = not (is_space c) && not (eqb c b'#')

-- A text is read as tokens: gaps are dropped, and a token's text is that which stands in the text.
pub data Lexes : Text → List SqlToken → Type 0 where
  done : Lexes [] []
  gap :
      {text : Text} {tokens : List SqlToken} (skipped rest : Text)
      → text ≡ skipped ++ rest
      → is_gap skipped rest ≡ true
      → Lexes rest tokens
      → Lexes text tokens
  item :
      {text : Text} {tokens : List SqlToken} (token : SqlToken) (rest : Text)
      → text ≡ token.text ++ rest
      → starts_token token.text ≡ true
      → Lexes rest tokens
      → Lexes text (token ∷ tokens)

-- What a round must satisfy on its text.
abbrev RoundFits : Text → Round → Type 0
RoundFits text (skips skipped rest) = (text ≡ skipped ++ rest) × (is_gap skipped rest ≡ true)
RoundFits text (pushes token rest) = (text ≡ token.text ++ rest) × (starts_token token.text ≡ true)

module _ (lower : Text → Text) where
  read_token-RoundFits : (c : ℕ) (s : Text) → RoundFits (c ∷ s) (read_token lower c s)
  unfolding read_token
  read_token-RoundFits c [] = ground (
    arith,
    line_end-Splits [],
    line_end-IsRestOfLine [],
    hash_gap c (read_until_line_end []).taken (read_until_line_end []).rest,
    quoted-Splits 39 false [],
    quoted-Splits 96 false [],
    quoted-Splits 34 false [],
    bracketed-Splits [],
    while-Splits is_word_char [],
    while-Splits is_number_char [],
  )
  read_token-RoundFits c (d ∷ s) = ground (
    arith,
    line_end-Splits (d ∷ s),
    line_end-IsRestOfLine (d ∷ s),
    hash_gap c (read_until_line_end (d ∷ s)).taken (read_until_line_end (d ∷ s)).rest,
    line_end-Splits s,
    line_end-IsRestOfLine s,
    block_end-Splits s,
    block_end-IsCommentBody s,
    quoted-Splits 39 false (d ∷ s),
    quoted-Splits 96 false (d ∷ s),
    quoted-Splits 34 false (d ∷ s),
    bracketed-Splits (d ∷ s),
    while-Splits is_word_char (d ∷ s),
    while-Splits is_number_char (d ∷ s),
  )

  -- Behind a part that is not empty there is less text.
  shorter :
      (text part rest : Text) (fuel : ℕ)
      → text ≡ part ++ rest
      → part ≢ []
      → length text ≤ suc fuel
      → length rest ≤ fuel
  shorter text [] rest fuel e n h = absurd (n refl)
  shorter text (c ∷ part) rest fuel e n h = omega (arith, ap length e, length-append part rest)

  gap-ne-nil : (g rest : Text) → is_gap g rest ≡ true → g ≢ []
  gap-ne-nil g rest h e = ground arith

  token-ne-nil : (t : Text) → starts_token t ≡ true → t ≢ []
  token-ne-nil t h e = ground arith

  round-Lexes :
      (text : Text) (fuel : ℕ) (r : Round)
      → RoundFits text r
      → length text ≤ suc fuel
      → ((rest : Text) → length rest ≤ fuel → Lexes rest (tokenize_from lower fuel rest))
      → Lexes text (elim r as (λ x. List SqlToken) [
        | skips skipped rest ↦ tokenize_from lower fuel rest
        | pushes token rest ↦ token ∷ tokenize_from lower fuel rest
      ])
  round-Lexes text fuel (skips skipped rest) (e, g) h ih =
      gap skipped rest e g
        (ih rest (shorter text skipped rest fuel e (gap-ne-nil skipped rest g) h))
  round-Lexes text fuel (pushes token rest) (e, g) h ih =
      item token rest e g
        (ih rest (shorter text token.text rest fuel e (token-ne-nil token.text g) h))

  tokenize_from-Lexes :
      (fuel : ℕ) (text : Text) → length text ≤ fuel → Lexes text (tokenize_from lower fuel text)
  unfolding tokenize_from
  tokenize_from-Lexes zero [] h = done
  tokenize_from-Lexes zero (c ∷ s) h = absurd (omega arith)
  tokenize_from-Lexes (suc fuel) [] h = done
  tokenize_from-Lexes (suc fuel) (c ∷ s) h =
      round-Lexes (c ∷ s) fuel (read_token lower c s) (read_token-RoundFits c s) h
        (tokenize_from-Lexes fuel)

  -- The tokenizer reads every text to its end, with any `lower`: the text is the texts of the tokens,
  -- in order, with gaps in between and around. A gap is one white space, a comment from `#` or two dashes
  -- that ends exactly where its line does, or a block comment that ends behind its first `*/` or, without
  -- one, with the text. No token is empty or starts with white space or a `#`.
  pub tokenize_sql-Lexes : (sql_text : Text) → Lexes sql_text (tokenize_sql lower sql_text)
  unfolding tokenize_sql
  tokenize_sql-Lexes sql_text = tokenize_from-Lexes (length sql_text) sql_text (omega arith)

token_text-pos : (t : Text) → starts_token t ≡ true → 0 < length t
token_text-pos [] h = ground arith
token_text-pos (c ∷ t) h = omega arith

token-pos : (token : SqlToken) → starts_token token.text ≡ true → 0 < length token.text
token-pos token h = token_text-pos token.text h

-- How much of a text is tokens.
abbrev pub size_of : List SqlToken → ℕ
size_of [] = 0
size_of (token ∷ tokens) = length token.text + size_of tokens

Lexes-size :
    {text : Text} {tokens : List SqlToken} → Lexes text tokens → size_of tokens ≤ length text
Lexes-size done = omega arith
Lexes-size (gap skipped rest e g l) =
    omega (arith, ap length e, length-append skipped rest, Lexes-size l)
Lexes-size (item token rest e g l) =
    omega (arith, ap length e, length-append token.text rest, Lexes-size l)

Lexes-count :
    {text : Text} {tokens : List SqlToken} → Lexes text tokens → length tokens ≤ size_of tokens
Lexes-count done = omega arith
Lexes-count (gap skipped rest e g l) = Lexes-count l
Lexes-count (item token rest e g l) = omega (arith, token-pos token g, Lexes-count l)

-- There are never more tokens than characters.
pub length-tokenize_sql :
    (lower : Text → Text) (sql_text : Text) → length (tokenize_sql lower sql_text) ≤ length sql_text
length-tokenize_sql lower sql_text =
    let l = tokenize_sql-Lexes lower sql_text in omega (arith, Lexes-size l, Lexes-count l)
