-- ===== src/Sql/Tokens.antt =====
-- `tokenizeSql` and the functions that it calls. An index into the text is the text from there on: a
-- function that returns an end index returns the characters that it passed over and the rest.
-- `lower` is `toLowerCase` of the JavaScript runtime.
pub mod Gaps
pub mod Lexing
pub mod Quoting
pub mod Groups
pub mod Names
use zszc_sql_client.Base.{
  ℕ, zero, suc, String, Option, none, some, ◌+◌, ◌-◌, Bool, true, false, not, ◌&&◌, ◌||◌, List, [],
  ◌∷◌, ◌++◌, eqb, leb, length, if◌then◌else◌, All,
}
use mathlib.Core.List.{reverse}
use zszc_sql_client.Sql.Text.{Text, codes, text_eq, is_space, trim}
use zszc_sql_client.Sql.Statement.{head?, next_is}

pub data TokenType : Type 0 where
  word identifier string number punctuation operator : TokenType

pub record SqlToken : Type 0 where
  pub type : TokenType
  pub text : Text
  pub normalized : Text

-- What a scan passed over, and the rest.
pub record Passed : Type 0 where
  pub taken : Text
  pub rest : Text

abbrev pub pass : ℕ → Passed → Passed
pass c p = record { taken = c ∷ p.taken; rest = p.rest }

unfoldable pub read_until_line_end : Text → Passed
read_until_line_end [] = record { taken = []; rest = [] }
read_until_line_end (c ∷ s) =
    let later = read_until_line_end s in
    if eqb c 10 then record { taken = []; rest = c ∷ s } else pass c later

unfoldable pub read_until_block_comment_end : Text → Passed
read_until_block_comment_end [] = record { taken = []; rest = [] }
read_until_block_comment_end (c ∷ []) = record { taken = c ∷ []; rest = [] }
read_until_block_comment_end (c ∷ d ∷ s) =
    let later = read_until_block_comment_end (d ∷ s) in
    if eqb c b'*' && eqb d b'/' then record { taken = c ∷ d ∷ []; rest = s } else pass c later

-- `readQuoted` with the doubled escape, from behind the opening quote. `escaped` is the second of two
-- quotes, which the source steps over together with the first.
unfoldable pub read_quoted : ℕ → Bool → Text → Passed
read_quoted quote escaped [] = record { taken = []; rest = [] }
read_quoted quote escaped (c ∷ s) =
    let doubled = not escaped && eqb c quote && next_is (head? s) quote in
    let later = pass c (read_quoted quote doubled s) in
    if not escaped && eqb c quote && not doubled then record { taken = c ∷ []; rest = s } else later

-- `indexOf(']')`, the bracket included; the rest of the text if there is none
unfoldable pub read_bracketed : Text → Passed
read_bracketed [] = record { taken = []; rest = [] }
read_bracketed (c ∷ s) =
    let later = pass c (read_bracketed s) in
    if eqb c b']' then record { taken = c ∷ []; rest = s } else later

unfoldable pub read_while : (ℕ → Bool) → Text → Passed
read_while p [] = record { taken = []; rest = [] }
read_while p (c ∷ s) =
    let later = pass c (read_while p s) in
    if p c then later else record { taken = []; rest = c ∷ s }

-- `[A-Za-z_]`, `\d`, `[A-Za-z0-9_$]`, `[\d.]`
unfoldable pub is_word_start : ℕ → Bool
is_word_start c = leb b'A' c && leb c b'Z' || leb b'a' c && leb c b'z' || eqb c b'_'

unfoldable pub is_digit : ℕ → Bool
is_digit c = leb b'0' c && leb c b'9'

unfoldable pub is_word_char : ℕ → Bool
is_word_char c = is_word_start c || is_digit c || eqb c b'$'

unfoldable pub is_number_char : ℕ → Bool
is_number_char c = is_digit c || eqb c b'.'

-- `'(),.*;'.includes(c)`
unfoldable pub is_punctuation : ℕ → Bool
is_punctuation c = eqb c b'(' || eqb c b')' || eqb c b',' || eqb c b'.' || eqb c b'*' || eqb c b';'

-- `replace(/^q/, '')` and `replace(/q$/, '')`
abbrev pub strip_start : ℕ → Text → Text
strip_start q [] = []
strip_start q (c ∷ s) = if eqb c q then s else c ∷ s

abbrev pub strip_end : ℕ → Text → Text
strip_end q s = reverse (strip_start q (reverse s))

unfoldable pub unquote_sql_identifier : Text → Text
unfolding trim
unquote_sql_identifier value =
    strip_end b']' (
      strip_start b'[' (strip_end 34 (strip_start 34 (strip_end 96 (strip_start 96 (trim value))))))

-- What one round of the loop does: skip characters, or push a token.
pub data Round : Type 0 where
  skips : Text → Text → Round
  pushes : SqlToken → Text → Round

-- A comment from two dashes, and one in `/* … */`: the second character is passed over too.
abbrev pub skip_second : (Text → Passed) → ℕ → Text → Round
skip_second read c [] = skips (c ∷ []) []
skip_second read c (d ∷ s) = let p = read s in skips (c ∷ d ∷ p.taken) p.rest

module _ (lower : Text → Text) where
  abbrev plain_token : TokenType → Text → SqlToken
  plain_token type text = record { type = type; text = text; normalized = text }

  abbrev name_token : Text → SqlToken
  name_token text = record {
    type = identifier;
    text = text;
    normalized = lower (unquote_sql_identifier text);
  }

  abbrev word_token : Text → SqlToken
  word_token text = record { type = word; text = text; normalized = lower text }

  -- A token of the current character and what a scan passes over behind it.
  abbrev push_passed : (Text → SqlToken) → ℕ → Passed → Round
  push_passed token c p = pushes (token (c ∷ p.taken)) p.rest

  abbrev skip_passed : Text → Passed → Round
  skip_passed start p = skips (start ++ p.taken) p.rest

  -- One round on the current character, with what stands behind it.
  unfoldable pub read_token : ℕ → Text → Round
  read_token c s =
      if is_space c
      then skips (c ∷ []) s
      else if eqb c b'-' && next_is (head? s) b'-'
      then skip_second read_until_line_end c s
      else if eqb c b'#'
      then skip_passed (c ∷ []) (read_until_line_end s)
      else if eqb c b'/' && next_is (head? s) b'*'
      then skip_second read_until_block_comment_end c s
      else if eqb c 39
      then push_passed (plain_token string) c (read_quoted 39 false s)
      else if eqb c 96
      then push_passed name_token c (read_quoted 96 false s)
      else if eqb c 34
      then push_passed name_token c (read_quoted 34 false s)
      else if eqb c b'['
      then push_passed name_token c (read_bracketed s)
      else if is_word_start c
      then push_passed word_token c (read_while is_word_char s)
      else if is_digit c
      then push_passed (plain_token number) c (read_while is_number_char s)
      else if is_punctuation c
      then pushes (plain_token punctuation (c ∷ [])) s
      else pushes (plain_token operator (c ∷ [])) s

  -- The loop, with fuel for its rounds.
  unfoldable pub tokenize_from : ℕ → Text → List SqlToken
  tokenize_from zero text = []
  tokenize_from (suc fuel) [] = []
  tokenize_from (suc fuel) (c ∷ s) = elim (read_token c s) [
    | skips gap rest ↦ tokenize_from fuel rest
    | pushes token rest ↦ token ∷ tokenize_from fuel rest
  ]

  unfoldable pub tokenize_sql : Text → List SqlToken
  tokenize_sql sql_text = tokenize_from (length sql_text) sql_text

-- `name.replaceAll('`', '``')`
unfoldable pub double_backticks : Text → Text
double_backticks [] = []
double_backticks (c ∷ s) = (if eqb c 96 then 96 ∷ 96 ∷ [] else c ∷ []) ++ double_backticks s

-- `quoteIdentifier` of appHelpers.ts.
unfoldable pub quote_identifier : Text → Text
unfolding double_backticks
quote_identifier raw = 96 ∷ double_backticks raw ++ 96 ∷ []

abbrev pub every : (ℕ → Bool) → Text → Bool
every p [] = true
every p (c ∷ s) = p c && every p s

-- `/^[A-Za-z_][A-Za-z0-9_$]*$/.test(name)`
unfoldable pub is_plain_name : Text → Bool
is_plain_name [] = false
is_plain_name (c ∷ s) = is_word_start c && every is_word_char s

unfoldable pub quote_sql_identifier : Text → Text
quote_sql_identifier name = if is_plain_name name then name else quote_identifier name

-- `isIdentifierToken`
abbrev pub is_identifier_type : TokenType → Bool
is_identifier_type word = true
is_identifier_type identifier = true
is_identifier_type _ = false

abbrev pub is_text : String → SqlToken → Bool
is_text literal token = text_eq token.text (codes literal)

-- The loop of `splitTopLevelTokens`, with the group that is being collected.
unfoldable pub split_from : Text → ℕ → List SqlToken → List SqlToken → List (List SqlToken)
split_from delimiter nesting group [] = group ∷ []
split_from delimiter nesting group (token ∷ tokens) =
    let opened = split_from delimiter (nesting + 1) (group ++ token ∷ []) tokens in
    let closed = split_from delimiter (nesting - 1) (group ++ token ∷ []) tokens in
    let cut = group ∷ split_from delimiter nesting [] tokens in
    let longer = split_from delimiter nesting (group ++ token ∷ []) tokens in
    if is_text "(" token
    then opened
    else if is_text ")" token
    then closed
    else if eqb nesting 0 && text_eq token.text delimiter
    then cut
    else longer

unfoldable pub split_top_level_tokens : List SqlToken → Text → List (List SqlToken)
split_top_level_tokens tokens delimiter = split_from delimiter 0 [] tokens

-- What `readParenthesizedTokens` returns, with the tokens from `next_index` on.
pub record Parenthesized : Type 0 where
  pub inner_tokens : List SqlToken
  pub rest : List SqlToken

abbrev pub with_inner : SqlToken → Parenthesized → Parenthesized
with_inner token p = record { inner_tokens = token ∷ p.inner_tokens; rest = p.rest }

-- The loop of `readParenthesizedTokens` at a depth of at least 1, behind an opening parenthesis.
unfoldable pub read_nested : ℕ → List SqlToken → Parenthesized
read_nested nesting [] = record { inner_tokens = []; rest = [] }
read_nested nesting (token ∷ tokens) =
    let deeper = with_inner token (read_nested (nesting + 1) tokens) in
    let out = with_inner token (read_nested (nesting - 1) tokens) in
    let same = with_inner token (read_nested nesting tokens) in
    if is_text "(" token
    then deeper
    else if is_text ")" token
    then (if eqb (nesting - 1) 0 then record { inner_tokens = []; rest = tokens } else out)
    else same

-- `readParenthesizedTokens` at an opening parenthesis, as its callers use it; elsewhere `none`.
unfoldable pub read_parenthesized_tokens : List SqlToken → Option Parenthesized
read_parenthesized_tokens [] = none
read_parenthesized_tokens (token ∷ tokens) =
    if is_text "(" token then some (read_nested 1 tokens) else none
