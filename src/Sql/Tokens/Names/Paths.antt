-- ===== src/Sql/Tokens/Names/Paths.antt =====
-- Paths of names, and where a list of names ends.
use zszc_sql_client.Base.{
  ℕ, ◌+◌, ◌-◌, ◌≡◌, refl, Bool, true, false, ◌&&◌, some, List, [], ◌∷◌, ◌++◌, map, All, arith,
}
use zszc_sql_client.Sql.Text.{Text, codes, text_eq}
use zszc_sql_client.Sql.Tokens.{
  SqlToken, is_identifier_type, is_text, unquote_sql_identifier, read_nested,
  read_parenthesized_tokens,
}
use zszc_sql_client.Sql.Tokens.Names.{
  read_alias_token, is_among, alias_stop_keywords, read_path, read_qualified_identifier,
  read_listed, read_identifier_list,
}

-- Whether a further name of a path stands at the start of the tokens.
abbrev pub goes_on : List SqlToken → Bool
goes_on [] = false
goes_on (dot ∷ []) = false
goes_on (dot ∷ token ∷ tokens) = is_text "." dot && is_identifier_type token.type

abbrev pub IsName : SqlToken → Type 0
IsName token = is_identifier_type token.type ≡ true

-- Each name with a dot before it.
abbrev pub dotted : SqlToken → List SqlToken → List SqlToken
dotted dot [] = []
dotted dot (name ∷ names) = dot ∷ name ∷ dotted dot names

abbrev pub unquoted : List SqlToken → List Text
unquoted = map (λ token. unquote_sql_identifier token.text)

read_path-end :
    (rest : List SqlToken)
    → goes_on rest ≡ false
    → read_path rest ≡ record { identifiers = []; rest = rest }
unfolding read_path
read_path-end [] h = refl
read_path-end (dot ∷ []) h = refl
read_path-end (dot ∷ token ∷ tokens) h = rw h refl

read_path-dotted :
    (dot : SqlToken) (names rest : List SqlToken)
    → is_text "." dot ≡ true
    → All IsName names
    → goes_on rest ≡ false
    → read_path (dotted dot names ++ rest) ≡ record { identifiers = unquoted names; rest = rest }
unfolding read_path
read_path-dotted dot [] rest d n h = read_path-end rest h
read_path-dotted dot (name ∷ names) rest d n h =
    simp (d, n.0, read_path-dotted dot names rest d n.1 h)

-- A path of at least one name, with dots between the names, is read whole, its names unquoted and in order,
-- and the reading stops behind it, if no dot with a name follows there.
pub read_qualified_identifier-dotted :
    (dot name : SqlToken) (names rest : List SqlToken)
    → is_text "." dot ≡ true
    → IsName name
    → All IsName names
    → goes_on rest ≡ false
    → read_qualified_identifier (name ∷ dotted dot names ++ rest)
      ≡ some (record { identifiers = unquoted (name ∷ names); rest = rest })
unfolding read_qualified_identifier
read_qualified_identifier-dotted dot name names rest d i n h =
    simp (i, read_path-dotted dot names rest d n h)

read_listed-rest :
    (nesting : ℕ) (tokens : List SqlToken)
    → (read_listed nesting tokens).rest ≡ (read_nested nesting tokens).rest
unfolding read_listed read_nested
read_listed-rest nesting [] = refl
read_listed-rest nesting (token ∷ tokens) = ground (
  arith,
  read_listed-rest (nesting + 1) tokens,
  read_listed-rest (nesting - 1) tokens,
  read_listed-rest nesting tokens,
)

-- At an opening parenthesis the list of names and the group of tokens end at the same token, whatever
-- stands between, also where the parenthesis is never closed.
pub read_identifier_list-rest :
    (opening : SqlToken) (tokens : List SqlToken)
    → is_text "(" opening ≡ true
    → read_parenthesized_tokens (opening ∷ tokens)
      ≡ some (record {
        inner_tokens = (read_nested 1 tokens).inner_tokens;
        rest = (read_identifier_list (opening ∷ tokens)).rest;
      })
unfolding read_identifier_list read_parenthesized_tokens
read_identifier_list-rest opening tokens h = simp (h, read_listed-rest 1 tokens)

-- The `as` before an alias may be left out: a name that is no stop keyword and does not read `as` itself
-- is the alias in both spellings, with the same rest behind it.
pub read_alias_token-optional_as :
    (lower : Text → Text) (keyword name : SqlToken) (rest : List SqlToken)
    → text_eq keyword.normalized (codes "as") ≡ true
    → IsName name
    → text_eq name.normalized (codes "as") ≡ false
    → is_among alias_stop_keywords (lower (unquote_sql_identifier name.text)) ≡ false
    → read_alias_token lower (name ∷ rest) ≡ read_alias_token lower (keyword ∷ name ∷ rest)
unfolding read_alias_token
read_alias_token-optional_as lower keyword name [] k i a s = simp (k, i, s)
read_alias_token-optional_as lower keyword name (token ∷ rest) k i a s = simp (k, i, a, s)
