-- ===== src/Sql/Tokens/Groups.antt =====
-- `splitTopLevelTokens` and `readParenthesizedTokens` on token lists.
use zszc_sql_client.Base.{
  ℕ, suc, ◌+◌, ◌-◌, ◌≡◌, refl, ap, sym, ◌∙◌, true, false, some, List, [], ◌∷◌, ◌++◌, append_assoc,
  arith,
}
use zszc_sql_client.Sql.Text.{Text, text_eq→eq}
use zszc_sql_client.Sql.Tokens.{
  SqlToken, Parenthesized, with_inner, is_text, split_from, split_top_level_tokens, read_nested,
  read_parenthesized_tokens,
}

abbrev pub texts : List SqlToken → List Text
texts [] = []
texts (token ∷ tokens) = token.text ∷ texts tokens

-- The groups one behind another, with the delimiter before each.
abbrev pub delimited : Text → List (List SqlToken) → List Text
delimited delimiter [] = []
delimited delimiter (group ∷ groups) = (delimiter ∷ texts group) ++ delimited delimiter groups

texts-snoc :
    (group : List SqlToken) (token : SqlToken) (l : List Text)
    → texts (group ++ token ∷ []) ++ l ≡ texts group ++ token.text ∷ l
texts-snoc [] token l = refl
texts-snoc (t ∷ group) token l = ap (λ r. t.text ∷ r) (texts-snoc group token l)

delimited-split_from :
    (delimiter : Text) (nesting : ℕ) (group tokens : List SqlToken)
    → delimited delimiter (split_from delimiter nesting group tokens)
      ≡ delimiter ∷ texts group ++ texts tokens
unfolding split_from
delimited-split_from delimiter nesting group [] = refl
delimited-split_from delimiter nesting group (token ∷ tokens) = ground (
  arith,
  delimited-split_from delimiter (nesting + 1) (group ++ token ∷ []) tokens,
  delimited-split_from delimiter (nesting - 1) (group ++ token ∷ []) tokens,
  delimited-split_from delimiter nesting [] tokens,
  delimited-split_from delimiter nesting (group ++ token ∷ []) tokens,
  texts-snoc group token (texts tokens),
  text_eq→eq token.text delimiter,
)

-- Splitting loses no token: the groups with the delimiter before each of them are the texts of the
-- tokens behind one delimiter, whatever the parentheses are.
pub delimited-split_top_level_tokens :
    (tokens : List SqlToken) (delimiter : Text)
    → delimited delimiter (split_top_level_tokens tokens delimiter) ≡ delimiter ∷ texts tokens
unfolding split_top_level_tokens
delimited-split_top_level_tokens tokens delimiter = delimited-split_from delimiter 0 [] tokens

-- Token lists whose parentheses match.
pub data IsBalanced : List SqlToken → Type 0 where
  empty : IsBalanced []
  plain :
      (token : SqlToken) {tokens : List SqlToken}
      → is_text "(" token ≡ false
      → is_text ")" token ≡ false
      → IsBalanced tokens
      → IsBalanced (token ∷ tokens)
  nested :
      (opening closing : SqlToken) {inside tokens : List SqlToken}
      → is_text "(" opening ≡ true
      → is_text "(" closing ≡ false
      → is_text ")" closing ≡ true
      → IsBalanced inside
      → IsBalanced tokens
      → IsBalanced (opening ∷ inside ++ closing ∷ tokens)

abbrev with_all : List SqlToken → Parenthesized → Parenthesized
with_all [] p = p
with_all (token ∷ tokens) p = with_inner token (with_all tokens p)

with_all-append :
    (a b : List SqlToken) (p : Parenthesized) → with_all (a ++ b) p ≡ with_all a (with_all b p)
with_all-append [] b p = refl
with_all-append (token ∷ a) b p = ap (with_inner token) (with_all-append a b p)

with_all-inner :
    (a rest : List SqlToken)
    → with_all a (record { inner_tokens = []; rest = rest })
      ≡ record { inner_tokens = a; rest = rest }
with_all-inner [] rest = refl
with_all-inner (token ∷ a) rest = ap (with_inner token) (with_all-inner a rest)

-- One round of the loop on each kind of token.
read_nested-plain :
    (token : SqlToken) (tokens : List SqlToken) (nesting : ℕ)
    → is_text "(" token ≡ false
    → is_text ")" token ≡ false
    → read_nested nesting (token ∷ tokens) ≡ with_inner token (read_nested nesting tokens)
unfolding read_nested
read_nested-plain token tokens nesting o c = ground (arith, o, c)

read_nested-opening :
    (token : SqlToken) (tokens : List SqlToken) (nesting : ℕ)
    → is_text "(" token ≡ true
    → read_nested nesting (token ∷ tokens) ≡ with_inner token (read_nested (nesting + 1) tokens)
unfolding read_nested
read_nested-opening token tokens nesting o = ground (arith, o)

read_nested-closing :
    (token : SqlToken) (tokens : List SqlToken) (nesting : ℕ)
    → is_text "(" token ≡ false
    → is_text ")" token ≡ true
    → read_nested (suc (suc nesting)) (token ∷ tokens)
      ≡ with_inner token (read_nested (suc nesting) tokens)
unfolding read_nested
read_nested-closing token tokens nesting o c = ground (arith, o, c)

-- The parenthesis that closes the outermost group ends the reading.
read_nested-end :
    (token : SqlToken) (tokens : List SqlToken)
    → is_text "(" token ≡ false
    → is_text ")" token ≡ true
    → read_nested 1 (token ∷ tokens) ≡ record { inner_tokens = []; rest = tokens }
unfolding read_nested
read_nested-end token tokens o c = ground (arith, o, c)

-- Balanced tokens are passed over at any depth.
read_nested-IsBalanced :
    {tokens : List SqlToken} (b : IsBalanced tokens) (nesting : ℕ) (tail : List SqlToken)
    → read_nested (suc nesting) (tokens ++ tail) ≡ with_all tokens (read_nested (suc nesting) tail)
read_nested-IsBalanced empty nesting tail = refl
read_nested-IsBalanced (plain token {tokens} o c b) nesting tail =
    read_nested-plain token (tokens ++ tail) (suc nesting) o c
    ∙ ap (with_inner token) (read_nested-IsBalanced b nesting tail)
read_nested-IsBalanced (nested opening closing {inside} {tokens} o n c b d) nesting tail =
    let deeper : suc nesting + 1 ≡ suc (suc nesting) = omega arith in
    rw (read_nested-opening opening ((inside ++ closing ∷ tokens) ++ tail) (suc nesting) o) (
      rw (deeper) (
        rw (append_assoc inside (closing ∷ tokens) tail) (
          rw (read_nested-IsBalanced b (suc nesting) (closing ∷ tokens ++ tail)) (
            rw (read_nested-closing closing (tokens ++ tail) nesting n c) (
              rw (read_nested-IsBalanced d nesting tail) (
                ap (with_inner opening) (
                  sym (
                    with_all-append inside (closing ∷ tokens)
                      (read_nested (suc nesting) tail)))))))))

-- What stands between two matching parentheses is returned whole, with nested groups, and the reading
-- goes on behind the closing one: `opening` and `closing` are the parentheses, the tokens between
-- them are balanced, and any tokens follow.
pub read_parenthesized-group :
    (opening closing : SqlToken) (inside rest : List SqlToken)
    → is_text "(" opening ≡ true
    → is_text "(" closing ≡ false
    → is_text ")" closing ≡ true
    → IsBalanced inside
    → read_parenthesized_tokens (opening ∷ inside ++ closing ∷ rest)
      ≡ some (record { inner_tokens = inside; rest = rest })
unfolding read_parenthesized_tokens
read_parenthesized-group opening closing inside rest o n c b = rw (o) (
    rw (read_nested-IsBalanced b 0 (closing ∷ rest))
      (rw (read_nested-end closing rest n c) (ap some (with_all-inner inside rest))))
