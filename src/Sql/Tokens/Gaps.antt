-- ===== src/Sql/Tokens/Gaps.antt =====
-- The scans of the tokenizer, and the gaps between tokens.
use zszc_sql_client.Base.{
  Bool-cases, inl, inr, if◌then◌else◌, ℕ, ◌≡◌, refl, Bool, true, false, not, ◌&&◌, ◌||◌, [], ◌∷◌,
  ◌++◌, eqb, arith,
}
use zszc_sql_client.Sql.Text.{Text, is_space}
use zszc_sql_client.Sql.Statement.{head?, next_is}
use zszc_sql_client.Sql.Tokens.{
  Passed, read_until_line_end, read_until_block_comment_end, read_quoted, read_bracketed,
  read_while,
}

-- A scan returns its text, cut in two.
abbrev pub Splits : Text → Passed → Type 0
Splits s p = p.taken ++ p.rest ≡ s

pub line_end-Splits : (s : Text) → Splits s (read_until_line_end s)
unfolding read_until_line_end
line_end-Splits [] = refl
line_end-Splits (c ∷ s) = ground (arith, line_end-Splits s)

pub block_end-Splits : (s : Text) → Splits s (read_until_block_comment_end s)
unfolding read_until_block_comment_end
block_end-Splits [] = refl
block_end-Splits (c ∷ []) = refl
block_end-Splits (c ∷ d ∷ s) = ground (arith, block_end-Splits (d ∷ s))

pub quoted-Splits : (quote : ℕ) (escaped : Bool) (s : Text) → Splits s (read_quoted quote escaped s)
unfolding read_quoted
quoted-Splits quote escaped [] = refl
quoted-Splits quote escaped (c ∷ s) =
    ground (arith, quoted-Splits quote (not escaped && eqb c quote && next_is (head? s) quote) s)

pub bracketed-Splits : (s : Text) → Splits s (read_bracketed s)
unfolding read_bracketed
bracketed-Splits [] = refl
bracketed-Splits (c ∷ s) = ground (arith, bracketed-Splits s)

pub while-Splits : (p : ℕ → Bool) (s : Text) → Splits s (read_while p s)
unfolding read_while
while-Splits p [] = refl
while-Splits p (c ∷ s) = ground (arith, while-Splits p s)

-- A text without a line feed, and one that starts with a line feed unless it is empty.
abbrev pub is_one_line : Text → Bool
is_one_line [] = true
is_one_line (c ∷ s) = not (eqb c 10) && is_one_line s

abbrev pub is_at_line_end : Text → Bool
is_at_line_end [] = true
is_at_line_end (c ∷ s) = eqb c 10

abbrev pub is_empty_text : Text → Bool
is_empty_text [] = true
is_empty_text (c ∷ s) = false

-- A block comment behind its mark, with the text that follows: it ends behind the first `*/`, or if there
-- is none at the end of the text.
abbrev pub is_block : Text → Text → Bool
is_block [] rest = is_empty_text rest
is_block (c ∷ []) rest = is_empty_text rest
is_block (c ∷ d ∷ s) rest =
    let later = is_block (d ∷ s) rest in if eqb c b'*' && eqb d b'/' then is_empty_text s else later

-- A gap between tokens, with the text that follows: one white space; a comment from `#` or two dashes to
-- the end of the line, the line feed not included; or a block comment.
abbrev pub is_gap : Text → Text → Bool
is_gap [] rest = false
is_gap (c ∷ []) rest = is_space c || eqb c b'#' && is_at_line_end rest
is_gap (c ∷ d ∷ s) rest =
    eqb c b'#' && is_one_line (d ∷ s) && is_at_line_end rest
    || eqb c b'-' && eqb d b'-' && is_one_line s && is_at_line_end rest
    || eqb c b'/' && eqb d b'*' && is_block s rest

-- A scan to the end of the line stops there, and not before.
abbrev pub IsRestOfLine : Passed → Type 0
IsRestOfLine p = (is_one_line p.taken ≡ true) × (is_at_line_end p.rest ≡ true)

pub line_end-IsRestOfLine : (s : Text) → IsRestOfLine (read_until_line_end s)
unfolding read_until_line_end
line_end-IsRestOfLine [] = (refl, refl)
line_end-IsRestOfLine (c ∷ s) = elim (Bool-cases (eqb c 10)) [
  | inl feed ↦ rw feed (refl, feed)
  | inr other ↦ rw (other, other) (line_end-IsRestOfLine s)
]

abbrev pub IsCommentBody : Passed → Type 0
IsCommentBody p = is_block p.taken p.rest ≡ true

pub block_end-IsCommentBody : (s : Text) → IsCommentBody (read_until_block_comment_end s)
unfolding read_until_block_comment_end
block_end-IsCommentBody [] = refl
block_end-IsCommentBody (c ∷ []) = refl
block_end-IsCommentBody (c ∷ d ∷ []) = ground arith
block_end-IsCommentBody (c ∷ d ∷ e ∷ s) = elim (Bool-cases (eqb c b'*' && eqb d b'/')) [
  | inl ends ↦ rw (ends, ends) refl
  | inr ongoing ↦ elim (Bool-cases (eqb d b'*' && eqb e b'/')) [
    | inl next ↦ ground (arith, block_end-IsCommentBody (d ∷ e ∷ s))
    | inr later ↦ ground (arith, block_end-IsCommentBody (d ∷ e ∷ s))
  ]
]

pub hash_gap :
    (c : ℕ) (g rest : Text)
    → eqb c b'#' ≡ true
    → is_one_line g ≡ true
    → is_at_line_end rest ≡ true
    → is_gap (c ∷ g) rest ≡ true
hash_gap c [] rest h one_line line_end = ground arith
hash_gap c (d ∷ g) rest h one_line line_end = ground arith
