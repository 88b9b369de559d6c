-- ===== src/Sql/Statement.antt =====
-- `extractCurrentStatement` and `isInsideQuotedRegion`: the statement under the cursor, and whether
-- a position lies in a string, a quoted name or a comment.
-- The five flags of the source, of which at most one is set, are one mode. An extra `index += 1` is
-- a character that the next round skips.
pub mod Cursor
pub mod Regions
use zszc_sql_client.Base.{
  ℕ, zero, suc, ◌+◌, ◌-◌, Bool, true, false, not, ◌&&◌, ◌||◌, Option, none, some, List, [], ◌∷◌,
  eqb, ltb, take, drop, length, if◌then◌else◌,
}
use zszc_sql_client.Sql.Text.{Text}

pub data Mode : Type 0 where
  plain single_quote double_quote backtick line_comment block_comment : Mode

pub record Scan : Type 0 where
  pub mode : Mode
  pub skip : Bool

abbrev pub scan_start : Scan
scan_start = record { mode = plain; skip = false }

abbrev pub at_mode : Mode → Bool → Scan
at_mode mode skip = record { mode = mode; skip = skip }

-- `sqlText[index]` after the current character
abbrev pub head? : Text → Option ℕ
head? [] = none
head? (c ∷ s) = some c

abbrev pub next_is : Option ℕ → ℕ → Bool
next_is none c = false
next_is (some d) c = eqb d c

-- A quoted region: a doubled quote stays inside, a single one ends it.
abbrev pub scan_quoted : Mode → ℕ → ℕ → Option ℕ → Scan
scan_quoted mode quote c next =
    if eqb c quote && next_is next quote
    then at_mode mode true
    else if eqb c quote
    then at_mode plain false
    else at_mode mode false

-- One round of the loop on a character that is not skipped, as far as it concerns the mode.
unfoldable pub scan_char : Mode → ℕ → Option ℕ → Scan
scan_char line_comment c next = if eqb c 10 then at_mode plain false else at_mode line_comment false
scan_char block_comment c next =
    if eqb c b'*' && next_is next b'/' then at_mode plain true else at_mode block_comment false
scan_char single_quote c next = scan_quoted single_quote 39 c next
scan_char double_quote c next = scan_quoted double_quote 34 c next
scan_char backtick c next = scan_quoted backtick 96 c next
scan_char plain c next =
    if eqb c b'-' && next_is next b'-'
    then at_mode line_comment true
    else if eqb c b'#'
    then at_mode line_comment false
    else if eqb c b'/' && next_is next b'*'
    then at_mode block_comment true
    else if eqb c 39
    then at_mode single_quote false
    else if eqb c 34
    then at_mode double_quote false
    else if eqb c 96
    then at_mode backtick false
    else at_mode plain false

unfoldable pub advance : Scan → ℕ → Option ℕ → Scan
unfolding scan_char
advance s c next = if s.skip then at_mode s.mode false else scan_char s.mode c next

-- The scan after the characters below a position; behind the end nothing changes.
unfoldable pub scan_to : Scan → ℕ → Text → Scan
scan_to s zero text = s
scan_to s (suc k) [] = s
scan_to s (suc k) (c ∷ rest) = scan_to (advance s c (head? rest)) k rest

abbrev pub is_plain : Mode → Bool
is_plain plain = true
is_plain _ = false

unfoldable pub is_inside_quoted_region : Text → ℕ → Bool
is_inside_quoted_region sql_text cursor_offset =
    not (is_plain (scan_to scan_start cursor_offset sql_text).mode)

-- Whether the character is read as SQL.
abbrev pub is_code : Scan → Bool
is_code s = is_plain s.mode && not s.skip

-- `nesting` after a character; `-` stops at 0, as the source's `Math.max` does.
unfoldable pub nest : Scan → ℕ → ℕ → ℕ
nest s nesting c =
    if is_code s && eqb c b'('
    then nesting + 1
    else if is_code s && eqb c b')'
    then nesting - 1
    else nesting

-- A semicolon that ends a statement.
unfoldable pub is_terminator : Scan → ℕ → ℕ → Bool
is_terminator s nesting c = is_code s && eqb c b';' && eqb nesting 0

pub record Bounds : Type 0 where
  pub start : ℕ
  pub stop : ℕ

-- The loop of `extractCurrentStatement` from `index`, over the rest of the text.
unfoldable pub find_bounds : Scan → ℕ → ℕ → ℕ → ℕ → Text → Bounds
find_bounds s nesting index start cursor [] = record { start = start; stop = index }
find_bounds s nesting index start cursor (c ∷ rest) =
    let later =
      find_bounds (advance s c (head? rest)) (nest s nesting c) (index + 1)
        (if is_terminator s nesting c then index + 1 else start) cursor rest in
    if is_terminator s nesting c && not (ltb index cursor)
    then record { start = start; stop = index }
    else later

pub record CurrentStatement : Type 0 where
  pub before_cursor_text : Text
  pub cursor_offset : ℕ
  pub text : Text

unfoldable pub statement_bounds : Text → ℕ → Bounds
statement_bounds sql_text cursor_offset = find_bounds scan_start 0 0 0 cursor_offset sql_text

-- `text.slice(a, b)`
abbrev pub slice : ℕ → ℕ → Text → Text
slice a b text = take (b - a) (drop a text)

unfoldable pub extract_current_statement : Text → ℕ → CurrentStatement
extract_current_statement sql_text cursor_offset =
    let bounds = statement_bounds sql_text cursor_offset in
    let text = slice bounds.start bounds.stop sql_text in
    record {
      before_cursor_text = take (cursor_offset - bounds.start) text;
      cursor_offset = cursor_offset - bounds.start;
      text = text;
    }
