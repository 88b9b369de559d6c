-- ===== src/Sql/Statement/Cursor.antt =====
-- The statement holds the cursor.
use zszc_sql_client.Base.{
  ℕ, zero, suc, ◌+◌, ◌-◌, ◌≤◌, ◌≡◌, ◌∙◌, refl, sym, ap, false, List, [], ◌∷◌, ◌++◌, length,
  length-take, length-drop, ltb→lt, take, drop, ltb, arith, Bool-cases, inl, inr,
}
use zszc_sql_client.Sql.Text.{Text}
use zszc_sql_client.Sql.Statement.{
  Scan, scan_start, head?, advance, nest, is_terminator, find_bounds, Bounds, statement_bounds,
  extract_current_statement,
}

-- What holds of the bounds, from an index that has been reached and a start that lies behind it.
pub record AreBounds (index cursor size : ℕ) (b : Bounds) : Type 0 where
  pub before_cursor : b.start ≤ cursor
  pub ordered : b.start ≤ b.stop
  pub inside : b.stop ≤ index + size
  pub holds_cursor : cursor ≤ index + size → cursor ≤ b.stop

later-AreBounds :
    {index cursor size : ℕ} {b : Bounds}
    → AreBounds (index + 1) cursor size b
    → AreBounds index cursor (suc size) b
later-AreBounds b = record {
  before_cursor = b.before_cursor;
  ordered = b.ordered;
  inside = omega arith;
  holds_cursor = λ e. b.holds_cursor (omega arith);
}

not-before : (index cursor : ℕ) → ltb index cursor ≡ false → cursor ≤ index
not-before index cursor h = ground arith

find_bounds-AreBounds :
    (s : Scan) (nesting index start cursor : ℕ) (text : Text)
    → start ≤ cursor
    → start ≤ index
    → AreBounds index cursor (length text) (find_bounds s nesting index start cursor text)
unfolding find_bounds
find_bounds-AreBounds s nesting index start cursor [] h k = record {
  before_cursor = h;
  ordered = k;
  inside = omega arith;
  holds_cursor = λ e. omega arith;
}
find_bounds-AreBounds s nesting index start cursor (c ∷ rest) h k =
    elim (Bool-cases (is_terminator s nesting c)) [
      | inl ends ↦ elim (Bool-cases (ltb index cursor)) [
        | inl before ↦
            rw (ends, before)
              (later-AreBounds (
                find_bounds-AreBounds (advance s c (head? rest)) (nest s nesting c) (index + 1)
                  (index + 1) cursor rest (omega (arith, ltb→lt index cursor before))
                  (omega arith)))
        | inr behind ↦
            rw (ends, behind)
              (record {
                before_cursor = h;
                ordered = k;
                inside = omega arith;
                holds_cursor = λ e. not-before index cursor behind;
              })
      ]
      | inr goes_on ↦ rw goes_on (
          later-AreBounds (
            find_bounds-AreBounds (advance s c (head? rest)) (nest s nesting c) (index + 1) start
              cursor rest h (omega arith)))
    ]

-- The bounds of the current statement: it starts at or before the cursor, ends at or behind it where
-- the cursor lies in the text, and lies in the text.
pub statement_bounds-AreBounds :
    (sql_text : Text) (cursor : ℕ)
    → AreBounds 0 cursor (length sql_text) (statement_bounds sql_text cursor)
unfolding statement_bounds
statement_bounds-AreBounds sql_text cursor =
    find_bounds-AreBounds scan_start 0 0 0 cursor sql_text (omega arith) (omega arith)

take-nil {ℓ} : {A : Type ℓ} (n : ℕ) → take {A = A} n [] ≡ []
take-nil zero = refl
take-nil (suc n) = refl

take-take {ℓ} : {A : Type ℓ} (m n : ℕ) (xs : List A) → m ≤ n → take m (take n xs) ≡ take m xs
take-take zero n xs h = refl
take-take (suc m) zero xs h = absurd (omega arith)
take-take (suc m) (suc n) [] h = refl
take-take (suc m) (suc n) (x ∷ xs) h = ap (λ l. x ∷ l) (take-take m n xs (omega arith))

take-append-take {ℓ} :
    {A : Type ℓ} (a k : ℕ) (xs : List A) → take a xs ++ take k (drop a xs) ≡ take (a + k) xs
take-append-take zero k xs = let e : 0 + k ≡ k = omega arith in rw e
take-append-take (suc a) k [] = take-nil k ∙ sym (take-nil (suc a + k))
take-append-take (suc a) k (x ∷ xs) =
    let e : suc a + k ≡ suc (a + k) = omega arith in
    rw e (ap (λ l. x ∷ l) (take-append-take a k xs))

-- For a cursor in the text: what stands before the statement, followed by the part of the statement
-- before the cursor, is the text before the cursor, and the offset in the statement is the length of
-- that part.
pub before_cursor_text-eq :
    (sql_text : Text) (cursor : ℕ)
    → cursor ≤ length sql_text
    → let statement = extract_current_statement sql_text cursor in
      (take (cursor - statement.cursor_offset) sql_text ++ statement.before_cursor_text
        ≡ take cursor sql_text)
      × (length statement.before_cursor_text ≡ statement.cursor_offset)
unfolding extract_current_statement
before_cursor_text-eq sql_text cursor h =
    let b = statement_bounds-AreBounds sql_text cursor in
    let start = (statement_bounds sql_text cursor).start in
    let stop = (statement_bounds sql_text cursor).stop in
    let part = take-take (cursor - start) (stop - start) (drop start sql_text) (omega arith) in
    let begins : cursor - (cursor - start) ≡ start = omega arith in
    let ends : start + (cursor - start) ≡ cursor = omega arith in
    (
      rw (begins, part)
          (take-append-take start (cursor - start) sql_text ∙ ap (λ n. take n sql_text) ends),
      rw part (
          omega (
            arith,
            length-take (cursor - start) (drop start sql_text),
            length-drop start sql_text,
          )),
    )
