-- ===== src/Sql/Statement/Regions.antt =====
-- The statement starts outside of every string, quoted name and comment.
use zszc_sql_client.Base.{
  ℕ, zero, suc, ◌+◌, ◌≡◌, ◌∙◌, refl, ap, Option, true, false, [], ◌∷◌, drop, ltb, arith, Bool-cases,
  inl, inr,
}
use zszc_sql_client.Sql.Text.{Text}
use zszc_sql_client.Sql.Statement.{
  Scan, scan_start, head?, advance, scan_to, nest, is_terminator, find_bounds, statement_bounds,
  is_inside_quoted_region,
}

-- One more character of the text.
scan_to-suc :
    (s : Scan) (k : ℕ) (text : Text) (c : ℕ) (rest : Text)
    → drop k text ≡ c ∷ rest
    → scan_to s (suc k) text ≡ advance (scan_to s k text) c (head? rest)
unfolding scan_to
scan_to-suc s zero [] c rest e = ground arith
scan_to-suc s zero (d ∷ text) c rest e = ground arith
scan_to-suc s (suc k) [] c rest e = ground arith
scan_to-suc s (suc k) (d ∷ text) c rest e = scan_to-suc (advance s d (head? text)) k text c rest e

drop-suc :
    (k : ℕ) (text : Text) (c : ℕ) (rest : Text) → drop k text ≡ c ∷ rest → drop (suc k) text ≡ rest
drop-suc zero [] c rest e = ground arith
drop-suc zero (d ∷ text) c rest e = ground arith
drop-suc (suc k) [] c rest e = ground arith
drop-suc (suc k) (d ∷ text) c rest e = drop-suc k text c rest e

-- Reading a semicolon that ends a statement leaves the scan as at the start of a text.
advance-terminator :
    (s : Scan) (nesting c : ℕ) (next : Option ℕ)
    → is_terminator s nesting c ≡ true
    → advance s c next ≡ scan_start
unfolding advance is_terminator
advance-terminator s nesting c next h = ground arith

abbrev IsFresh : Text → ℕ → Type 0
IsFresh sql k = scan_to scan_start k sql ≡ scan_start

find_bounds-IsFresh :
    (sql : Text) (s : Scan) (nesting index start cursor : ℕ) (text : Text)
    → drop index sql ≡ text
    → scan_to scan_start index sql ≡ s
    → IsFresh sql start
    → IsFresh sql (find_bounds s nesting index start cursor text).start
unfolding find_bounds
find_bounds-IsFresh sql s nesting index start cursor [] d e f = f
find_bounds-IsFresh sql s nesting index start cursor (c ∷ rest) d e f =
    let one : index + 1 ≡ suc index = omega arith in
    let after : drop (index + 1) sql ≡ rest = rw one (drop-suc index sql c rest d) in
    let step : scan_to scan_start (index + 1) sql ≡ advance s c (head? rest) =
      rw one (scan_to-suc scan_start index sql c rest d ∙ ap (λ z. advance z c (head? rest)) e) in
    elim (Bool-cases (is_terminator s nesting c)) [
      | inl ends ↦ elim (Bool-cases (ltb index cursor)) [
        | inl before ↦
            rw (ends, before)
              (find_bounds-IsFresh sql (advance s c (head? rest)) (nest s nesting c) (index + 1)
                (index + 1) cursor rest after step
                (step ∙ advance-terminator s nesting c (head? rest) ends))
        | inr behind ↦ rw (ends, behind) f
      ]
      | inr goes_on ↦ rw goes_on (
          find_bounds-IsFresh sql (advance s c (head? rest)) (nest s nesting c) (index + 1) start
            cursor rest after step f)
    ]

-- At the start of the current statement the position lies in no string, quoted name or comment, and
-- reading the text from there on reads it as from the start of a text.
pub statement_start-fresh :
    (sql_text : Text) (cursor : ℕ)
    → (scan_to scan_start (statement_bounds sql_text cursor).start sql_text ≡ scan_start)
      × (is_inside_quoted_region sql_text (statement_bounds sql_text cursor).start ≡ false)
unfolding statement_bounds is_inside_quoted_region
statement_start-fresh sql_text cursor =
    let fresh : IsFresh sql_text (statement_bounds sql_text cursor).start =
      find_bounds-IsFresh sql_text scan_start 0 0 0 cursor sql_text refl (unfold scan_to in refl)
        (unfold scan_to in refl) in
    (fresh, rw fresh)
