-- ===== src/TableDomain/Rows/Selection.antt =====
-- Selecting a range of rows (`selectDataRowsRange`, `selectConsoleRowsRange`).
use zszc_sql_client.Base.{
  ℕ, zero, suc, ◌+◌, ap, ◌++◌, min, max, String, ◌≡◌, ◌∙◌, refl, Bool, true, false, ◌&&◌, ◌||◌,
  Option, none, some, List, [], ◌∷◌, any, get_elem?, leb, arith,
}
use mathlib.Core.Option
use mathlib.Core.Path.{fun_ext}
use zszc_sql_client.Types.Tabs.{DataGridRow, DataTab}
use zszc_sql_client.Types.Cells.{JsonRecord}
use zszc_sql_client.Grid.{
  is_pending_row, has_pending_data_mutations, inserted_rows, updated_row, updated_rows, deleted_row,
  deleted_rows, build_data_mutation_payload, UpdatedRowPayload,
}
use zszc_sql_client.TableDomain.{with_rows}
use zszc_sql_client.TableDomain.Rows.{mark_row, mark_range, mark_between, row_index, select_rows}

min_comm : (a b : ℕ) → min a b ≡ min b a
min_comm a b = omega arith

max_comm : (a b : ℕ) → max a b ≡ max b a
max_comm a b = omega arith

mark_between_symm :
    (a b : Option ℕ) (append : Bool) (rows : List DataGridRow)
    → mark_between a b append rows ≡ mark_between b a append rows
mark_between_symm (some a) (some b) append rows = rw (min_comm a b, max_comm a b)
mark_between_symm (some a) none append rows = refl
mark_between_symm none (some b) append rows = refl
mark_between_symm none none append rows = refl

-- Shift-clicking from one row to another selects what clicking the other way round selects.
pub select_rows_symm :
    (first second : String) (append : Bool) (rows : List DataGridRow)
    → select_rows first second append rows ≡ select_rows second first append rows
unfolding select_rows
select_rows_symm first second append rows =
    mark_between_symm (row_index first rows) (row_index second rows) append rows

-- The mark of a row at the index n.
abbrev marked_at : ℕ → ℕ → Bool → ℕ → Option DataGridRow → Option DataGridRow
marked_at lo hi append n = Option.map (mark_row (leb lo n && leb n hi) append)

get_elem?-mark_range :
    (lo hi : ℕ) (append : Bool) (start i : ℕ) (rows : List DataGridRow)
    → get_elem? (mark_range lo hi append start rows) i
      ≡ marked_at lo hi append (start + i) (get_elem? rows i)
unfolding mark_range
get_elem?-mark_range lo hi append start i [] = refl
get_elem?-mark_range lo hi append start zero (row ∷ rows) =
    let e : start ≡ start + 0 = omega arith in ap (λ n. marked_at lo hi append n (some row)) e
get_elem?-mark_range lo hi append start (suc i) (row ∷ rows) =
    let e : start + 1 + i ≡ start + suc i = omega arith in
    get_elem?-mark_range lo hi append (start + 1) i rows
    ∙ ap (λ n. marked_at lo hi append n (get_elem? rows i)) e

-- A row whose mark is set to say whether it stands in the range, or was selected and is kept so.
mark_row-eq :
    (inside append : Bool) (row : DataGridRow)
    → mark_row inside append row ≡ record row { selected = inside || append && row.selected }
mark_row-eq true append row = refl
mark_row-eq false true row = refl
mark_row-eq false false row = refl

-- When both ends are found, at the indices a and b, the row at each index between them, both
-- included, becomes selected; any other row keeps its mark if the range is appended, and loses it
-- if not. Nothing else of a row changes.
pub get_elem?-select_rows :
    (first second : String) (append : Bool) (rows : List DataGridRow) (a b i : ℕ)
    → row_index first rows ≡ some a
    → row_index second rows ≡ some b
    → get_elem? (select_rows first second append rows) i
      ≡ Option.map {A = DataGridRow} {B = DataGridRow}
          (λ row. record row {
            selected = leb (min a b) i && leb i (max a b) || append && row.selected;
          })
          (get_elem? rows i)
unfolding select_rows
get_elem?-select_rows first second append rows a b i p q =
    let e : 0 + i ≡ i = omega arith in
    rw (p, q)
      (get_elem?-mark_range (min a b) (max a b) append 0 i rows
        ∙ ap (λ n. marked_at (min a b) (max a b) append n (get_elem? rows i)) e
        ∙ ap (λ f. Option.map f (get_elem? rows i))
            (fun_ext (mark_row-eq (leb (min a b) i && leb i (max a b)) append)))

-- The parts of a row that decide what is submitted for it.
record SameDraft (r t : DataGridRow) : Type 0 where
  pending : is_pending_row r ≡ is_pending_row t
  inserted : inserted_rows (r ∷ []) ≡ inserted_rows (t ∷ [])
  update : updated_row r ≡ updated_row t
  deletion : deleted_row r ≡ deleted_row t

mark_row-SameDraft :
    (inside append : Bool) (row : DataGridRow) → SameDraft (mark_row inside append row) row
unfolding is_pending_row inserted_rows updated_row deleted_row
mark_row-SameDraft true append row = record {
  pending = refl;
  inserted = refl;
  update = refl;
  deletion = refl;
}
mark_row-SameDraft false true row = record {
  pending = refl;
  inserted = refl;
  update = refl;
  deletion = refl;
}
mark_row-SameDraft false false row = record {
  pending = refl;
  inserted = refl;
  update = refl;
  deletion = refl;
}

inserted_rows-cons :
    (row : DataGridRow) (rows : List DataGridRow)
    → inserted_rows (row ∷ rows) ≡ inserted_rows (row ∷ []) ++ inserted_rows rows
unfolding inserted_rows
inserted_rows-cons row rows = ground arith

updated_rows-cons :
    (row : DataGridRow) (rows : List DataGridRow)
    → updated_rows (row ∷ rows) ≡ updated_row row ++ updated_rows rows
unfolding updated_rows
updated_rows-cons row rows = refl

deleted_rows-cons :
    (row : DataGridRow) (rows : List DataGridRow)
    → deleted_rows (row ∷ rows) ≡ deleted_row row ++ deleted_rows rows
unfolding deleted_rows
deleted_rows-cons row rows = refl

-- What a list of rows gives to submit.
abbrev submission :
    List DataGridRow → Bool × List JsonRecord × List UpdatedRowPayload × List JsonRecord
submission rows =
    (any is_pending_row rows, inserted_rows rows, updated_rows rows, deleted_rows rows)

submission-cons :
    {r t : DataGridRow} (rs ts : List DataGridRow)
    → SameDraft r t
    → submission rs ≡ submission ts
    → submission (r ∷ rs) ≡ submission (t ∷ ts)
submission-cons {r} {t} rs ts d e = ground (
  arith,
  inserted_rows-cons r rs,
  inserted_rows-cons t ts,
  updated_rows-cons r rs,
  updated_rows-cons t ts,
  deleted_rows-cons r rs,
  deleted_rows-cons t ts,
)

mark_range-submission :
    (lo hi : ℕ) (append : Bool) (i : ℕ) (rows : List DataGridRow)
    → submission (mark_range lo hi append i rows) ≡ submission rows
unfolding mark_range
mark_range-submission lo hi append i [] = refl
mark_range-submission lo hi append i (row ∷ rows) =
    submission-cons (mark_range lo hi append (i + 1) rows) rows
      (mark_row-SameDraft (leb lo i && leb i hi) append row)
      (mark_range-submission lo hi append (i + 1) rows)

mark_between-submission :
    (a b : Option ℕ) (append : Bool) (rows : List DataGridRow)
    → submission (mark_between a b append rows) ≡ submission rows
mark_between-submission (some a) (some b) append rows =
    mark_range-submission (min a b) (max a b) append 0 rows
mark_between-submission (some a) none append rows = refl
mark_between-submission none b append rows = refl

select_rows-same :
    (first second : String) (append : Bool) (rows : List DataGridRow)
    → submission (select_rows first second append rows) ≡ submission rows
unfolding select_rows
select_rows-same first second append rows =
    mark_between-submission (row_index first rows) (row_index second rows) append rows

-- Selecting rows changes nothing about what is pending or submitted.
pub select_rows-submission :
    (first second : String) (append : Bool) (tab : DataTab)
    → (has_pending_data_mutations (with_rows (select_rows first second append) tab)
        ≡ has_pending_data_mutations tab)
      × (build_data_mutation_payload (with_rows (select_rows first second append) tab)
          ≡ build_data_mutation_payload tab)
unfolding has_pending_data_mutations build_data_mutation_payload
select_rows-submission first second append tab =
    ground (arith, select_rows-same first second append tab.grid.rows)
