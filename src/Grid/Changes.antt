-- ===== src/Grid/Changes.antt =====
-- What `buildChangedDataValues` reports.
use zszc_sql_client.Base.{
  String, ◌≡◌, ◌∙◌, refl, true, false, Option, none, some, arith, eq_iff, eq_refl, if◌then◌else◌,
  filter, Bool-cases, inl, inr,
}
use zszc_sql_client.Base.Dict.{
  lookup, insert_all, IsDict, kept, lookup-filter, filter-IsDict, from_entries_of_IsDict,
  lookup-insert_all, written,
}
use zszc_sql_client.Types.Cells.{CellValue, text, number, boolean, null, JsonRecord}
use zszc_sql_client.Types.Tabs.{DataGridRow}
use zszc_sql_client.Grid.{is_cell_value_equal, is_changed_entry, build_changed_data_values}

-- A cell equals itself, NaN included.
pub is_cell_value_equal_refl : (v : CellValue) → is_cell_value_equal (some v) (some v) ≡ true
unfolding is_cell_value_equal
is_cell_value_equal_refl (text s) = ground (arith, eq_refl s)
is_cell_value_equal_refl (number a) = ground arith
is_cell_value_equal_refl (boolean true) = refl
is_cell_value_equal_refl (boolean false) = refl
is_cell_value_equal_refl null = refl

-- The comparison is symmetric.
pub is_cell_value_equal_symm :
    (v w : Option CellValue) → is_cell_value_equal v w ≡ is_cell_value_equal w v
unfolding is_cell_value_equal
is_cell_value_equal_symm none none = refl
is_cell_value_equal_symm none (some w) = refl
is_cell_value_equal_symm (some v) none = refl
is_cell_value_equal_symm (some (text s)) (some (text t)) = ground (arith, eq_iff s t, eq_iff t s)
is_cell_value_equal_symm (some (number a)) (some (number b)) = ground arith
is_cell_value_equal_symm (some (boolean true)) (some (boolean true)) = refl
is_cell_value_equal_symm (some (boolean true)) (some (boolean false)) = refl
is_cell_value_equal_symm (some (boolean false)) (some (boolean true)) = refl
is_cell_value_equal_symm (some (boolean false)) (some (boolean false)) = refl
is_cell_value_equal_symm (some null) (some (text s)) = refl
is_cell_value_equal_symm (some null) (some _) = ground arith
is_cell_value_equal_symm (some v) (some w) = refl

pub build_changed-eq-filter :
    (row : DataGridRow)
    → IsDict row.values
    → build_changed_data_values row ≡ filter (is_changed_entry row.original_values) row.values
unfolding build_changed_data_values
build_changed-eq-filter row h =
    from_entries_of_IsDict _ (filter-IsDict (is_changed_entry row.original_values) row.values h)

pub build_changed-IsDict :
    (row : DataGridRow) → IsDict row.values → IsDict (build_changed_data_values row)
build_changed-IsDict row h =
    rw (build_changed-eq-filter row h)
      (filter-IsDict (is_changed_entry row.original_values) row.values h)

-- The value reported under a column: that of the grid, where it differs from the loaded one.
abbrev pub changed_value : Option CellValue → Option CellValue → Option CellValue
changed_value none original = none
changed_value (some v) original = if is_cell_value_equal (some v) original then none else some v

kept-is_changed_entry :
    (original : JsonRecord) (k : String) (v : Option CellValue)
    → kept (is_changed_entry original) k v ≡ changed_value v (lookup k original)
unfolding is_changed_entry is_cell_value_equal
kept-is_changed_entry original k none = refl
kept-is_changed_entry original k (some v) = ground arith

-- For a row whose values have each key once, the changed values hold under a column exactly the
-- grid's value where that differs from the loaded one or was not loaded, and nothing otherwise.
pub lookup-build_changed :
    (row : DataGridRow) (k : String)
    → IsDict row.values
    → lookup k (build_changed_data_values row)
      ≡ changed_value (lookup k row.values) (lookup k row.original_values)
lookup-build_changed row k h = rw (build_changed-eq-filter row h) (
    lookup-filter (is_changed_entry row.original_values) k row.values h
    ∙ kept-is_changed_entry row.original_values k (lookup k row.values))

-- The record that results when the changed values are written over the loaded ones.
abbrev pub submitted_record : DataGridRow → JsonRecord
submitted_record row = insert_all row.original_values (build_changed_data_values row)

changed_value-written :
    (v : CellValue) (original : Option CellValue)
    → is_cell_value_equal (some v) (written (changed_value (some v) original) original) ≡ true
changed_value-written v original = elim (Bool-cases (is_cell_value_equal (some v) original)) [
  | inl same ↦ rw same same
  | inr differs ↦ rw differs (is_cell_value_equal_refl v)
]

-- For a row whose values have each key once: writing the changed values over the loaded record
-- gives, in every column of the grid, a cell equal to the grid's.
pub submitted_record_agrees :
    (row : DataGridRow) (k : String) (v : CellValue)
    → IsDict row.values
    → lookup k row.values ≡ some v
    → is_cell_value_equal (some v) (lookup k (submitted_record row)) ≡ true
submitted_record_agrees row k v h e =
    rw
      (
        lookup-insert_all k (build_changed_data_values row) row.original_values
            (build_changed-IsDict row h),
        lookup-build_changed row k h,
        e,
      )
      (changed_value-written v (lookup k row.original_values))
