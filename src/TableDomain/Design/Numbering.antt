-- ===== src/TableDomain/Design/Numbering.antt =====
-- The ordinal positions of the draft columns.
use zszc_sql_client.Base.{
  ℕ, ◌+◌, ◌≡◌, refl, length, String, Bool, true, false, not, List, [], ◌∷◌, ◌++◌, map, filter,
  flat_map, arith, ◌==◌, Bool-cases, inl, inr,
}
use zszc_sql_client.Types.Cells.{TableColumn}
use zszc_sql_client.Types.Tabs.{DesignDraftColumn}
use zszc_sql_client.TableDomain.Design.{
  renumber, delete_columns, restore_columns, add_column, create_draft_column, new_column,
  select_column, select_any, change_column, ColumnChange, set_field, original_by_name,
  restore_column,
}

-- The ordinal positions count on from an index + 1.
abbrev pub AreNumbered : ℕ → List DesignDraftColumn → Type 0
AreNumbered index [] = Unit
AreNumbered index (c ∷ columns) =
    (c.column.ordinal_position ≡ index + 1) × AreNumbered (index + 1) columns

renumber-AreNumbered :
    (index : ℕ) (columns : List DesignDraftColumn) → AreNumbered index (renumber index columns)
unfolding renumber
renumber-AreNumbered index [] = tt
renumber-AreNumbered index (c ∷ columns) = (refl, renumber-AreNumbered (index + 1) columns)

AreNumbered-snoc :
    (index : ℕ) (columns : List DesignDraftColumn) (c : DesignDraftColumn)
    → AreNumbered index columns
    → c.column.ordinal_position ≡ index + length columns + 1
    → AreNumbered index (columns ++ c ∷ [])
AreNumbered-snoc index [] c h e = (omega (arith, e), tt)
AreNumbered-snoc index (d ∷ columns) c (p, h) e =
    (p, AreNumbered-snoc (index + 1) columns c h (omega (arith, e)))

-- An operation that maps the columns one by one and keeps their positions.
AreNumbered-map :
    (f : DesignDraftColumn → DesignDraftColumn)
    → ((c : DesignDraftColumn) → (f c).column.ordinal_position ≡ c.column.ordinal_position)
    → (index : ℕ) (columns : List DesignDraftColumn) → AreNumbered index columns
    → AreNumbered index (map f columns)
AreNumbered-map f k index [] h = tt
AreNumbered-map f k index (c ∷ columns) (p, h) =
    (rw (k c) p, AreNumbered-map f k (index + 1) columns h)

delete_columns-AreNumbered :
    (columns : List DesignDraftColumn)
    → AreNumbered 0 columns
    → AreNumbered 0 (delete_columns columns)
unfolding delete_columns
delete_columns-AreNumbered columns h =
    elim (filter (λ c. not c.selected) columns)
      as (λ kept. AreNumbered 0 (elim kept as (λ _. List DesignDraftColumn) [
        | [] ↦ columns
        | c ∷ remaining ↦ renumber 0 (c ∷ remaining)
      ])) [ [] ↦ h | c ∷ remaining ↦ renumber-AreNumbered 0 (c ∷ remaining) ]

restore_columns-AreNumbered :
    (originals : List TableColumn) (columns : List DesignDraftColumn)
    → AreNumbered 0 (restore_columns originals columns)
unfolding restore_columns
restore_columns-AreNumbered originals columns =
    renumber-AreNumbered 0 (flat_map (restore_column (original_by_name originals)) columns)

-- A change of any field but the ordinal position, as the editor makes it.
abbrev pub keeps_position : ColumnChange → Bool
keeps_position (ColumnChange.ordinal_position v) = false
keeps_position _ = true

set_field-position :
    (change : ColumnChange) (column : TableColumn)
    → keeps_position change ≡ true
    → (set_field change column).ordinal_position ≡ column.ordinal_position
unfolding set_field
set_field-position (ColumnChange.ordinal_position v) column h = ground arith
set_field-position (ColumnChange.name v) column h = refl
set_field-position (ColumnChange.data_type v) column h = refl
set_field-position (ColumnChange.full_data_type v) column h = refl
set_field-position (ColumnChange.comment v) column h = refl
set_field-position (ColumnChange.size v) column h = refl
set_field-position (ColumnChange.scale v) column h = refl
set_field-position (ColumnChange.nullable v) column h = refl
set_field-position (ColumnChange.primary_key v) column h = refl
set_field-position (ColumnChange.auto_increment v) column h = refl
set_field-position (ColumnChange.default_value v) column h = refl

select_column-position :
    (client_id : String) (checked : Bool) (c : DesignDraftColumn)
    → (select_column client_id checked c).column.ordinal_position ≡ c.column.ordinal_position
select_column-position client_id checked c = elim (Bool-cases (c.client_id == client_id)) [
  | inl e ↦ rw e refl
  | inr e ↦ rw e refl
]

module _ (fold : String → String) (shown : ℕ → String) where
  change_column-position :
      (client_id : String) (change : ColumnChange) (c : DesignDraftColumn)
      → keeps_position change ≡ true
      → (change_column fold shown client_id change c).column.ordinal_position
        ≡ c.column.ordinal_position
  unfolding change_column
  change_column-position client_id change c h = elim (Bool-cases (c.client_id == client_id)) [
    | inl e ↦ rw e (set_field-position change c.column h)
    | inr e ↦ rw e refl
  ]

  add_column-AreNumbered :
      (client_id : String) (columns : List DesignDraftColumn)
      → AreNumbered 0 columns
      → AreNumbered 0 (add_column fold shown client_id columns)
  unfolding add_column new_column create_draft_column
  add_column-AreNumbered client_id columns h =
      AreNumbered-snoc 0 columns (new_column fold shown client_id (length columns + 1)) h
        (omega arith)

  -- What one operation does to the draft columns of a tab.
  pub data DesignStep (originals : List TableColumn)
      : List DesignDraftColumn → List DesignDraftColumn → Type 0 where
    changes :
        {columns : List DesignDraftColumn} (client_id : String) (change : ColumnChange)
        → keeps_position change ≡ true
        → DesignStep originals columns (map (change_column fold shown client_id change) columns)
    selects :
        {columns : List DesignDraftColumn} (client_id : String) (checked : Bool)
        → DesignStep originals columns (map (select_column client_id checked) columns)
    selects_all :
        {columns : List DesignDraftColumn} (checked : Bool)
        → DesignStep originals columns (map (select_any checked) columns)
    adds :
        {columns : List DesignDraftColumn} (client_id : String)
        → DesignStep originals columns (add_column fold shown client_id columns)
    deletes :
        {columns : List DesignDraftColumn} → DesignStep originals columns (delete_columns columns)
    restores :
        {columns : List DesignDraftColumn}
        → DesignStep originals columns (restore_columns originals columns)

  pub data DesignReach (originals : List TableColumn) (start : List DesignDraftColumn)
      : List DesignDraftColumn → Type 0 where
    starts : DesignReach originals start start
    steps :
        {columns next : List DesignDraftColumn}
        → DesignReach originals start columns
        → DesignStep originals columns next
        → DesignReach originals start next

  step-AreNumbered :
      {originals : List TableColumn} {columns next : List DesignDraftColumn}
      → DesignStep originals columns next
      → AreNumbered 0 columns
      → AreNumbered 0 next
  step-AreNumbered (changes {columns} client_id change k) h =
      AreNumbered-map (change_column fold shown client_id change)
        (λ c. change_column-position client_id change c k) 0 columns h
  step-AreNumbered (selects {columns} client_id checked) h =
      AreNumbered-map (select_column client_id checked) (select_column-position client_id checked) 0
        columns h
  step-AreNumbered (selects_all {columns} checked) h =
      AreNumbered-map (select_any checked) (λ c. refl) 0 columns h
  step-AreNumbered (adds {columns} client_id) h = add_column-AreNumbered client_id columns h
  step-AreNumbered (deletes {columns}) h = delete_columns-AreNumbered columns h
  step-AreNumbered {originals} (restores {columns}) h =
      restore_columns-AreNumbered originals columns

  -- The ordinal positions of the draft columns stay 1, 2, 3, … in their order, through any sequence of
  -- edits of other fields, selections, additions, deletions and restorations, if they start so.
  pub DesignReach-AreNumbered :
      {originals : List TableColumn} {start columns : List DesignDraftColumn}
      → AreNumbered 0 start
      → DesignReach originals start columns
      → AreNumbered 0 columns
  DesignReach-AreNumbered h starts = h
  DesignReach-AreNumbered h (steps r s) = step-AreNumbered s (DesignReach-AreNumbered h r)
