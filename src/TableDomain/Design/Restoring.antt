-- ===== src/TableDomain/Design/Restoring.antt =====
-- Restoring the selected columns of a design.
use zszc_sql_client.Base.{
  ◌||◌, ℕ, ◌+◌, ◌≡◌, ◌≢◌, ◌∙◌, refl, ap, sym, String, Bool, true, false, not, none, some, List, [],
  ◌∷◌, ◌++◌, map, flat_map, filter, All, arith, eq_iff, eq_refl, ==-eq-false, Bool-cases, inl, inr,
  is_some,
}
use zszc_sql_client.Base.Dict.{Dict, lookup, IsDict, from_entries, from_entries_of_IsDict}
use zszc_sql_client.Types.Cells.{TableColumn}
use zszc_sql_client.Types.Tabs.{DesignDraftColumn}
use zszc_sql_client.TableDomain.Design.{
  renumber, restore_columns, restore_column, original_by_name, create_draft_column,
}

-- Each draft column was made from the original column at its place, whatever it has become since.
pub data AreDraftsOf : List TableColumn → List DesignDraftColumn → Type 0 where
  no_drafts : AreDraftsOf [] []
  draft :
      (original : TableColumn) (c : DesignDraftColumn) {originals : List TableColumn}
      {columns : List DesignDraftColumn}
      → c.origin_name ≡ some original.name
      → AreDraftsOf originals columns
      → AreDraftsOf (original ∷ originals) (c ∷ columns)

-- The ordinal positions count on from an index + 1.
abbrev pub PositionsFrom : ℕ → List TableColumn → Type 0
PositionsFrom index [] = Unit
PositionsFrom index (column ∷ columns) =
    (column.ordinal_position ≡ index + 1) × PositionsFrom (index + 1) columns

abbrev pub by_name : List TableColumn → Dict TableColumn
by_name = map (λ column. (column.name, column))

abbrev IsFoundIn : Dict TableColumn → TableColumn → Type 0
IsFoundIn m column = lookup column.name m ≡ some column

found_behind :
    (k : String) (v : TableColumn) (m : Dict TableColumn) (columns : List TableColumn)
    → lookup k m ≡ none
    → All (IsFoundIn m) columns
    → All (IsFoundIn ((k, v) ∷ m)) columns
unfolding lookup
found_behind k v m [] h f = tt
found_behind k v m (column ∷ columns) h f =
    (ground (arith, eq_iff k column.name, f.0), found_behind k v m columns h f.1)

All-found :
    (columns : List TableColumn)
    → IsDict (by_name columns)
    → All (IsFoundIn (by_name columns)) columns
unfolding lookup
All-found [] h = tt
All-found (column ∷ columns) h = (
  ground (arith, eq_refl column.name),
  found_behind column.name column (by_name columns) columns h.0 (All-found columns h.1),
)

abbrev pub IsNamed : TableColumn → Type 0
IsNamed column = column.name ≢ ""

abbrev pub IsSelected : DesignDraftColumn → Type 0
IsSelected c = c.selected ≡ true

restored_one :
    (m : Dict TableColumn) (original : TableColumn) (c : DesignDraftColumn)
    → c.origin_name ≡ some original.name
    → IsFoundIn m original
    → IsNamed original
    → IsSelected c
    → restore_column m c ≡ create_draft_column c.client_id original c.origin_name ∷ []
unfolding restore_column
restored_one m original c o f n s = simp (s, o, f, ==-eq-false original.name "" n)

restored :
    (m : Dict TableColumn) {originals : List TableColumn} {columns : List DesignDraftColumn}
    → AreDraftsOf originals columns
    → All (IsFoundIn m) originals
    → All IsNamed originals
    → All IsSelected columns
    → map (λ c. c.column) (flat_map (restore_column m) columns) ≡ originals
unfolding create_draft_column
restored m no_drafts f n s = refl
restored m (draft original c {originals} {columns} o d) f n s =
    simp (restored_one m original c o f.0 n.0 s.0, restored m d f.1 n.1 s.1)

renumber-same :
    (index : ℕ) (columns : List DesignDraftColumn)
    → PositionsFrom index (map (λ c. c.column) columns)
    → map (λ c. c.column) (renumber index columns) ≡ map (λ c. c.column) columns
unfolding renumber
renumber-same index [] h = refl
renumber-same index (c ∷ columns) h =
    ap
      (λ p.
        record c.column { ordinal_position = p }
        ∷ map (λ d. d.column) (renumber (index + 1) columns))
      (sym h.0)
    ∙ ap (λ l. c.column ∷ l) (renumber-same (index + 1) columns h.1)

-- While the draft columns were only changed or renamed since they were made, so that each still stands at the
-- place of its original, and none was added or deleted, selecting all of them and restoring gives the
-- table's columns back: the table's columns have distinct names, none of which is empty, and stand in the
-- order of their ordinal positions.
pub restore_every_draft :
    (originals : List TableColumn) (columns : List DesignDraftColumn)
    → AreDraftsOf originals columns
    → All IsSelected columns
    → IsDict (by_name originals)
    → All IsNamed originals
    → PositionsFrom 0 originals
    → map (λ c. c.column) (restore_columns originals columns) ≡ originals
unfolding restore_columns original_by_name
restore_every_draft originals columns d s h n p =
    let known : from_entries (by_name originals) ≡ by_name originals =
      from_entries_of_IsDict (by_name originals) h in
    let same = restored (by_name originals) d (All-found originals h) n s in
    rw known
      (renumber-same 0 (flat_map (restore_column (by_name originals)) columns) (rw same p) ∙ same)

-- The draft columns but those that are selected and that the table does not have yet.
abbrev pub without_added : List DesignDraftColumn → List DesignDraftColumn
without_added = filter (λ c. not c.selected || is_some c.origin_name)

flat_map-filter :
    (f : DesignDraftColumn → List DesignDraftColumn) (p : DesignDraftColumn → Bool)
    (columns : List DesignDraftColumn)
    → ((c : DesignDraftColumn) → p c ≡ false → f c ≡ [])
    → flat_map f columns ≡ flat_map f (filter p columns)
flat_map-filter f p [] h = refl
flat_map-filter f p (c ∷ columns) h = elim (Bool-cases (p c)) [
  | inl kept ↦ rw kept (ap (λ l. f c ++ l) (flat_map-filter f p columns h))
  | inr dropped ↦ rw (dropped, h c dropped) (flat_map-filter f p columns h)
]

added-restored :
    (m : Dict TableColumn) (c : DesignDraftColumn)
    → not c.selected || is_some c.origin_name ≡ false
    → restore_column m c ≡ []
unfolding restore_column
added-restored m c h = ground arith

-- Restoring drops every selected column that the table does not have yet, wherever it stands: the result is
-- that of restoring the other columns alone, their ordinal positions included.
pub restore_columns-without_added :
    (originals : List TableColumn) (columns : List DesignDraftColumn)
    → restore_columns originals columns ≡ restore_columns originals (without_added columns)
unfolding restore_columns
restore_columns-without_added originals columns = ap (renumber 0) (
    flat_map-filter (restore_column (original_by_name originals))
      (λ c. not c.selected || is_some c.origin_name) columns
      (added-restored (original_by_name originals)))
