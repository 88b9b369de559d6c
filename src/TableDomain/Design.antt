-- ===== src/TableDomain/Design.antt =====
-- Editing the columns of a table design: the operations on a design tab.
-- `fold` is `trim().toLowerCase()` of the runtime, and `shown` the text of a number.
pub mod Numbering
pub mod Restoring
mod Tests
use zszc_sql_client.Base.{
  joined, ℕ, zero, suc, ◌+◌, length, String, Bool, true, false, not, Option, none, some, List, [],
  ◌∷◌, ◌++◌, map, flat_map, filter, ◌==◌, if◌then◌else◌,
}
use zszc_sql_client.Base.Dict.{Dict, lookup, from_entries}
use zszc_sql_client.Types.Cells.{TableColumn}
use zszc_sql_client.Types.Tabs.{DesignDraftColumn, DesignTab, DesignTabState}
use zszc_sql_client.Tabs.{TabsState, patch_tab}
use zszc_sql_client.TableDomain.{on_design}

-- `field` and `value` of `updateDesignRow`.
pub data ColumnChange : Type 0 where
  name data_type full_data_type comment : String → ColumnChange
  size scale : Option ℕ → ColumnChange
  nullable primary_key auto_increment : Bool → ColumnChange
  default_value : Option String → ColumnChange
  ordinal_position : ℕ → ColumnChange

-- `{ ...column, [field]: value }`
unfoldable pub set_field : ColumnChange → TableColumn → TableColumn
set_field (name v) column = record column { name = v }
set_field (data_type v) column = record column { data_type = v }
set_field (full_data_type v) column = record column { full_data_type = v }
set_field (comment v) column = record column { comment = v }
set_field (size v) column = record column { length = v }
set_field (scale v) column = record column { scale = v }
set_field (nullable v) column = record column { nullable = v }
set_field (primary_key v) column = record column { primary_key = v }
set_field (auto_increment v) column = record column { auto_increment = v }
set_field (default_value v) column = record column { default_value = v }
set_field (ordinal_position v) column = record column { ordinal_position = v }

abbrev pub with_columns : (List DesignDraftColumn → List DesignDraftColumn) → DesignTab → DesignTab
with_columns f tab = record tab {
  design = record tab.design { draft_columns = f tab.design.draft_columns };
}

unfoldable pub create_draft_column : String → TableColumn → Option String → DesignDraftColumn
create_draft_column client_id column origin_name = record {
  column = column;
  client_id = client_id;
  selected = false;
  origin_name = origin_name;
}

unfoldable pub update_design_draft_table_name : String → String → TabsState → TabsState
unfolding patch_tab
update_design_draft_table_name tab_id value =
    patch_tab tab_id
      (on_design λ tab. record tab { design = record tab.design { draft_table_name = value } })

abbrev pub select_column : String → Bool → DesignDraftColumn → DesignDraftColumn
select_column client_id checked column =
    if column.client_id == client_id then record column { selected = checked } else column

unfoldable pub toggle_design_row_selection : String → String → Bool → TabsState → TabsState
unfolding patch_tab
toggle_design_row_selection tab_id client_id checked =
    patch_tab tab_id (on_design (with_columns (map (select_column client_id checked))))

abbrev pub select_any : Bool → DesignDraftColumn → DesignDraftColumn
select_any checked column = record column { selected = checked }

unfoldable pub toggle_all_design_rows : String → Bool → TabsState → TabsState
unfolding patch_tab
toggle_all_design_rows tab_id checked =
    patch_tab tab_id (on_design (with_columns (map (select_any checked))))

-- `map((column, index) => ({ ...column, selected: false, ordinal_position: index + 1 }))`, from an
-- index on.
unfoldable pub renumber : ℕ → List DesignDraftColumn → List DesignDraftColumn
renumber index [] = []
renumber index (c ∷ columns) =
    record c { column = record c.column { ordinal_position = index + 1 }; selected = false }
    ∷ renumber (index + 1) columns

-- The columns that stay; the toast on an empty rest is not modelled.
unfoldable pub delete_columns : List DesignDraftColumn → List DesignDraftColumn
unfolding renumber
delete_columns columns = elim (filter (λ c. not c.selected) columns) [
  | [] ↦ columns
  | c ∷ remaining ↦ renumber 0 (c ∷ remaining)
]

unfoldable pub delete_selected_design_rows : String → TabsState → TabsState
unfolding delete_columns patch_tab
delete_selected_design_rows tab_id = patch_tab tab_id (on_design (with_columns delete_columns))

-- `originalByName`
unfoldable pub original_by_name : List TableColumn → Dict TableColumn
unfolding from_entries
original_by_name columns = from_entries (map (λ column. (column.name, column)) columns)

-- `column.origin_name && originalByName[column.origin_name]`; an empty name counts as none.
abbrev pub original_of : Dict TableColumn → Option String → Option TableColumn
original_of originals none = none
original_of originals (some origin) = if origin == "" then none else lookup origin originals

abbrev pub restored_column : DesignDraftColumn → Option TableColumn → List DesignDraftColumn
restored_column c none = []
restored_column c (some original) = create_draft_column c.client_id original c.origin_name ∷ []

unfoldable pub restore_column : Dict TableColumn → DesignDraftColumn → List DesignDraftColumn
unfolding create_draft_column
restore_column originals c =
    if not c.selected then c ∷ [] else restored_column c (original_of originals c.origin_name)

unfoldable pub restore_columns : List TableColumn → List DesignDraftColumn → List DesignDraftColumn
unfolding restore_column renumber original_by_name
restore_columns originals columns =
    renumber 0 (flat_map (restore_column (original_by_name originals)) columns)

unfoldable pub restore_selected_design_rows : String → TabsState → TabsState
unfolding restore_columns patch_tab
restore_selected_design_rows tab_id =
    patch_tab tab_id
      (on_design λ tab. with_columns (restore_columns tab.design.original_columns) tab)

module _ (fold : String → String) (shown : ℕ → String) where
  -- The type with its length, and the scale behind the length.
  abbrev sized_type : String → ℕ → Option ℕ → String
  sized_type type n none = joined (type ∷ "(" ∷ shown n ∷ ")" ∷ [])
  sized_type type n (some m) = joined (type ∷ "(" ∷ shown n ∷ "," ∷ shown m ∷ ")" ∷ [])

  -- A length of 0 counts as none.
  unfoldable pub build_full_data_type : TableColumn → String
  build_full_data_type column = elim column.length [
    | none ↦ fold column.data_type
    | some zero ↦ fold column.data_type
    | some (suc n) ↦ sized_type (fold column.data_type) (suc n) column.scale
  ]

  unfoldable pub change_column : String → ColumnChange → DesignDraftColumn → DesignDraftColumn
  unfolding set_field build_full_data_type
  change_column client_id change c =
      if not (c.client_id == client_id)
      then c
      else let next = set_field change c.column in
        record c { column = record next { full_data_type = build_full_data_type next } }

  unfoldable pub update_design_row : String → String → ColumnChange → TabsState → TabsState
  unfolding change_column patch_tab
  update_design_row tab_id client_id change =
      patch_tab tab_id (on_design (with_columns (map (change_column client_id change))))

  -- The column that `addDesignRow` appends.
  unfoldable pub new_column : String → ℕ → DesignDraftColumn
  unfolding create_draft_column
  new_column client_id next_index =
      create_draft_column client_id
        (record {
          name = joined ("new_column_" ∷ shown next_index ∷ []);
          data_type = "varchar";
          full_data_type = "varchar(64)";
          length = some 64;
          scale = none;
          nullable = true;
          primary_key = false;
          auto_increment = false;
          default_value = none;
          comment = "";
          ordinal_position = next_index;
        })
        none

  unfoldable pub add_column : String → List DesignDraftColumn → List DesignDraftColumn
  unfolding new_column
  add_column client_id columns = columns ++ new_column client_id (length columns + 1) ∷ []

  unfoldable pub add_design_row : String → String → TabsState → TabsState
  unfolding add_column patch_tab
  add_design_row client_id tab_id =
      patch_tab tab_id (on_design (with_columns (add_column client_id)))
