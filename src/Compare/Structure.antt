-- ===== src/Compare/Structure.antt =====
-- The selection of a structure comparison in features/compare/state.ts.
-- Of the response only the three lists of tables are read; its counts and times are left out.
pub mod Categories
use zszc_sql_client.Base.{
  ℕ, ◌+◌, String, Bool, true, false, Option, none, some, List, [], ◌∷◌, map, length, ltb,
  if◌then◌else◌,
}
use Prim.Native.String

pub record StructureTableItem : Type 0 where
  pub table_name : String
  pub preview_sql : Option String
  pub source_sql : Option String
  pub target_sql : Option String
  pub source_changed_lines : List ℕ
  pub target_changed_lines : List ℕ
  pub warnings : List String

pub data StructureDetailCategory : Type 0 where
  added modified deleted : StructureDetailCategory

pub record StructureCompareResponse : Type 0 where
  pub added_tables : List StructureTableItem
  pub modified_tables : List StructureTableItem
  pub deleted_tables : List StructureTableItem

unfoldable pub get_structure_items_by_category :
    Option StructureCompareResponse → StructureDetailCategory → List StructureTableItem
get_structure_items_by_category none category = []
get_structure_items_by_category (some result) added = result.added_tables
get_structure_items_by_category (some result) modified = result.modified_tables
get_structure_items_by_category (some result) deleted = result.deleted_tables

unfoldable pub pick_first_structure_category : StructureCompareResponse → StructureDetailCategory
pick_first_structure_category result =
    if ltb 0 (length result.added_tables)
    then added
    else if ltb 0 (length result.modified_tables)
    then modified
    else deleted

-- `Record<StructureDetailCategory, string[]>`
pub record SelectionByCategory : Type 0 where
  pub added_names : List String
  pub modified_names : List String
  pub deleted_names : List String

unfoldable pub get_structure_selection_total : SelectionByCategory → ℕ
get_structure_selection_total selection =
    length selection.added_names + length selection.modified_names + length selection.deleted_names

abbrev pub category_text : StructureDetailCategory → String
category_text added = "added"
category_text modified = "modified"
category_text deleted = "deleted"

unfoldable pub build_structure_compare_detail_key : StructureDetailCategory → String → String
build_structure_compare_detail_key category table_name =
    String.◌++◌ (category_text category) (String.◌++◌ "::" table_name)

abbrev pub table_names : List StructureTableItem → List String
table_names = map (λ item. item.table_name)

unfoldable pub create_structure_selection_state : StructureCompareResponse → SelectionByCategory
create_structure_selection_state result = record {
  added_names = table_names result.added_tables;
  modified_names = table_names result.modified_tables;
  deleted_names = table_names result.deleted_tables;
}

pub record StructureSqlSelection : Type 0 where
  pub added_tables : List String
  pub modified_tables : List String
  pub deleted_tables : List String

unfoldable pub build_structure_sql_selection : SelectionByCategory → StructureSqlSelection
build_structure_sql_selection selection = record {
  added_tables = selection.added_names;
  modified_tables = selection.modified_names;
  deleted_tables = selection.deleted_names;
}
