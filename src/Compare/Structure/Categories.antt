-- ===== src/Compare/Structure/Categories.antt =====
-- Which category is shown first, and the keys of the details.
use Prim.Native.Char.{code}
use Prim.Native.String
use text.Mathlib.TextLemmas.{nil-append, cons-append, append_cancel_left}
use zszc_sql_client.Base.{
  ◌≡◌, ◌≢◌, refl, ap, sym, ◌∙◌, ◌++◌, String, some, [], ◌∷◌, length-map, arith,
}
use zszc_sql_client.Sql.Text.{codes}
use zszc_sql_client.Compare.Structure.{
  StructureDetailCategory, added, modified, deleted, category_text, StructureCompareResponse,
  get_structure_items_by_category, pick_first_structure_category, get_structure_selection_total,
  build_structure_compare_detail_key, create_structure_selection_state,
}

-- If any table is selected at first, when those of all three categories are, the category that is shown
-- first has tables.
pub picked_category-ne-nil :
    (result : StructureCompareResponse)
    → get_structure_selection_total (create_structure_selection_state result) ≢ 0
    → get_structure_items_by_category (some result) (pick_first_structure_category result) ≢ []
unfolding get_structure_selection_total create_structure_selection_state
    get_structure_items_by_category pick_first_structure_category
picked_category-ne-nil result h e = ground (
  arith,
  length-map (λ item. item.table_name) result.added_tables,
  length-map (λ item. item.table_name) result.modified_tables,
  length-map (λ item. item.table_name) result.deleted_tables,
)

codes-append : (s t : String) → codes (String.◌++◌ s t) ≡ codes s ++ codes t
codes-append String.[] t = ap codes (nil-append t)
codes-append (String.◌∷◌ c s) t =
    ap codes (cons-append c s t) ∙ ap (λ l. code c ∷ l) (codes-append s t)

-- The characters of a key.
key_codes :
    (category : StructureDetailCategory) (name : String)
    → codes (build_structure_compare_detail_key category name)
      ≡ codes (category_text category) ++ (codes "::" ++ codes name)
unfolding build_structure_compare_detail_key
key_codes category name = simp (codes-append)

same_codes :
    (category other : StructureDetailCategory) (name other_name : String)
    → build_structure_compare_detail_key category name
      ≡ build_structure_compare_detail_key other other_name
    → codes (category_text category) ++ (codes "::" ++ codes name)
      ≡ codes (category_text other) ++ (codes "::" ++ codes other_name)
same_codes category other name other_name e =
    sym (key_codes category name) ∙ ap codes e ∙ key_codes other other_name

same_name :
    (category : StructureDetailCategory) (name other_name : String)
    → build_structure_compare_detail_key category name
      ≡ build_structure_compare_detail_key category other_name
    → name ≡ other_name
unfolding build_structure_compare_detail_key
same_name category name other_name e = append_cancel_left "::" name other_name (
    append_cancel_left (category_text category) (String.◌++◌ "::" name)
      (String.◌++◌ "::" other_name) e)

-- The details of different tables, or of one table in different categories, have different keys.
pub detail_key-injective :
    (category other : StructureDetailCategory) (name other_name : String)
    → build_structure_compare_detail_key category name
      ≡ build_structure_compare_detail_key other other_name
    → (category ≡ other) × (name ≡ other_name)
detail_key-injective added added n m e = (refl, same_name added n m e)
detail_key-injective added modified n m e = ground (arith, same_codes added modified n m e)
detail_key-injective added deleted n m e = ground (arith, same_codes added deleted n m e)
detail_key-injective modified added n m e = ground (arith, same_codes modified added n m e)
detail_key-injective modified modified n m e = (refl, same_name modified n m e)
detail_key-injective modified deleted n m e = ground (arith, same_codes modified deleted n m e)
detail_key-injective deleted added n m e = ground (arith, same_codes deleted added n m e)
detail_key-injective deleted modified n m e = ground (arith, same_codes deleted modified n m e)
detail_key-injective deleted deleted n m e = (refl, same_name deleted n m e)
