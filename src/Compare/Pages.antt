-- ===== src/Compare/Pages.antt =====
-- `buildPrunedDataCompareDetailPages`: the cache of the difference pages, which holds at most 300
-- entries of one kind of one table.
pub mod Cache
use zszc_sql_client.Base.{
  ℕ, ◌+◌, ◌-◌, String, Bool, true, false, Option, none, some, List, [], ◌∷◌, ◌++◌, length, leb,
  drop, if◌then◌else◌, or_else,
}
use zszc_sql_client.Base.Dict
use zszc_sql_client.Base.Dict.{Dict}
use zszc_sql_client.Compare.{RowSample, UpdateSample, CompareDetailType, insert, update, delete}

pub record DataCompareDetailState : Type 0 where
  pub row_columns : List String
  pub row_items : List RowSample
  pub update_items : List UpdateSample
  pub total : ℕ
  pub fetched : ℕ
  pub has_more : Bool
  pub loading : Bool
  pub loaded : Bool
  pub error : String

pub record CompareDetailPageResponse : Type 0 where
  pub source_table : String
  pub target_table : String
  pub detail_type : CompareDetailType
  pub total : ℕ
  pub offset : ℕ
  pub limit : ℕ
  pub has_more : Bool
  pub row_columns : List String
  pub row_items : List RowSample
  pub update_items : List UpdateSample

-- `Record<CompareDetailType, DataCompareDetailState>`
pub record DetailPages : Type 0 where
  pub insert_page : DataCompareDetailState
  pub update_page : DataCompareDetailState
  pub delete_page : DataCompareDetailState

abbrev pub create_empty_data_compare_detail_state : DataCompareDetailState
create_empty_data_compare_detail_state = record {
  row_columns = [];
  row_items = [];
  update_items = [];
  total = 0;
  fetched = 0;
  has_more = false;
  loading = false;
  loaded = false;
  error = "";
}

abbrev pub data_compare_detail_cache_limit : ℕ
data_compare_detail_cache_limit = 300

-- `limitDataCompareDetailRows` and `limitDataCompareDetailUpdates`; `slice(-n)` is the last n.
unfoldable pub limit_details {ℓ} : {A : Type ℓ} → List A → List A
limit_details items =
    if leb (length items) data_compare_detail_cache_limit
    then items
    else drop (length items - data_compare_detail_cache_limit) items

abbrev pub empty_pages : DetailPages
empty_pages = record {
  insert_page = create_empty_data_compare_detail_state;
  update_page = create_empty_data_compare_detail_state;
  delete_page = create_empty_data_compare_detail_state;
}

abbrev pub page_of : DetailPages → CompareDetailType → DataCompareDetailState
page_of pages insert = pages.insert_page
page_of pages update = pages.update_page
page_of pages delete = pages.delete_page

-- The new pages of the table: the loaded kind, and nothing of the other two.
abbrev pub only_page : CompareDetailType → DataCompareDetailState → DetailPages
only_page insert page = record empty_pages { insert_page = page }
only_page update page = record empty_pages { update_page = page }
only_page delete page = record empty_pages { delete_page = page }

abbrev pub is_update : CompareDetailType → Bool
is_update update = true
is_update _ = false

-- `nextDetailState`, from the state of the kind before.
unfoldable pub next_detail_state :
    CompareDetailType
    → DataCompareDetailState
    → CompareDetailPageResponse
    → Bool
    → DataCompareDetailState
next_detail_state detail_type current detail_page reset = record {
  row_columns = detail_page.row_columns;
  row_items =
      if is_update detail_type
      then []
      else limit_details ((if reset then [] else current.row_items) ++ detail_page.row_items);
  update_items =
      if is_update detail_type
      then limit_details ((if reset then [] else current.update_items) ++ detail_page.update_items)
      else [];
  total = detail_page.total;
  fetched =
      (if reset then 0 else current.fetched)
      + (if is_update detail_type
          then length detail_page.update_items
          else length detail_page.row_items);
  has_more = detail_page.has_more;
  loading = false;
  loaded = true;
  error = "";
}

unfoldable pub build_pruned_data_compare_detail_pages :
    Dict DetailPages
    → String
    → CompareDetailType
    → CompareDetailPageResponse
    → Bool
    → Dict DetailPages
build_pruned_data_compare_detail_pages previous_pages table_key detail_type detail_page reset =
    let current_table_pages = or_else (Dict.lookup table_key previous_pages) empty_pages in
    (
      table_key,
      only_page detail_type (
          next_detail_state detail_type (page_of current_table_pages detail_type) detail_page
            reset),
    )
    ∷ []
