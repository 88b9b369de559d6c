-- ===== src/Compare/Pages/Cache.antt =====
-- What the cache holds after pages have been loaded.
use zszc_sql_client.Base.{
  ◌≡⟨◌⟩◌, ◌∎, ◌≢◌, ℕ, zero, suc, ◌+◌, ◌-◌, ◌≤◌, String, ◌≡◌, ◌∙◌, refl, sym, ap, Bool, true, false,
  List, [], ◌∷◌, ◌++◌, append_assoc, append-nil, length, length-append, length-drop, leb, drop,
  arith, Bool-cases, inl, inr, or_else, eq_refl,
}
use zszc_sql_client.Base.Dict
use zszc_sql_client.Base.Dict.{Dict}
use zszc_sql_client.Compare.{RowSample, CompareDetailType, insert, update, delete}
use zszc_sql_client.Compare.Pages.{
  DataCompareDetailState, CompareDetailPageResponse, DetailPages, limit_details, page_of,
  empty_pages, next_detail_state, build_pruned_data_compare_detail_pages,
}

-- At most 300 entries are kept.
pub length-limit_details {ℓ} : {A : Type ℓ} (items : List A) → length (limit_details items) ≤ 300
unfolding limit_details
length-limit_details items = ground (arith, length-drop (length items - 300) items)

drop-append_left {ℓ} :
    {A : Type ℓ} (n : ℕ) (xs ys : List A) → n ≤ length xs → drop n (xs ++ ys) ≡ drop n xs ++ ys
drop-append_left zero xs ys h = refl
drop-append_left (suc n) [] ys h = absurd (omega arith)
drop-append_left (suc n) (x ∷ xs) ys h = drop-append_left n xs ys (omega arith)

drop-nil {ℓ} : {A : Type ℓ} (n : ℕ) → drop {A = A} n [] ≡ []
drop-nil zero = refl
drop-nil (suc n) = refl

drop-drop {ℓ} : {A : Type ℓ} (m n : ℕ) (xs : List A) → drop m (drop n xs) ≡ drop (n + m) xs
drop-drop m zero xs = let e : 0 + m ≡ m = omega arith in rw e
drop-drop m (suc n) [] = drop-nil m ∙ sym (drop-nil (suc n + m))
drop-drop m (suc n) (x ∷ xs) =
    let e : suc n + m ≡ suc (n + m) = omega arith in rw e (drop-drop m n xs)

-- `limit_details` as one `drop`.
limit_details-eq-drop {ℓ} :
    {A : Type ℓ} (items : List A) → limit_details items ≡ drop (length items - 300) items
unfolding limit_details
limit_details-eq-drop items = elim (Bool-cases (leb (length items) 300)) [
  | inl small ↦ let e : length items - 300 ≡ 0 = ground arith in rw (small, e)
  | inr large ↦ rw large
]

pruned_length {ℓ} :
    {A : Type ℓ} (xs ys : List A)
    → length xs - 300 + (length (drop (length xs - 300) (xs ++ ys)) - 300) ≡ length (xs ++ ys) - 300
pruned_length xs ys = omega (arith, length-drop (length xs - 300) (xs ++ ys), length-append xs ys)

-- Pruning before more entries come makes no difference to what is kept then.
pub limit_details-append {ℓ} :
    {A : Type ℓ} (xs ys : List A)
    → limit_details (limit_details xs ++ ys) ≡ limit_details (xs ++ ys)
limit_details-append xs ys =
    let k = length xs - 300 in
    limit_details (limit_details xs ++ ys)
    ≡⟨ ap (λ l. limit_details (l ++ ys)) (limit_details-eq-drop xs) ⟩
      limit_details (drop k xs ++ ys)
    ≡⟨ ap limit_details (sym (drop-append_left k xs ys (omega arith))) ⟩
      limit_details (drop k (xs ++ ys))
    ≡⟨ limit_details-eq-drop (drop k (xs ++ ys)) ⟩
      drop (length (drop k (xs ++ ys)) - 300) (drop k (xs ++ ys))
    ≡⟨ drop-drop (length (drop k (xs ++ ys)) - 300) k (xs ++ ys) ⟩
      drop (k + (length (drop k (xs ++ ys)) - 300)) (xs ++ ys)
    ≡⟨ ap (λ n. drop n (xs ++ ys)) (pruned_length xs ys) ⟩ drop (length (xs ++ ys) - 300) (xs ++ ys)
    ≡⟨ sym (limit_details-eq-drop (xs ++ ys)) ⟩ limit_details (xs ++ ys) ∎

-- The state of one kind of difference of one table.
abbrev pub current : String → CompareDetailType → Dict DetailPages → DataCompareDetailState
current table_key detail_type pages =
    page_of (or_else (Dict.lookup table_key pages) empty_pages) detail_type

current-build :
    (table_key : String) (detail_type : CompareDetailType) (pages : Dict DetailPages)
    (page : CompareDetailPageResponse) (reset : Bool)
    → current table_key detail_type
        (build_pruned_data_compare_detail_pages pages table_key detail_type page reset)
      ≡ next_detail_state detail_type (current table_key detail_type pages) page reset
unfolding build_pruned_data_compare_detail_pages Dict.lookup
current-build table_key insert pages page reset = rw (eq_refl table_key)
current-build table_key update pages page reset = rw (eq_refl table_key)
current-build table_key delete pages page reset = rw (eq_refl table_key)

-- The rows after one more page, from those kept of the rows before.
next-row_items :
    (detail_type : CompareDetailType) (now : DataCompareDetailState)
    (page : CompareDetailPageResponse) (rows : List RowSample)
    → detail_type ≢ update
    → now.row_items ≡ limit_details rows
    → (next_detail_state detail_type now page false).row_items
      ≡ limit_details (rows ++ page.row_items)
unfolding next_detail_state
next-row_items insert now page rows ne r = rw r (limit_details-append rows page.row_items)
next-row_items delete now page rows ne r = rw r (limit_details-append rows page.row_items)
next-row_items update now page rows ne r = absurd (ne refl)

next-fetched :
    (detail_type : CompareDetailType) (now : DataCompareDetailState)
    (page : CompareDetailPageResponse) (rows : List RowSample)
    → detail_type ≢ update
    → now.fetched ≡ length rows
    → (next_detail_state detail_type now page false).fetched ≡ length (rows ++ page.row_items)
unfolding next_detail_state
next-fetched insert now page rows ne f = omega (arith, length-append rows page.row_items)
next-fetched delete now page rows ne f = omega (arith, length-append rows page.row_items)
next-fetched update now page rows ne f = absurd (ne refl)

-- Loading further pages of the same kind of the same table, in order.
unfoldable pub load_more :
    String
    → CompareDetailType
    → Dict DetailPages
    → List CompareDetailPageResponse
    → Dict DetailPages
load_more table_key detail_type pages [] = pages
load_more table_key detail_type pages (page ∷ rest) =
    load_more table_key detail_type
      (build_pruned_data_compare_detail_pages pages table_key detail_type page false) rest

abbrev pub all_rows : List CompareDetailPageResponse → List RowSample
all_rows [] = []
all_rows (page ∷ rest) = page.row_items ++ all_rows rest

load_more-rows :
    (table_key : String) (detail_type : CompareDetailType) (pages : Dict DetailPages)
    (rows : List RowSample) (rest : List CompareDetailPageResponse)
    → detail_type ≢ update
    → (current table_key detail_type pages).row_items ≡ limit_details rows
    → (current table_key detail_type pages).fetched ≡ length rows
    → let after = current table_key detail_type (load_more table_key detail_type pages rest) in
      (after.row_items ≡ limit_details (rows ++ all_rows rest))
      × (after.fetched ≡ length (rows ++ all_rows rest))
unfolding load_more
load_more-rows table_key detail_type pages rows [] ne r f = rw (append-nil rows) (r, f)
load_more-rows table_key detail_type pages rows (page ∷ rest) ne r f =
    let step = current-build table_key detail_type pages page false in
    let now = current table_key detail_type pages in
    rw (← append_assoc rows page.row_items (all_rows rest)) (
      load_more-rows table_key detail_type
        (build_pruned_data_compare_detail_pages pages table_key detail_type page false)
        (rows ++ page.row_items) rest ne (rw step (next-row_items detail_type now page rows ne r))
        (rw step (next-fetched detail_type now page rows ne f)))

-- The page that a reset loads starts the rows anew.
first-rows :
    (detail_type : CompareDetailType) (now : DataCompareDetailState)
    (page : CompareDetailPageResponse)
    → detail_type ≢ update
    → let next = next_detail_state detail_type now page true in
      (next.row_items ≡ limit_details page.row_items) × (next.fetched ≡ length page.row_items)
unfolding next_detail_state
first-rows insert now page ne = (refl, omega arith)
first-rows delete now page ne = (refl, omega arith)
first-rows update now page ne = absurd (ne refl)

-- Loading a first page with a reset and then further pages of inserted or deleted rows of a table,
-- whatever was cached: of all loaded rows, in order, those before the last 300 are dropped and the others
-- are kept (all, if there are no more than 300), and the number fetched counts all of them.
pub load_pages :
    (table_key : String) (detail_type : CompareDetailType) (pages : Dict DetailPages)
    (page : CompareDetailPageResponse) (rest : List CompareDetailPageResponse)
    → detail_type ≢ update
    → let after = current table_key detail_type (
        load_more table_key detail_type
          (build_pruned_data_compare_detail_pages pages table_key detail_type page true)
          rest) in
      (after.row_items ≡ drop (length (all_rows (page ∷ rest)) - 300) (all_rows (page ∷ rest)))
      × (after.fetched ≡ length (all_rows (page ∷ rest)))
      × (length after.row_items ≤ 300)
load_pages table_key detail_type pages page rest ne =
    let step = current-build table_key detail_type pages page true in
    let now = current table_key detail_type pages in
    let (rows, fetched) = first-rows detail_type now page ne in
    let (kept, count) =
      load_more-rows table_key detail_type
        (build_pruned_data_compare_detail_pages pages table_key detail_type page true)
        page.row_items rest ne (rw step rows) (rw step fetched) in
    (
      kept ∙ limit_details-eq-drop (all_rows (page ∷ rest)),
      count,
      rw kept (length-limit_details (all_rows (page ∷ rest))),
    )
