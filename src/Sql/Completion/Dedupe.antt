-- ===== src/Sql/Completion/Dedupe.antt =====
-- `dedupeCompletionItems`: one item of each label and text.
use zszc_sql_client.Base.{
  ◌++◌, any, ◌≡◌, refl, ◌∙◌, Bool, true, false, not, ◌&&◌, ◌||◌, List, [], ◌∷◌, arith, Bool-cases,
  inl, inr, sym,
}
use zszc_sql_client.Sql.Text.{Text, codes, text_eq, text_eq→eq, text_eq_refl}
use zszc_sql_client.Sql.Completion.Items.{
  CompletionItem, item_key, is_seen, dedupe_from, dedupe_completion_items,
}

-- `label::insertText` of each item.
abbrev pub keys : List CompletionItem → List Text
keys [] = []
keys (item ∷ items) = (item.label ++ (codes "::" ++ item.insert_text)) ∷ keys items

-- Whether a key is one of a list.
abbrev pub stands_in : List Text → Text → Bool
stands_in keys_given key = any (λ other. text_eq other key) keys_given

abbrev pub AreDistinct : List Text → Type 0
AreDistinct [] = Unit
AreDistinct (key ∷ rest) = (stands_in rest key ≡ false) × AreDistinct rest

seen_by_eq : (seen : List Text) (i k : Text) → text_eq i k ≡ true → is_seen seen i ≡ is_seen seen k
seen_by_eq seen i k h = rw (text_eq→eq i k h) refl

and_false : (b : Bool) → (b && false) ≡ false
and_false true = refl
and_false false = refl

and_true : (b : Bool) → (b && true) ≡ b
and_true true = refl
and_true false = refl

old_key : (a x s : Bool) → (a ≡ true → s ≡ true) → (x && not s) ≡ ((a || x) && not s)
old_key true x s h = ground (arith, h refl)
old_key false x s h = refl

new_key : (a x s : Bool) → (a ≡ true → s ≡ false) → (a || x && not (a || s)) ≡ ((a || x) && not s)
new_key true x s h = ground (arith, h refl)
new_key false x s h = refl

dedupe_from-seen :
    (seen : List Text) (items : List CompletionItem) (k : Text)
    → is_seen (keys (dedupe_from seen items)) k ≡ (is_seen (keys items) k && not (is_seen seen k))
unfolding dedupe_from
dedupe_from-seen seen [] k = refl
dedupe_from-seen seen (item ∷ items) k =
    let i = item_key item in
    elim (Bool-cases (is_seen seen i)) [
      | inl old ↦ rw old (
          dedupe_from-seen seen items k
          ∙ old_key (text_eq i k) (is_seen (keys items) k) (is_seen seen k)
              (λ e. sym (seen_by_eq seen i k e) ∙ old))
      | inr new ↦
          rw (new, dedupe_from-seen (i ∷ seen) items k)
            (new_key (text_eq i k) (is_seen (keys items) k) (is_seen seen k)
              (λ e. sym (seen_by_eq seen i k e) ∙ new))
    ]

dedupe_from-AreDistinct :
    (seen : List Text) (items : List CompletionItem) → AreDistinct (keys (dedupe_from seen items))
unfolding dedupe_from
dedupe_from-AreDistinct seen [] = tt
dedupe_from-AreDistinct seen (item ∷ items) =
    let i = item_key item in
    elim (Bool-cases (is_seen seen i)) [
      | inl old ↦ rw old (dedupe_from-AreDistinct seen items)
      | inr new ↦ rw new (
        dedupe_from-seen (i ∷ seen) items i
            ∙ rw (text_eq_refl i) (and_false (is_seen (keys items) i)),
        dedupe_from-AreDistinct (i ∷ seen) items,
      )
    ]

-- With the key of an item written as its label, two colons and its text: no two of the items that remain have
-- the same key, and the keys of the items that remain are those of all the items.
pub dedupe_completion_items_lem :
    (items : List CompletionItem) (key : Text)
    → AreDistinct (keys (dedupe_completion_items items))
      × (stands_in (keys (dedupe_completion_items items)) key ≡ stands_in (keys items) key)
unfolding dedupe_completion_items
dedupe_completion_items_lem items key = (
  dedupe_from-AreDistinct [] items,
  dedupe_from-seen [] items key ∙ and_true (is_seen (keys items) key),
)
