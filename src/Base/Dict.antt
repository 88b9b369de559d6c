-- ===== src/Base/Dict.antt =====
-- JavaScript objects and `Map`s with string keys, as association lists in the order of insertion:
-- a write to a key that is there keeps its place, a new key goes to the end.
use zszc_sql_client.Base.{
  String, ◌≡◌, refl, ◌∙◌, sym, Bool, Option, none, some, List, [], ◌∷◌, ◌++◌, append_assoc,
  append-nil, arith, ◌==◌, eq_iff, eq_refl, ◌≢◌, if◌then◌else◌, filter,
}

abbrev pub Dict {ℓ} : Type ℓ → Type ℓ
Dict V = List (String × V)

module _ {ℓ} {V : Type ℓ} where
  -- `entries[key]`
  unfoldable pub lookup : String → Dict V → Option V
  lookup key [] = none
  lookup key (entry ∷ entries) = if entry.0 == key then some entry.1 else lookup key entries

  -- `entries[key] = value`
  unfoldable pub insert : String → V → Dict V → Dict V
  insert key value [] = (key, value) ∷ []
  insert key value (entry ∷ entries) =
      let behind = entry ∷ insert key value entries in
      if entry.0 == key then (key, value) ∷ entries else behind

  -- `Object.fromEntries`, `new Map(entries)`: a later entry overwrites an earlier one.
  unfoldable pub insert_all : Dict V → List (String × V) → Dict V
  insert_all m [] = m
  insert_all m ((k, v) ∷ rest) = insert_all (insert k v m) rest

  unfoldable pub from_entries : List (String × V) → Dict V
  unfolding insert_all insert
  from_entries entries = insert_all [] entries

  -- A written key has the new value, and every other key the value that it had.
  pub lookup-insert :
      (key other : String) (value : V) (entries : Dict V)
      → lookup other (insert key value entries)
        ≡ (if key == other then some value else lookup other entries)
  unfolding lookup insert
  lookup-insert key other value [] = refl
  lookup-insert key other value (entry ∷ entries) = ground (
    arith,
    lookup-insert key other value entries,
    eq_iff entry.0 key,
    eq_iff entry.0 other,
    eq_iff key other,
  )

-- Every key stands once, as in any JavaScript object.
abbrev pub IsDict {ℓ} : {V : Type ℓ} → Dict V → Type ℓ
IsDict [] = Unit
IsDict ((k, v) ∷ m) = (lookup k m ≡ none) × IsDict m

module _ {ℓ} {V : Type ℓ} where
  abbrev pub keep_if : Bool → V → Option V
  keep_if b v = if b then some v else none

  -- What a filter on the entries leaves under a key.
  abbrev pub kept : (String × V → Bool) → String → Option V → Option V
  kept p k none = none
  kept p k (some v) = keep_if (p (k, v)) v

  lookup-filter-none :
      (p : String × V → Bool) (k : String) (m : Dict V)
      → lookup k m ≡ none
      → lookup k (filter p m) ≡ none
  unfolding lookup
  lookup-filter-none p k [] h = refl
  lookup-filter-none p k ((j, v) ∷ m) h = ground (arith, lookup-filter-none p k m)

  pub lookup-filter :
      (p : String × V → Bool) (k : String) (m : Dict V)
      → IsDict m
      → lookup k (filter p m) ≡ kept p k (lookup k m)
  unfolding lookup
  lookup-filter p k [] h = refl
  lookup-filter p k ((j, v) ∷ m) h =
      ground (arith, eq_iff j k, lookup-filter p k m h.1, lookup-filter-none p j m h.0)

  pub filter-IsDict : (p : String × V → Bool) (m : Dict V) → IsDict m → IsDict (filter p m)
  filter-IsDict p [] h = tt
  filter-IsDict p ((j, v) ∷ m) h =
      ground (arith, filter-IsDict p m h.1, lookup-filter-none p j m h.0)

  insert_absent :
      (k : String) (v : V) (m : Dict V) → lookup k m ≡ none → insert k v m ≡ m ++ (k, v) ∷ []
  unfolding lookup insert
  insert_absent k v [] h = refl
  insert_absent k v ((j, w) ∷ m) h = ground (arith, insert_absent k v m)

  lookup-append_last : (k : String) (v : V) (m rest : Dict V) → lookup k (m ++ (k, v) ∷ rest) ≢ none
  unfolding lookup
  lookup-append_last k v [] rest h = ground (arith, eq_refl k)
  lookup-append_last k v ((j, w) ∷ m) rest h = ground (arith, lookup-append_last k v m rest)

  lookup-append_head :
      (k : String) (v : V) (m rest : Dict V) → IsDict (m ++ (k, v) ∷ rest) → lookup k m ≡ none
  unfolding lookup
  lookup-append_head k v [] rest h = refl
  lookup-append_head k v ((j, w) ∷ m) rest h =
      ground (arith, lookup-append_head k v m rest h.1, eq_iff j k, lookup-append_last k v m rest)

  pub insert-IsDict : (k : String) (v : V) (m : Dict V) → IsDict m → IsDict (insert k v m)
  unfolding lookup insert
  insert-IsDict k v [] h = (refl, tt)
  insert-IsDict k v ((j, w) ∷ m) h =
      ground (arith, insert-IsDict k v m h.1, lookup-insert k j v m, eq_iff j k, eq_iff k j)

  insert_all-append : (m rest : Dict V) → IsDict (m ++ rest) → insert_all m rest ≡ m ++ rest
  unfolding insert_all
  insert_all-append m [] h = sym (append-nil m)
  insert_all-append m ((k, v) ∷ rest) h =
      let absent = insert_absent k v m (lookup-append_head k v m rest h) in
      let again = append_assoc m ((k, v) ∷ []) rest in
      rw absent (insert_all-append (m ++ (k, v) ∷ []) rest (rw again h) ∙ again)

  -- An object goes through its entries and back.
  pub from_entries_of_IsDict : (m : Dict V) → IsDict m → from_entries m ≡ m
  unfolding from_entries
  from_entries_of_IsDict m h = insert_all-append [] m h

  -- A written value, where there is one, else the value that was there.
  abbrev pub written : Option V → Option V → Option V
  written none old = old
  written (some v) old = some v

  -- `{ ...m, ...entries }`
  pub lookup-insert_all :
      (k : String) (entries m : Dict V)
      → IsDict entries
      → lookup k (insert_all m entries) ≡ written (lookup k entries) (lookup k m)
  unfolding lookup insert_all
  lookup-insert_all k [] m h = refl
  lookup-insert_all k ((j, v) ∷ entries) m h =
      ground
        (arith, lookup-insert_all k entries (insert j v m) h.1, lookup-insert j k v m, eq_iff j k)

  insert_all-IsDict : (entries m : Dict V) → IsDict m → IsDict (insert_all m entries)
  unfolding insert_all
  insert_all-IsDict [] m h = h
  insert_all-IsDict ((k, v) ∷ entries) m h =
      insert_all-IsDict entries (insert k v m) (insert-IsDict k v m h)

  pub from_entries-IsDict : (entries : List (String × V)) → IsDict (from_entries entries)
  unfolding from_entries
  from_entries-IsDict entries = insert_all-IsDict entries [] tt
