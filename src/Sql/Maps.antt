-- ===== src/Sql/Maps.antt =====
-- Maps from texts, in the order in which the keys came, as `Map` of the JavaScript runtime is.
use zszc_sql_client.Base.{
  ◌≡◌, sym, ◌∙◌, ◌⊎◌, false, Option, none, some, List, [], ◌∷◌, if◌then◌else◌, arith, Bool-cases,
  inl, inr, subst,
}
use mathlib.Core.Option.{some_inj}
use zszc_sql_client.Sql.Text.{Text, text_eq, text_eq→eq, text_eq_refl}

abbrev pub TextMap {ℓ} : Type ℓ → Type ℓ
TextMap A = List (Text × A)

module _ {ℓ} {A : Type ℓ} where
  abbrev pub get : Text → TextMap A → Option A
  get key [] = none
  get key ((k, a) ∷ entries) = if text_eq k key then some a else get key entries

  -- A key that is there keeps its place.
  abbrev pub put : Text → A → TextMap A → TextMap A
  put key a [] = (key, a) ∷ []
  put key a ((k, b) ∷ entries) =
      let later = put key a entries in if text_eq k key then (k, a) ∷ entries else (k, b) ∷ later

  abbrev pub values : TextMap A → List A
  values [] = []
  values ((k, a) ∷ entries) = a ∷ values entries

  pub get-put : (key : Text) (a : A) (entries : TextMap A) → get key (put key a entries) ≡ some a
  get-put key a [] = ground (arith, text_eq_refl key)
  get-put key a ((k, b) ∷ entries) =
      ground (arith, get-put key a entries, text_eq_refl key, text_eq→eq k key)

  pub get-put_other :
      (key other : Text) (a : A) (entries : TextMap A)
      → text_eq key other ≡ false
      → get other (put key a entries) ≡ get other entries
  get-put_other key other a [] h = ground arith
  get-put_other key other a ((k, b) ∷ entries) h =
      ground (arith, get-put_other key other a entries, text_eq→eq k key)

  -- What is found after an entry was put is that entry, or was found before.
  pub get-put_cases :
      (key other : Text) (a x : A) (entries : TextMap A)
      → get other (put key a entries) ≡ some x
      → ((key ≡ other) × (a ≡ x)) ⊎ (get other entries ≡ some x)
  get-put_cases key other a x entries h = elim (Bool-cases (text_eq key other)) [
    | inl same ↦
        let e = text_eq→eq key other same in
        inl (
          e,
          some_inj.0 (
              sym (get-put key a entries)
              ∙ subst (λ k. get k (put key a entries) ≡ some x) (sym e) h),
        )
    | inr differ ↦ inr (sym (get-put_other key other a entries differ) ∙ h)
  ]
