-- ===== src/Navigation/Forms.antt =====
-- `normalizeProfileForm`, `profileToForm` and the comparison of `sortProfiles`.
use zszc_sql_client.Base.{
  String, ◌≡◌, refl, sym, subst, Option, none, some, ◌==◌, if◌then◌else◌, Bool-cases, inl, inr,
}
use zszc_sql_client.Types.Remote.{ConnectionProfile}
use zszc_sql_client.Types.Tabs.{SaveConnectionProfilePayload}
use zszc_sql_client.Navigation.{
  Sign, positive, negative, zero, ungrouped_group_name, normalize_group_name,
  normalize_profile_form, compare_group_name, compare_profiles,
}

abbrev trimmed_group : (String → String) → Option String → Option String
trimmed_group trim group_name = elim group_name [
  | none ↦ none
  | some name ↦ if trim name == "" then none else some (trim name)
]

trimmed_group-twice :
    (trim : String → String)
    → ((s : String) → trim (trim s) ≡ trim s)
    → (group_name : Option String)
    → trimmed_group trim (trimmed_group trim group_name) ≡ trimmed_group trim group_name
trimmed_group-twice trim h none = refl
trimmed_group-twice trim h (some name) = elim (Bool-cases (trim name == "")) [
  | inl blank ↦ rw blank refl
  | inr given ↦ rw given (rw (h name, given) refl)
]

-- The same group, whether the name is trimmed before or not.
normalize-trimmed :
    (trim : String → String)
    → ((s : String) → trim (trim s) ≡ trim s)
    → (group_name : Option String)
    → normalize_group_name trim (trimmed_group trim group_name)
      ≡ normalize_group_name trim group_name
unfolding normalize_group_name
normalize-trimmed trim h none = refl
normalize-trimmed trim h (some name) = elim (Bool-cases (trim name == "")) [
  | inl blank ↦ rw blank refl
  | inr given ↦ rw given (rw (h name, given) refl)
]

-- A form that is normalized is not changed by normalizing it again, and its data source stays in the group
-- of the tree in which the profile's group name as typed puts it, if trimming twice is trimming once.
pub normalize_profile_form_twice :
    (trim : String → String)
    → ((s : String) → trim (trim s) ≡ trim s)
    → (form : SaveConnectionProfilePayload)
    → (normalize_profile_form trim (normalize_profile_form trim form)
        ≡ normalize_profile_form trim form)
      × (normalize_group_name trim (normalize_profile_form trim form).group_name
          ≡ normalize_group_name trim form.group_name)
unfolding normalize_profile_form
normalize_profile_form_twice trim h form = (
  rw
      (
        trimmed_group-twice trim h form.group_name,
        h form.data_source_name,
        h form.host,
        h form.username,
      )
      refl,
  normalize-trimmed trim h form.group_name,
)

abbrev sign_by : Sign → Sign → Sign
sign_by by_group by_name = elim by_group [
  | zero ↦ by_name
  | negative ↦ negative
  | positive ↦ positive
]

ungrouped-positive :
    (locale_compare : String → String → Sign) (left right : String) (by_name : Sign)
    → left ≡ ungrouped_group_name
    → sign_by (compare_group_name locale_compare left right) by_name ≡ positive
unfolding compare_group_name
ungrouped-positive locale_compare left right by_name l =
    subst (λ n. sign_by (compare_group_name locale_compare n right) by_name ≡ positive) (sym l) refl

-- Of two profiles without a group, each is put behind the other, in either order and whatever their names
-- are: the comparison is not an order on them, and their names are never compared.
pub ungrouped_profiles_compare :
    (trim : String → String) (locale_compare : String → String → Sign)
    (left right : ConnectionProfile)
    → normalize_group_name trim left.group_name ≡ ungrouped_group_name
    → normalize_group_name trim right.group_name ≡ ungrouped_group_name
    → (compare_profiles locale_compare trim left right ≡ positive)
      × (compare_profiles locale_compare trim right left ≡ positive)
unfolding compare_profiles
ungrouped_profiles_compare trim locale_compare left right l r = (
  ungrouped-positive locale_compare (normalize_group_name trim left.group_name)
      (normalize_group_name trim right.group_name) _ l,
  ungrouped-positive locale_compare (normalize_group_name trim right.group_name)
      (normalize_group_name trim left.group_name) _ r,
)
