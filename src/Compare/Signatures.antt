-- ===== src/Compare/Signatures.antt =====
-- Excluding single differences: `toggleExcludedSignature` and `isDataCompareDetailSelected`.
use zszc_sql_client.Base.{
  String, ◌≡◌, refl, Bool, true, false, not, ◌||◌, ◌&&◌, List, [], ◌∷◌, ◌++◌, filter, includes,
  Distinct, arith, eq_iff, ◌==◌, if◌then◌else◌, Bool-cases, inl, inr,
}
use zszc_sql_client.Compare.{set_add, set_of, toggle_excluded_signature}

includes-concat :
    (xs : List String) (s other : String)
    → includes (xs ++ s ∷ []) other ≡ (includes xs other || s == other)
includes-concat [] s other = ground arith
includes-concat (x ∷ xs) s other = ground (arith, includes-concat xs s other)

includes-set_add :
    (xs : List String) (s other : String)
    → includes (set_add xs s) other ≡ (includes xs other || s == other)
unfolding set_add
includes-set_add xs s other = ground (arith, includes-concat xs s other, eq_iff s other)

includes-set_of :
    (set xs : List String) (other : String)
    → includes (set_of set xs) other ≡ (includes set other || includes xs other)
unfolding set_of
includes-set_of set [] other = ground arith
includes-set_of set (x ∷ xs) other =
    ground (arith, includes-set_of (set_add set x) xs other, includes-set_add set x other)

includes-without :
    (xs : List String) (s other : String)
    → includes (filter (λ x. not (x == s)) xs) other ≡ (includes xs other && not (s == other))
includes-without [] s other = refl
includes-without (x ∷ xs) s other =
    ground (arith, includes-without xs s other, eq_iff x s, eq_iff x other, eq_iff s other)

-- After a toggle the signature is excluded exactly if it was unchecked, and every other one is
-- excluded exactly if it was before.
pub includes-toggle :
    (signatures : List String) (signature other : String) (checked : Bool)
    → includes (toggle_excluded_signature signatures signature checked) other
      ≡ (if signature == other then not checked else includes signatures other)
unfolding toggle_excluded_signature
includes-toggle signatures signature other checked = ground (
  arith,
  includes-set_of [] signatures other,
  includes-set_add (set_of [] signatures) signature other,
  includes-without (set_of [] signatures) signature other,
)

Distinct-concat :
    (xs : List String) (s : String) → Distinct xs → includes xs s ≡ false → Distinct (xs ++ s ∷ [])
Distinct-concat [] s d h = (refl, tt)
Distinct-concat (x ∷ xs) s d h =
    ground (arith, Distinct-concat xs s d.1, includes-concat xs s x, eq_iff x s, eq_iff s x)

set_add-Distinct : (xs : List String) (s : String) → Distinct xs → Distinct (set_add xs s)
unfolding set_add
set_add-Distinct xs s d = elim (Bool-cases (includes xs s)) [
  | inl there ↦ rw there d
  | inr fresh ↦ rw fresh (Distinct-concat xs s d fresh)
]

set_of-Distinct : (set xs : List String) → Distinct set → Distinct (set_of set xs)
unfolding set_of
set_of-Distinct set [] d = d
set_of-Distinct set (x ∷ xs) d = set_of-Distinct (set_add set x) xs (set_add-Distinct set x d)

without-Distinct :
    (xs : List String) (s : String) → Distinct xs → Distinct (filter (λ x. not (x == s)) xs)
without-Distinct [] s d = tt
without-Distinct (x ∷ xs) s d = ground (arith, without-Distinct xs s d.1, includes-without xs s x)

-- Whatever list it is given, a toggle returns a list in which no signature stands twice.
pub toggle-Distinct :
    (signatures : List String) (signature : String) (checked : Bool)
    → Distinct (toggle_excluded_signature signatures signature checked)
unfolding toggle_excluded_signature
toggle-Distinct signatures signature true =
    without-Distinct (set_of [] signatures) signature (set_of-Distinct [] signatures tt)
toggle-Distinct signatures signature false =
    set_add-Distinct (set_of [] signatures) signature (set_of-Distinct [] signatures tt)
