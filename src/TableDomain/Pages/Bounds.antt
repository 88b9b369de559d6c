-- ===== src/TableDomain/Pages/Bounds.antt =====
-- Where the page buttons lead.
use mathlib.Core.Path.{subst}
use zszc_sql_client.Base.{
  ℕ, zero, suc, ◌+◌, ◌-◌, ◌*◌, ◌/◌, ◌%◌, ◌≤◌, ◌<◌, max, ◌≡◌, true, some, arith, sym, or_else,
}
use native.Mathlib.Nat.{mul-mod_left, add-mul-mod_self_right, div-add-mod'}
use zszc_sql_client.Types.Tabs.{DataTabState}
use zszc_sql_client.TableDomain.Pages.{
  unless_same, Direction, first, prev, next, last, last_offset, data_page_offset,
}

ceil_bounds :
    (total limit q r : ℕ)
    → q * limit + r ≡ total + limit - 1
    → r < limit
    → 0 < total
    → ((q - 1) * limit < total) × (total ≤ (q - 1) * limit + limit)
ceil_bounds total limit zero r e h k = absurd (omega arith)
ceil_bounds total limit (suc p) r e h k =
    let one : suc p - 1 ≡ p = omega arith in rw one (omega arith)

-- The offset of the last page of a table that has rows, with a positive limit, lies before the end,
-- and the page reaches the end.
pub last_offset_bounds :
    (total limit : ℕ)
    → 0 < limit
    → 0 < total
    → (last_offset total limit < total) × (total ≤ last_offset total limit + limit)
unfolding last_offset
last_offset_bounds total limit h k =
    let same : max limit 1 ≡ limit = omega arith in
    rw same (
      ceil_bounds total limit ((total + limit - 1) / limit) ((total + limit - 1) % limit)
        (grind arith) (omega arith) k)

-- An offset that starts a page: a multiple of the limit.
abbrev pub IsAligned : ℕ → ℕ → Type 0
IsAligned limit offset = offset % limit ≡ 0

mul-IsAligned : (q limit : ℕ) → IsAligned limit (q * limit)
mul-IsAligned q limit = mul-mod_left q limit

zero-IsAligned : (limit : ℕ) → IsAligned limit 0
zero-IsAligned limit = omega (arith, mul-IsAligned 0 limit)

add-IsAligned : (offset limit : ℕ) → IsAligned limit offset → IsAligned limit (offset + limit)
add-IsAligned offset limit h =
    let once : offset + limit ≡ offset + 1 * limit = omega arith in
    rw (once, add-mul-mod_self_right offset 1 limit) h

sub_mul-IsAligned : (q limit : ℕ) → IsAligned limit (q * limit - limit)
sub_mul-IsAligned zero limit =
    let none_left : 0 * limit - limit ≡ 0 = omega arith in rw none_left (zero-IsAligned limit)
sub_mul-IsAligned (suc p) limit =
    let one_less : suc p * limit - limit ≡ p * limit = omega arith in
    rw one_less (mul-IsAligned p limit)

sub-IsAligned : (offset limit : ℕ) → IsAligned limit offset → IsAligned limit (offset - limit)
sub-IsAligned offset limit h =
    let pages : offset ≡ offset / limit * limit = omega (arith, div-add-mod' offset limit) in
    subst (λ n. IsAligned limit (n - limit)) (sym pages) (sub_mul-IsAligned (offset / limit) limit)

last_offset-IsAligned : (total limit : ℕ) → IsAligned limit (last_offset total limit)
unfolding last_offset
last_offset-IsAligned total limit = mul-IsAligned _ limit

unless_same-eq-some :
    (direction : Direction) (offset next_offset result : ℕ)
    → unless_same direction offset next_offset ≡ some result
    → result ≡ next_offset
unless_same-eq-some direction offset next_offset result e = ground arith

-- From the start of a page every button that loads a page leads to the start of a page.
pub data_page_offset-IsAligned :
    (tab : DataTabState) (direction : Direction) (offset : ℕ)
    → IsAligned tab.limit tab.offset
    → data_page_offset tab direction ≡ some offset
    → IsAligned tab.limit offset
unfolding data_page_offset
data_page_offset-IsAligned tab first offset h e = ground (arith, zero-IsAligned tab.limit)
data_page_offset-IsAligned tab prev offset h e =
    ground (arith, sub-IsAligned tab.offset tab.limit h)
data_page_offset-IsAligned tab next offset h e =
    ground (arith, add-IsAligned tab.offset tab.limit h)
data_page_offset-IsAligned tab last offset h e =
    ground (arith, last_offset-IsAligned tab.total_rows tab.limit)

-- The last page: with an exact count, a positive limit and rows in the table, the button leads to a
-- page that starts before the end and reaches it, or the tab shows that page already.
pub data_last_page :
    (tab : DataTabState)
    → tab.row_count_exact ≡ true
    → 0 < tab.limit
    → 0 < tab.total_rows
    → (offset : ℕ) × (or_else (data_page_offset tab last) tab.offset ≡ offset)
      × (offset < tab.total_rows)
      × (tab.total_rows ≤ offset + tab.limit)
unfolding data_page_offset
data_last_page tab exact h k =
    let (below, reaches) = last_offset_bounds tab.total_rows tab.limit h k in
    (last_offset tab.total_rows tab.limit, ground arith, below, reaches)
