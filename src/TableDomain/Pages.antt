-- ===== src/TableDomain/Pages.antt =====
-- `changeDataPage` and `changeConsolePage`: the offset of the page that a button leads to.
-- Offsets, limits and totals are natural numbers; `Math.ceil(a / b)` is exact on them.
pub mod Bounds
use zszc_sql_client.Base.{
  ℕ, ◌+◌, ◌-◌, ◌*◌, ◌/◌, max, Bool, true, false, not, ◌&&◌, Option, none, some, length, ltb, eqb,
  if◌then◌else◌,
}
use zszc_sql_client.Types.Tabs.{DataTab, DataTabState, ConsoleTabState}

pub data Direction : Type 0 where
  first prev next last : Direction

abbrev is_first : Direction → Bool
is_first first = true
is_first _ = false

-- `Math.ceil(a / b)` for 0 < b
abbrev pub ceil_div : ℕ → ℕ → ℕ
ceil_div a b = (a + b - 1) / b

-- `Math.max(Math.ceil(total / Math.max(limit, 1)) - 1, 0) * limit`
unfoldable pub last_offset : ℕ → ℕ → ℕ
last_offset total limit = (ceil_div total (max limit 1) - 1) * limit

-- The early return where the offset does not change; `none` is a return with no refresh.
abbrev pub unless_same : Direction → ℕ → ℕ → Option ℕ
unless_same direction offset next_offset =
    if eqb next_offset offset && not (is_first direction) then none else some next_offset

-- The offset that `changeDataPage` passes to `refreshDataTab`.
unfoldable pub data_page_offset : DataTabState → Direction → Option ℕ
data_page_offset tab first = unless_same first tab.offset 0
data_page_offset tab prev = unless_same prev tab.offset (tab.offset - tab.limit)
data_page_offset tab next =
    if ltb (length tab.rows) tab.limit
    then none
    else unless_same next tab.offset (tab.offset + tab.limit)
data_page_offset tab last =
    if not tab.row_count_exact
    then none
    else unless_same last tab.offset (last_offset tab.total_rows tab.limit)

-- The offset that `changeConsolePage` passes to `runConsoleSql`.
unfoldable pub console_page_offset : ConsoleTabState → Direction → Option ℕ
console_page_offset tab first = unless_same first tab.offset 0
console_page_offset tab prev = unless_same prev tab.offset (tab.offset - tab.limit)
console_page_offset tab next =
    if not tab.truncated then none else unless_same next tab.offset (tab.offset + tab.limit)
console_page_offset tab last =
    if not tab.row_count_exact
    then none
    else unless_same last tab.offset (last_offset tab.total_rows tab.limit)
