-- ===== src/TableDomain/Exports/Offers.antt =====
-- The scopes that the export dialog offers (`getExportScopeOptions`, `getExportScopeText`), and its
-- confirmation: the request that it makes, and what becomes of the dialog.
use zszc_sql_client.Base.{
  ℕ, String, ◌≡◌, refl, sym, ap, ◌∙◌, Bool, true, false, not, ◌||◌, Option, none, some, List, [],
  ◌∷◌, joined, length, ltb, eqb, if◌then◌else◌, arith, ◌==◌,
}
use zszc_sql_client.Types.Cells.{TableDataColumn, TableDataRow}
use zszc_sql_client.Types.Remote.{
  ExportFileFormat, ExportScope, current_page, all_rows, selected_rows, ExportSource, table_data,
  query_result, ExportDialogState,
}
use zszc_sql_client.Types.Tabs.{DataGridRow, DataTab, ConsoleTab}
use zszc_sql_client.TableDomain.Exports.{
  build_export_rows, has_any, open_data_export_dialog, open_query_result_export_dialog,
  rows_to_send, set_busy, has_filter,
}

pub record ScopeOption : Type 0 where
  pub value : ExportScope
  pub label : String
  pub description : String
  pub disabled : Bool

module _ (trim : String → String) (shown : ℕ → String) where
  unfoldable pub get_export_scope_options : ExportDialogState → List ScopeOption
  get_export_scope_options dialog =
      let current_rows = length dialog.rows in
      let chosen = length dialog.selected_rows in
      elim dialog.source [
        | table_data payload ↦
            record {
              value = current_page;
              label = "当前页";
              description =
                  if ltb 0 current_rows
                  then joined ("导出当前页已加载的 " ∷ shown current_rows ∷ " 行数据" ∷ [])
                  else "当前页暂无行数据，将仅导出表头";
              disabled = eqb (length dialog.columns) 0;
            }
            ∷ record {
              value = all_rows;
              label = if has_filter trim payload then "当前筛选结果" else "整表数据";
              description =
                  if has_filter trim payload
                  then "按当前 WHERE / ORDER BY 重新查询并导出全部结果"
                  else "重新查询整张表并导出全部结果";
              disabled = false;
            }
            ∷ record {
              value = selected_rows;
              label = "所选行";
              description =
                  if ltb 0 chosen
                  then joined ("导出当前表格中已选中的 " ∷ shown chosen ∷ " 行" ∷ [])
                  else "请先在表格中框选需要导出的行";
              disabled = eqb chosen 0;
            }
            ∷ []
        | query_result payload ↦
            record {
              value = current_page;
              label = "当前页";
              description =
                  if ltb 0 current_rows
                  then joined ("导出当前页已加载的 " ∷ shown current_rows ∷ " 行结果" ∷ [])
                  else "当前页暂无行数据，将仅导出表头";
              disabled = eqb (length dialog.columns) 0;
            }
            ∷ record {
              value = all_rows;
              label = "完整查询结果";
              description = "重新执行当前 SQL，并导出完整结果集";
              disabled = false;
            }
            ∷ record {
              value = selected_rows;
              label = "所选行";
              description =
                  if ltb 0 chosen
                  then joined ("导出当前结果表格中已选中的 " ∷ shown chosen ∷ " 行" ∷ [])
                  else "请先在结果表格中框选需要导出的行";
              disabled = eqb chosen 0;
            }
            ∷ []
      ]

  unfoldable pub get_export_scope_text : ExportDialogState → String
  get_export_scope_text dialog = elim dialog.scope [
    | selected_rows ↦ "所选行"
    | current_page ↦ "当前页"
    | all_rows ↦ elim dialog.source [
      | query_result payload ↦ "完整查询结果"
      | table_data payload ↦ if has_filter trim payload then "当前筛选结果" else "整表数据"
    ]
  ]

abbrev pub is_scope : ExportScope → ExportScope → Bool
is_scope current_page current_page = true
is_scope all_rows all_rows = true
is_scope selected_rows selected_rows = true
is_scope _ _ = false

-- Whether a scope is among the options, and not disabled.
abbrev pub is_offered : ExportScope → List ScopeOption → Bool
is_offered scope [] = false
is_offered scope (option ∷ options) =
    if is_scope scope option.value then not option.disabled else is_offered scope options

-- `chooseExportPath` answers with a path, or that the user went back.
pub record SaveTarget : Type 0 where
  pub canceled : Bool
  pub file_path : Option String

-- What the backend is asked to write, the payload of `exportTableDataFile` and `exportQueryResultFile`.
pub record ExportRequest : Type 0 where
  pub source : ExportSource
  pub file_path : String
  pub export_format : ExportFileFormat
  pub scope : ExportScope
  pub columns : List TableDataColumn
  pub rows : List TableDataRow

unfoldable pub export_request : ExportDialogState → SaveTarget → Option ExportRequest
unfolding rows_to_send
export_request dialog target = elim target.file_path [
  | none ↦ none
  | some path ↦
      if target.canceled || path == ""
      then none
      else some (record {
        source = dialog.source;
        file_path = path;
        export_format = dialog.format;
        scope = dialog.scope;
        columns = dialog.columns;
        rows = rows_to_send dialog;
      })
]

-- The dialog while the confirmation of `captured` runs: `target` is the answer of the file dialog, none when
-- it fails, and `exported` whether the backend wrote the file.
unfoldable pub confirm_export_dialog :
    Option SaveTarget
    → Bool
    → Option ExportDialogState
    → Option ExportDialogState × Option ExportRequest
unfolding set_busy export_request
confirm_export_dialog target exported none = (none, none)
confirm_export_dialog target exported (some captured) =
    let busy = set_busy true (some captured) in
    elim target [
      | none ↦ (set_busy false busy, none)
      | some path ↦ elim (export_request captured path) [
        | none ↦ (set_busy false busy, none)
        | some request ↦ (if exported then none else set_busy false busy, some request)
      ]
    ]

exported-any :
    (rows : List DataGridRow)
    → has_any (build_export_rows false rows) ≡ false
    → has_any (build_export_rows true rows) ≡ false
unfolding build_export_rows
exported-any [] h = refl
exported-any (row ∷ rows) h = ground (arith, exported-any rows)

has_any-eqb {ℓ} : {A : Type ℓ} (xs : List A) → eqb (length xs) 0 ≡ not (has_any xs)
has_any-eqb [] = refl
has_any-eqb (x ∷ xs) = ground arith

data-offered :
    (trim : String → String) (shown : ℕ → String) (tab : DataTab)
    → not (has_any (build_export_rows false tab.grid.rows)) || has_any tab.grid.columns ≡ true
    → is_offered
        (open_data_export_dialog tab).scope
        (get_export_scope_options trim shown (open_data_export_dialog tab))
      ≡ true
unfolding open_data_export_dialog get_export_scope_options
data-offered trim shown tab h = ground (
  arith,
  has_any-eqb (build_export_rows true tab.grid.rows),
  has_any-eqb tab.grid.columns,
  exported-any tab.grid.rows,
)

abbrev scope_offered : (String → String) → (ℕ → String) → Option ExportDialogState → Bool
scope_offered trim shown none = true
scope_offered trim shown (some dialog) =
    is_offered dialog.scope (get_export_scope_options trim shown dialog)

console-offered :
    (trim : String → String) (shown : ℕ → String) (console : ConsoleTab)
    → scope_offered trim shown (open_query_result_export_dialog trim console) ≡ true
unfolding open_query_result_export_dialog get_export_scope_options
console-offered trim shown console = ground (
  arith,
  has_any-eqb (build_export_rows true console.console.rows),
  has_any-eqb console.console.columns,
)

-- The dialog that opens for a console offers the scope that it opens with; that for a data tab does too, if
-- a tab with rows that are not deleted has columns.
pub opened_scope_is_offered :
    (trim : String → String) (shown : ℕ → String) (tab : DataTab) (console : ConsoleTab)
    (dialog : ExportDialogState)
    → not (has_any (build_export_rows false tab.grid.rows)) || has_any tab.grid.columns ≡ true
    → open_query_result_export_dialog trim console ≡ some dialog
    → (is_offered
          (open_data_export_dialog tab).scope
          (get_export_scope_options trim shown (open_data_export_dialog tab))
        ≡ true)
      × (is_offered dialog.scope (get_export_scope_options trim shown dialog) ≡ true)
opened_scope_is_offered trim shown tab console dialog h e = (
  data-offered trim shown tab h,
  sym (ap (scope_offered trim shown) e) ∙ console-offered trim shown console,
)
