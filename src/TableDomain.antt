-- ===== src/TableDomain.antt =====
-- features/workspace/useTableWorkspaceDomain.ts: the operations on data, console and design tabs.
-- Each is an update of one tab, given to `patchTab`.
pub mod Rows
pub mod Pages
pub mod Design
pub mod Remote
pub mod Opening
pub mod Exports
mod Tests
use zszc_sql_client.Types.Tabs.{
  DataTab, DataTabState, DataGridRow, ConsoleTab, DesignTab, WorkspaceTab, profile_tab, design_tab,
  data_tab, console_tab, group_assignment_tab,
}
use zszc_sql_client.Base.{List}

-- `tab.kind !== 'data' ? tab : …`
abbrev pub on_data : (DataTab → DataTab) → WorkspaceTab → WorkspaceTab
on_data f (data_tab t) = data_tab (f t)
on_data f (profile_tab t) = profile_tab t
on_data f (design_tab t) = design_tab t
on_data f (console_tab t) = console_tab t
on_data f (group_assignment_tab t) = group_assignment_tab t

abbrev pub on_console : (ConsoleTab → ConsoleTab) → WorkspaceTab → WorkspaceTab
on_console f (console_tab t) = console_tab (f t)
on_console f (profile_tab t) = profile_tab t
on_console f (design_tab t) = design_tab t
on_console f (data_tab t) = data_tab t
on_console f (group_assignment_tab t) = group_assignment_tab t

abbrev pub on_design : (DesignTab → DesignTab) → WorkspaceTab → WorkspaceTab
on_design f (design_tab t) = design_tab (f t)
on_design f (profile_tab t) = profile_tab t
on_design f (data_tab t) = data_tab t
on_design f (console_tab t) = console_tab t
on_design f (group_assignment_tab t) = group_assignment_tab t

-- `{ ...tab, data: { ...tab.data, rows } }`
abbrev pub with_rows : (List DataGridRow → List DataGridRow) → DataTab → DataTab
with_rows f tab = record tab { grid = record tab.grid { rows = f tab.grid.rows } }
