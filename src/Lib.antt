-- ===== src/Lib.antt =====
-- Verification of the front end of zszc-sql-client, a desktop workbench for MySQL and Redis.
--
-- The program is a React application (frontend/src) over a backend that it calls. Modelled is the logic
-- of the MySQL workspace that decides what the user sees as changed and what is sent to the backend, the
-- navigation tree, and the bridge of the plugins:
--
-- * Tabs (frontend/src/features/workspace/useWorkspaceTabsState.ts): the open tabs and the active id.
--   `TabsState` holds the two states of the hook and its ref; `patch_tab`, `remove_tab`, `replace_tab`
--   and `upsert_tab` are its functions, and `sync_tabs_ref` is the effect that runs after a render; the raw
--   setters `setTabs` and `setActiveTabId`, which it also returns, are left out. The children are Laws, Opening,
--   Stale (closing) and Reach (sequences of operations).
-- * Grid (frontend/src/features/table-data/dataMutations.ts): which values of a row have changed, when a
--   tab has pending mutations, and the payload of a submission. `build_changed_data_values`,
--   `has_pending_data_mutations` and `build_data_mutation_payload` are the functions of those names.
-- * TableDomain (frontend/src/features/workspace/useTableWorkspaceDomain.ts): the operations on a tab,
--   each an update given to `patch_tab`. Rows has the draft layer over the rows of a data tab, Pages the
--   paging buttons, Design the editing of a table's columns, Opening the tabs that are opened for tables
--   and consoles, Exports the export dialog. Remote has the requests to the backend: each of
--   `refreshDataTab`, `refreshDesignTab` and `runConsoleSql` is an update before the request and one after
--   its answer, and `RemoteStep` (Remote/Requests) lets requests be made and answered in any order, while
--   tabs are opened, edited and closed.
-- * Compare (frontend/src/features/compare/state.ts): which differences of a comparison are selected for
--   the sync SQL (Selection, Signatures, Summary), the cache of the difference pages (Pages), and the
--   selection of a structure comparison (Structure). Task is the polling
--   of frontend/src/features/compare/taskRuntime.ts.
-- * Sql (frontend/src/SqlEditor.tsx): Statement finds the statement under the cursor, Tokens has the
--   tokenizer (Gaps, Lexing), the quoting of names, the grouping of tokens, and the readers of names (Tokens/Names).
--   Analysis reads the relations, common table expressions and columns of a statement: `analyze_at` is
--   `analyzeSqlTokens`; Sources, Known and Origins are about where its relations come from, Tails about the
--   tokens that its readers leave, Shorter, Fuel and Ends about its loops. Completion has the columns in
--   scope and what the editor offers of them. Maps are maps with texts as keys.
-- * Navigation (frontend/src/features/workspace/navigation.ts): the tree of data sources. Groups has
--   `buildDataSourceTreeGroups`, Search `buildNavigationTreeGroups`, Forms the form of a data source.
-- * Plugin (plugins/*/frontend/src/hostBridge.ts, of which that of password-util-plugin is read): the
--   bridge from a plugin to the client. `BridgeState` holds the pending requests and the calls that wait,
--   and `BridgeStep` is a call or a message.
-- * Types has the data (frontend/src/types.ts, frontend/src/features/workspace/types.ts and appTypes.ts),
--   and Base the lists, dictionaries and Boolean tests that all parts share.
--
-- The parts meet in the tabs: the operations of TableDomain are updates of one tab of a `TabsState`, the
-- rows of a data tab are those that Grid reads, and SQL texts stand in console tabs.
--
-- How the source is translated:
--
-- * Counts, offsets and limits are natural numbers, and subtraction stops at 0 where the source has
--   `Math.max(…, 0)`. A JavaScript number in a cell is the bit pattern of a double, with NaN and the two
--   zeros compared as `===` does. `last_offset` divides natural numbers and rounds up, where the source
--   takes `Math.ceil` of a quotient of doubles: they differ only near 2^53.
-- * `sort` is modelled where its comparison is an order. That of `sortProfiles` is none for ungrouped
--   profiles (`compare_profiles`), so that its result is up to the runtime, and it is left out.
-- * A JavaScript object is an association list in the order of insertion. That keys which look like
--   integers come first is not modelled, and neither are inherited properties such as `constructor`.
-- * `null` and `undefined` are `none`. The field `data` of a data tab is called `grid`.
-- * A client id, the current time, `Number(text)`, `toLowerCase` and the text of a number come from the
--   runtime: they are arguments of the definitions that use them.
-- * An update of React state is applied at once; what a function reads from the ref is as old as the last
--   `sync_tabs_ref`.
-- * The scanners of SQL texts work on lists of UTF-16 code units; an index is the text from there on. The
--   five flags of a scan, of which at most one is set, are one `Mode`, and `index += 1` inside a round is
--   a mark to skip the next character.
-- * `tokenize_from` has fuel for its rounds. Each round takes at least one character, and
--   `tokenize_sql` gives as much fuel as the text has characters, so that it never runs out.
-- * The loops of the analysis (`read_ctes`, `read_relations`, `relations_from`) have the number of their
--   tokens as fuel: each round passes over a token. `analyze_at` has the number of depths that are left;
--   the source stops at a depth above 4, so that the first call has 5.
-- * `wait_for_compare_task` is given the answers of the backend as a list; the wait between two polls is
--   not modelled.
--
-- Not modelled: the requests of the backend other than those named above, the log and the toasts, the
-- regular expressions that read the clause and the qualifier at the cursor, the dialogs of data sources,
-- the Redis and data transfer workspaces, the views, the desktop backend (desktop/src-tauri, in Rust), and
-- the parsing of cell texts, which is the runtime's.
pub mod Base
pub mod Types
pub mod Grid
pub mod Navigation
pub mod Plugin
pub mod Tabs
pub mod Sql
pub mod Compare
pub mod TableDomain
