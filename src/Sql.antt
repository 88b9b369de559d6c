-- ===== src/Sql.antt =====
-- frontend/src/SqlEditor.tsx: the lexical part of the SQL editor, and the SQL that the client
-- writes itself (features/workspace/appHelpers.ts).
-- A text is the list of its UTF-16 code units, as a JavaScript string is.
pub mod Text
pub mod Statement
pub mod Tokens
pub mod Maps
pub mod Analysis
pub mod Completion
mod Tests
