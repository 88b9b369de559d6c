-- ===== src/Types.antt =====
-- The data of the workspace: frontend/src/types.ts, features/workspace/types.ts and appTypes.ts.
-- `null` and absent values are `Option`; counts and offsets are natural numbers.
pub mod Cells
pub mod Tabs
pub mod Remote
