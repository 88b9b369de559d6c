-- ===== src/Plugin.antt =====
-- The applications of the plugins: the part by which each of them talks to the client.
pub mod Bridge
mod Tests
