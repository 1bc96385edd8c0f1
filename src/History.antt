-- ===== src/History.antt =====
-- internal/history: the list of changes that a user sees of an object, and the differences of versions.
pub mod Coalesce
pub mod Diff
