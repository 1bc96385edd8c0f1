-- ===== src/Tests.antt =====
-- Concrete documents, and the theorems applied at them.
mod Json
mod Records
mod Writes
mod Windows
mod Feeds
mod Passes
mod Diffs
mod Controllers
mod Events
mod Schemas
mod Declarations
