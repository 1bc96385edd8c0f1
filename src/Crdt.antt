-- ===== src/Crdt.antt =====
-- The version-gated record store of internal/crdt.
pub mod Versions
pub mod Op
pub mod Nested
pub mod Merge
pub mod Apply
pub mod Lifecycle
pub mod Traces
pub mod Compact
pub mod Hooks
pub mod Sibling
pub mod Modifier
pub mod ApplySeq
pub mod Validate
pub mod Admission
pub mod Shape
pub mod SchemaHandler
pub mod Keys
pub mod Resolve
pub mod Store
pub mod Controller
pub mod Transaction
pub mod Stamping
pub mod Commit
pub mod ApplyChange
