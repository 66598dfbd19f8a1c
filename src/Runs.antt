-- ===== src/Runs.antt =====
-- Agent runs, internal/agentruns/store.go: `Types` has the records, `Changes` the closures that the
-- store's operations apply to one run, `Store` the store and its operations, `Summaries` the
-- listings, `Trace` sequences of operations; the other modules have the theorems.
pub mod Types
pub mod PatchPath
pub mod Gates
pub mod Changes
pub mod Trace
pub mod Effect
pub mod Map
pub mod Queue
pub mod Updates
pub mod History
pub mod Fresh
pub mod Terminal
pub mod Blank
pub mod Spent
pub mod Bounded
pub mod Summaries
pub mod Contract
pub mod Decided
pub mod Tests
pub mod Lifecycle
pub mod Store
