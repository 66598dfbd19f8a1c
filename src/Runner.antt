-- ===== src/Runner.antt =====
-- internal/runner: how the commands of a project are built, which environment they get, what is kept
-- of their output and which of them need an approval. The process itself is not modelled.
pub mod Environment
pub mod Cutting
pub mod Merging
pub mod Scoped
pub mod Ambient
pub mod Fallback
pub mod Output
pub mod Commands
pub mod Approval
mod Tests
