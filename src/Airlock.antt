-- ===== src/Airlock.antt =====
-- The tool firewall, internal/mcpairlock/tools.go: `Types` has the records, `Allow` the allowlist,
-- `Firewall` the decision on a tool, `Inventory` the discovered tools, `Evaluation` the decision on
-- one of them; `Verdict`, `Removal` and `Discovery` have the theorems, `Tests` concrete tools.
pub mod Types
pub mod Allow
pub mod Firewall
pub mod Inventory
pub mod Evaluation
pub mod Verdict
pub mod Removal
pub mod Discovery
pub mod Tests
