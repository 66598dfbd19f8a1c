-- ===== src/Plans.antt =====
-- Plans of infrastructure changes: internal/plan, and the gate of internal/api that ties an apply to
-- one plan.
pub mod Change
pub mod Parse
pub mod Counts
pub mod Classify
pub mod Gate
