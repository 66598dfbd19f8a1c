-- ===== src/Blast.antt =====
-- internal/blast/blast.go: what depends on a resource that is changed or deleted. A Go map is an
-- association list; Go runs through a map in any order, here in the order of the list. A property's
-- value is of any type, printed by `%v`, which is a parameter.
pub mod Graph
pub mod Analyze
pub mod Visits
pub mod Impact
pub mod Edges
mod Tests
