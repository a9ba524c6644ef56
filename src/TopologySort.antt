-- ===== src/TopologySort.antt =====
-- internal/topologysort/topologysort.go, and what the sort promises to its callers.
pub mod Defs
pub mod Counts
mod Relax
pub mod Invariant
mod Stopped
pub mod Termination
pub mod Order
pub mod Errors
mod Tests
