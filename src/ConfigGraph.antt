-- ===== src/ConfigGraph.antt =====
-- pkg/graph/graph.go: the dependency graph of the configurations of an environment.
pub mod Builder
pub mod Defs
pub mod Nodes
pub mod Last
pub mod Edges
pub mod Positions
pub mod Built
pub mod Finite
pub mod Order
pub mod Sorted
pub mod Deployed
mod Tests
