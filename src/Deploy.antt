-- ===== src/Deploy.antt =====
-- pkg/deploy/deploy.go: deploying the configurations of a dependency graph.
pub mod Graph
pub mod Node
pub mod Loop
pub mod Removal
pub mod RemoveChildren
pub mod Invariant
pub mod Handled
pub mod OneNode
pub mod Rounds
pub mod Schedule
pub mod Deployed
pub mod Finite
mod Tests
