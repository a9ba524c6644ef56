-- ===== src/ProjectLoader.antt =====
-- pkg/project/project_loader.go: how projects are loaded.
pub mod Defs
pub mod Identifiers
pub mod Dependencies
pub mod Load
pub mod Marks
pub mod ConfigMap
pub mod LoadProject
pub mod Filed
pub mod Loaded
pub mod Termination
pub mod Reached
pub mod Closed
mod Tests
