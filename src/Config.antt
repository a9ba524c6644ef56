-- ===== src/Config.antt =====
-- pkg/config: coordinates, parameters and how the parameters of a configuration are resolved.
pub mod Coordinate
pub mod CoordinateMap
pub mod Parameter
pub mod Reference
pub mod Serde
pub mod ListRoundTrip
pub mod FileParameter
pub mod Entities
pub mod Properties
pub mod Model
pub mod Sort
pub mod Picking
pub mod SortOrder
pub mod SortTotal
pub mod Resolve
pub mod Resolved
mod Tests
