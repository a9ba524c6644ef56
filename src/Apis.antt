-- ===== src/Apis.antt =====
-- pkg/api/apis.go: the table of the APIs and its filters.
pub mod Filters
mod Tests
