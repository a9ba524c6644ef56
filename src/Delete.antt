-- ===== src/Delete.antt =====
-- pkg/delete/loader.go: the entries of a delete file.
pub mod Loader
pub mod Entries
pub mod Grouped
mod Tests
