-- ===== src/Account.antt =====
-- pkg/account: the account resources, their files, and loading them.
pub mod Types
pub mod Resources
pub mod Checks
pub mod Validate
pub mod Valid
pub mod References
pub mod Closed
pub mod Transform
pub mod Load
pub mod Transformed
pub mod NoPanic
pub mod Loaded
pub mod Merge
mod Tests
