-- ===== src/Validation.antt =====
-- pkg/deploy/internal/validate and its validators: what is checked before a deployment.
pub mod Setting
pub mod SameScope
pub mod Classic
pub mod UniqueNames
pub mod Validate
pub mod Accepted
mod Tests
