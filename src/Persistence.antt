-- ===== src/Persistence.antt =====
-- pkg/config/internal/persistence: the type of a configuration in its file.
pub mod TypeDefinition
pub mod RoundTrip
pub mod Checked
mod Tests
