-- ===== src/Ids.antt =====
-- internal/idutils: the identifiers that are derived from coordinates and from object ids.
pub mod Bits
pub mod NumericId
pub mod VarInt
pub mod Zigzag
pub mod BucketName
pub mod Sanitized
pub mod ExternalId
mod Tests
