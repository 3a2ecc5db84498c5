-- ===== src/Serializer.antt =====
-- The binary serializer: include/serializer.
pub mod Shape
pub mod Number
pub mod Writer
pub mod Reader
pub mod Wire
pub mod Takes
pub mod RoundTrip
pub mod Portable
pub mod Short
mod Tests
