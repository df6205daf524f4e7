-- ===== src/MetadataCache.antt =====
-- src/metadata_cache.rs.
pub mod State
pub mod Segments
pub mod Links
pub mod Invariant
pub mod Remove
pub mod Touch
pub mod Allocate
pub mod Insert
pub mod InsertLaws
pub mod Response
pub mod Store
pub mod StoreLaws
pub mod Fills
pub mod Flights
pub mod System
pub mod SystemLaws
pub mod Tests
pub mod Freshness
