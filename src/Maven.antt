-- ===== src/Maven.antt =====
-- src/maven.rs: coordinates, the paths of release files, and the order of versions.
pub mod Errors
pub mod Version
pub mod Coordinates
pub use Errors.{MavenError, Outcome}
