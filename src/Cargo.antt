-- ===== src/Cargo.antt =====
-- src/cargo.rs: the sparse index and the delivery of crates. The index, serde_json, the parser of
-- timestamps and the delivery are parameters; an error of a library is its text. The bytes of a text
-- are ASCII where the source cuts them.
pub mod Paths
pub mod Index
pub mod Kept
mod Tests
