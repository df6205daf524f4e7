-- ===== src/Artifacts.antt =====
-- src/artifacts.rs: the delivery of artifacts, and which destinations it may reach. `reqwest::Url`
-- is the record of Config/Net; its origin, the parser of addresses, DNS and the HTTP client are
-- the interface `Network`.
pub mod Addresses
pub mod Public
pub mod Egress
pub mod Permitted
pub mod Delivery
pub mod Resolved
