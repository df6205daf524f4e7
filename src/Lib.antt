-- ===== src/Lib.antt =====
-- osv-proxy: a proxy in front of package registries that blocks artifacts which are malicious,
-- vulnerable, forbidden or too young. This library models its decisions and its cache of
-- metadata.
--
-- The parts, and where they are modelled:
-- - Common: texts (lists of code points), lists, decimal numbers, `min_by`, association lists.
-- - Platform: what the program takes from `f64`, Unicode and chrono, as a record of operations.
-- - Artifact (src/artifact.rs): ecosystems, identities, normal forms of names (Artifact/Names)
--   and of NuGet versions (Artifact/Nuget).
-- - Config (src/config.rs): the configuration, `validate` (Config/Validate, Config/Addresses),
--   what it takes from `reqwest::Url` and `std::net` (Config/Net), and what it accepts
--   (Config/Hosts, Config/Places, Config/Urls, Config/Entries, Config/Validity).
-- - Finding (src/malicious.rs): what the policy reads of an OSV finding.
-- - Policy (src/policy.rs): `PolicyEngine`. `evaluate_with_malicious_result` is cut at its early
--   returns: `osv_gate`, `blocklist_gate`, `age_gate`, `final_decision`. The task-local
--   `CACHE_METADATA` is the state `Scope`. Policy/Hits chooses the finding that blocks;
--   Policy/HitLaws, Policy/Gates, Policy/Admission, Policy/Precedence, Policy/Panics,
--   Policy/CacheValidity and Policy/CacheMetadata are about the decisions.
-- - MetadataCache (src/metadata_cache.rs): `CacheState` in MetadataCache/State, with the slab of
--   nodes and its doubly linked list; keys and responses in MetadataCache/Response; `lookup`,
--   `complete`, `abandon` and `expiration` in MetadataCache/Store. MetadataCache/Segments, Links
--   and Invariant say when a state holds a list of cells, from the least to the most recently
--   used, and the modules after them that each operation refines its operation on lists.
--   MetadataCache/System has the steps of any number of requests.
-- - HttpBody (src/http_body.rs): bodies collected up to a limit.
-- - Osv (src/malicious.rs): the evaluation of the events of a version range; the order of
--   versions is an argument, as it is there. Osv/Versions chooses that order by the ecosystem,
--   Osv/Findings has the severity of an advisory and the consolidation of findings, and
--   Osv/Checker the health of the store and the check of an artifact, over SQLite's answers as
--   the interface `Connection`.
-- - Retry (src/server.rs, and the report of src/malicious.rs): the rounds of the background sync
--   and their delays.
-- - RubyGems (src/rubygems.rs): the versions of gems and their order, and the check of names.
-- - Policy/Batch (src/maven.rs, src/cargo.rs, src/go.rs, src/malicious.rs):
--   `evaluate_artifacts`, many artifacts with one question to the OSV database.
-- - Response (src/response.rs): `RegistryResponse`.
-- - Go (src/go.rs): the escapes of module paths (Go/Escape), `parse_route` (Go/Routes),
--   `filtered_infos`, and `route_response` (Go/Responses) over the interface `GoProxyProvider`.
-- - Maven (src/maven.rs): the order of versions (Maven/Version), coordinates and the paths of
--   release files (Maven/Coordinates).
-- - Runtime (src/runtime.rs): the acquisition of permits for upstream requests, and the flag of
--   overloaded requests (Runtime/Overload).
-- - Artifacts (src/artifacts.rs): the addresses that are not public (Artifacts/Addresses), with
--   the blocks of addresses for special purposes as their description (Artifacts/Public),
--   `ArtifactEgressPolicy` and `SafeResolver` (Artifacts/Egress, Artifacts/Permitted,
--   Artifacts/Resolved), `deliver` and `deliver_head` (Artifacts/Delivery).
-- - Cargo (src/cargo.rs): the paths of the sparse index (Cargo/Paths), its records and responses
--   and the delivery of a crate (Cargo/Index).
-- - Startup: what an accepted configuration guarantees to the policy and to the cache.
--
-- The policy takes a configuration, an artifact, a time, the answer of the OSV check and the
-- scope; the server asks it for each artifact and runs the metadata cache's fills in a scope of
-- `capture_cache_metadata`, whose `valid_until` bounds the expiry of a stored page.
--
-- Bounds and fuel: `none` as the result of a step is a panic. The eviction loop of `insert` has
-- as many rounds as the slab has slots, and one more: each round frees a slot. `usize` is 64
-- bits. A number of 64 bits has at most 20 digits, the fuel of `show_u64`. A `Duration` and a
-- time are numbers of nanoseconds; an addition beyond the last time is a panic.
--
-- Not modelled: the registries' clients, their rewriting of metadata but for Go's version lists
-- and Cargo's index, the queries of the SQLite store, its check of many artifacts at once and
-- its sync, the server's routes, streaming, the semaphores of the runtime's budgets and the
-- admission of requests by them, and the command line. They are I/O and calls of libraries for
-- the most part. A `HashMap` is an association list. In the metadata cache, a step is one call
-- under its lock; waking the waiters and the semaphore of fills are tokio's. The concurrent
-- requests of Go's version list end in an order that is a parameter, and how a wait for a permit
-- ends is one too.
pub mod Common
pub mod Platform
pub mod Artifact
pub mod Config
pub mod Finding
pub mod Policy
pub mod MetadataCache
pub mod Startup
pub mod HttpBody
pub mod Osv
pub mod Retry
pub mod RubyGems
pub mod Response
pub mod Go
pub mod Maven
pub mod Runtime
pub mod Artifacts
pub mod Cargo
