-- ===== src/Osv/Checker.antt =====
-- Of src/malicious.rs: `SqliteMaliciousChecker` on an open connection. What SQLite answers to the
-- queries is the interface `Connection`; the time and the reading of timestamps are arguments.
pub mod Health
mod Tests
use osv_proxy.Common.{
  ℕ, ◌-◌, Bool, true, false, not, ◌&&◌, ◌||◌, ◌==◌, ltb, Option, none, some, List, [], ◌∷◌, ◌++◌,
  map, if◌then◌else◌, Text, codes, text_eq,
}
use osv_proxy.Platform.{Platform}
use osv_proxy.Artifact.{Artifact, osv_name, Ecosystem, go}
use osv_proxy.Config.{LocalOsvConfig, LocalOsvStaleBehavior}
use osv_proxy.Finding.{OsvFinding}
use osv_proxy.Policy.{Checked, found, failed}
use osv_proxy.Osv.{Evaluated, ok, err, ◌>>=◌, OsvError, local_store}
use osv_proxy.Osv.Findings.{consolidate_local_findings}
use osv_proxy.Osv.Versions.{StoredRange}
use osv_proxy.Go.Escape.{GoError, osv_version}
use osv_proxy.Common.Results

pub record SqliteMaliciousChecker : Type 0 where
  pub max_staleness : ℕ
  pub on_stale : LocalOsvStaleBehavior
  pub require_full_dataset : Bool

-- `with_vulnerability_policy`; the path of the store is what the connection is opened by.
unfoldable pub with_vulnerability_policy : LocalOsvConfig → Bool → SqliteMaliciousChecker
with_vulnerability_policy config require_full_dataset = record {
  max_staleness = config.max_staleness;
  on_stale = config.on_stale;
  require_full_dataset = require_full_dataset;
}

-- The row of an ecosystem's active generation.
pub record SyncState : Type 0 where
  pub last_success_at : Option Text
  pub status : Text
  pub dataset_version : Option ℕ

pub record Connection (F : Type 0) : Type 0 where
  -- The query of `ensure_store_healthy`.
  pub sync_state : Text → Evaluated (Option SyncState)
  -- The rows of `exact_hits` for an ecosystem, a name and a version.
  pub exact_rows : Text → Text → Text → Evaluated (List (OsvFinding F))
  -- `stored_ranges` for an ecosystem and a name.
  pub stored_ranges : Text → Text → Evaluated (List (StoredRange F))
  pub parse_timestamp : Text → Evaluated ℕ

-- `osv_query_version`.
abbrev version_or : Text → Results.Result GoError Text → Text
version_or version (Results.ok v) = v
version_or version (Results.err e) = version

unfoldable pub osv_query_version : Artifact → Text
unfolding osv_version
osv_query_version artifact = elim artifact.ecosystem [
  | go ↦ version_or artifact.version (osv_version artifact.version)
  | _ ↦ artifact.version
]

abbrev pub is_one : Option ℕ → Bool
is_one none = false
is_one (some n) = n == 1

abbrev pub blocks_stale : LocalOsvStaleBehavior → Bool
blocks_stale LocalOsvStaleBehavior.block = true
blocks_stale LocalOsvStaleBehavior.allow = false

abbrev pub refuse_if : Bool → Text → Evaluated (Unit {0})
refuse_if true message = err (local_store message)
refuse_if false message = ok tt

abbrev pub row_of : Text → Option SyncState → Evaluated SyncState
row_of ecosystem none =
    err (local_store (codes "missing sync_state row for ecosystem " ++ ecosystem))
row_of ecosystem (some state) = ok state

abbrev pub success_of : Text → Option Text → Evaluated Text
success_of ecosystem none = err (
    local_store
      (codes "sync_state for ecosystem " ++ (ecosystem ++ codes " is missing last_success_at")))
success_of ecosystem (some t) = ok t

module _ {F : Type 0} (connection : Connection F) (checker : SqliteMaliciousChecker) (now : ℕ) where
  -- From the age of the data on.
  unfoldable pub check_age : Text → ℕ → Evaluated (Unit {0})
  check_age ecosystem last_success_at = do
    _ ←
        refuse_if (ltb now last_success_at) (
          codes "sync_state for ecosystem " ++ (ecosystem ++ codes " has a future last_success_at"))
    refuse_if (ltb checker.max_staleness (now - last_success_at) && blocks_stale checker.on_stale)
        (codes "local malicious data for ecosystem " ++ (ecosystem ++ codes " is stale"))

  unfoldable pub check_state : Text → SyncState → Evaluated (Unit {0})
  unfolding check_age text_eq
  check_state ecosystem state = do
    _ ←
        refuse_if (not (text_eq state.status (codes "healthy")))
          (codes "sync_state for ecosystem " ++ (ecosystem ++ (codes " is " ++ state.status)))
    _ ← refuse_if (checker.require_full_dataset && not (is_one state.dataset_version)) (
        codes "local OSV dataset for ecosystem "
        ++ (ecosystem ++ codes " is malicious-only or incomplete"))
    text ← success_of ecosystem state.last_success_at
    last_success_at ← connection.parse_timestamp text
    check_age ecosystem last_success_at

  unfoldable pub ensure_store_healthy : Text → Evaluated (Unit {0})
  unfolding check_state
  ensure_store_healthy ecosystem = do
    row ← connection.sync_state ecosystem
    state ← row_of ecosystem row
    check_state ecosystem state

module _ {F : Type 0} (std : Platform F) (matches : Artifact → StoredRange F → Evaluated Bool)
    (connection : Connection F) (checker : SqliteMaliciousChecker) (now : ℕ) where
  unfoldable pub exact_hits : Artifact → Evaluated (List (OsvFinding F))
  unfolding osv_query_version consolidate_local_findings
  exact_hits artifact = do
    rows ←
        connection.exact_rows (osv_name artifact.ecosystem) artifact.name
          (osv_query_version artifact)
    ok (consolidate_local_findings std rows)

  -- The advisories of the ranges that match, in order.
  unfoldable pub matching_ranges : Artifact → List (StoredRange F) → Evaluated (List (OsvFinding F))
  matching_ranges artifact [] = ok []
  matching_ranges artifact (range ∷ ranges) = do
    matched ← matches artifact range
    hits ← matching_ranges artifact ranges
    ok (if matched then range.advisory ∷ hits else hits)

  unfoldable pub range_hits : Artifact → Evaluated (List (OsvFinding F))
  unfolding matching_ranges consolidate_local_findings
  range_hits artifact = do
    ranges ← connection.stored_ranges (osv_name artifact.ecosystem) artifact.name
    hits ← matching_ranges artifact ranges
    ok (consolidate_local_findings std hits)

  unfoldable pub check_with_connection : Artifact → Evaluated (List (OsvFinding F))
  unfolding ensure_store_healthy exact_hits range_hits consolidate_local_findings
  check_with_connection artifact = do
    _ ← ensure_store_healthy connection checker now (osv_name artifact.ecosystem)
    exact ← exact_hits artifact
    ranged ← range_hits artifact
    ok (consolidate_local_findings std (exact ++ ranged))

  -- The answer that the policy gets: an error as its text.
  abbrev pub to_checked : (OsvError → Text) → Evaluated (List (OsvFinding F)) → Checked F
  to_checked show (ok hits) = found hits
  to_checked show (err e) = failed (show e)

-- `OsvEcosystemReadiness`, and what `readiness` reports of an ecosystem.
pub record OsvEcosystemReadiness : Type 0 where
  pub ecosystem : Text
  pub ready : Bool
  pub message : Option OsvError

abbrev readiness_of : Text → Evaluated (Unit {0}) → OsvEcosystemReadiness
readiness_of name (ok u) = record { ecosystem = name; ready = true; message = none }
readiness_of name (err e) = record { ecosystem = name; ready = false; message = some e }

unfoldable pub readiness :
    {F : Type 0}
    → Evaluated (Connection F)
    → SqliteMaliciousChecker
    → ℕ
    → List Ecosystem
    → List OsvEcosystemReadiness
unfolding ensure_store_healthy
readiness (err e) checker now ecosystems = map (λ x. readiness_of (osv_name x) (err e)) ecosystems
readiness (ok connection) checker now ecosystems =
    map (λ x. readiness_of (osv_name x) (ensure_store_healthy connection checker now (osv_name x)))
      ecosystems
