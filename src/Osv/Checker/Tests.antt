-- ===== src/Osv/Checker/Tests.antt =====
-- Runs of the checker of src/malicious.rs, and its theorems at concrete inputs.
use osv_proxy.Common.{
  ℕ, ◌≡◌, ◌↔◌, refl, Bool, true, false, arith, Option, none, some, [], Text, codes, text_eq,
  if◌then◌else◌,
}
use osv_proxy.Artifact.{Artifact, osv_name}
use osv_proxy.Policy.Decisions.{Decision, fresh_metadata}
use osv_proxy.Policy.Tests.{std, config, left_pad}
use osv_proxy.Policy.{should_check_osv, evaluate, find_allowlist_entry}
use osv_proxy.Osv.{Evaluated, ok, err, OsvError, local_store}
use osv_proxy.Osv.Versions.{StoredRange}
use osv_proxy.Osv.Checker.{
  Connection, SqliteMaliciousChecker, SyncState, with_vulnerability_policy, ensure_store_healthy,
  check_with_connection, to_checked,
}
use osv_proxy.Osv.Checker.Health.{IsHealthy, ensure_store_healthy_iff, unhealthy_blocks}

abbrev checker : SqliteMaliciousChecker
checker = with_vulnerability_policy config.policy.osv.local true

-- A store that has synced npm at the time 1000.
abbrev row : Text → Option SyncState
row ecosystem =
    if text_eq ecosystem (codes "npm")
    then some (record {
      last_success_at = some (codes "t");
      status = codes "healthy";
      dataset_version = some 1;
    })
    else none

abbrev connection : Connection ℕ
connection = record {
  sync_state = λ ecosystem. ok (row ecosystem);
  exact_rows = λ ecosystem name version. ok [];
  stored_ranges = λ ecosystem name. ok [];
  parse_timestamp = λ text. ok 1000;
}

abbrev matches : Artifact → StoredRange ℕ → Evaluated Bool
matches artifact range = ok true

finds_nothing : check_with_connection std matches connection checker 2000 left_pad ≡ ok []
unfolding check_with_connection osv_name with_vulnerability_policy
finds_nothing = refl

refuses_the_future :
    ensure_store_healthy connection checker 999 (codes "npm")
    ≡ err (local_store (codes "sync_state for ecosystem npm has a future last_success_at"))
unfolding ensure_store_healthy with_vulnerability_policy
refuses_the_future = refl

ensure_store_healthy_iff_example :
    (ensure_store_healthy connection checker 2000 (codes "npm") ≡ ok tt)
    ↔ IsHealthy connection checker 2000 (codes "npm")
ensure_store_healthy_iff_example = ensure_store_healthy_iff connection checker 2000 (codes "npm")

abbrev show : OsvError → Text
show e = codes "store"

unhealthy : ¬ IsHealthy connection checker 999 (osv_name left_pad.ecosystem)
unhealthy (state, text, synced_at, e, (healthy, full, some_text, parsed, past, fresh)) =
    let same : 1000 ≡ synced_at = cc in omega (arith, same, past)

checks : should_check_osv std config left_pad ≡ true
unfolding should_check_osv find_allowlist_entry
checks = refl

unhealthy_blocks_example :
    (d : Decision ℕ) × (evaluate std config
        (λ a.
          to_checked std matches connection checker 999 show
            (check_with_connection std matches connection checker 999 a))
        left_pad
        250
        (some fresh_metadata)
      ≡ some (d, some (record fresh_metadata { cacheable = false })))
    × (d.allowed ≡ false)
unhealthy_blocks_example =
    unhealthy_blocks std matches connection checker 999 config show left_pad 250 fresh_metadata
      unhealthy checks refl
