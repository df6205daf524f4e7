-- ===== src/Policy/Tests.antt =====
-- Runs of the policy engine of src/policy.rs, and its theorems at concrete inputs.
use osv_proxy.Common.{
  ℕ, ◌≡◌, ◌≢◌, refl, true, false, Option, none, some, [], ◌∷◌, arith, inl, inr, codes, In, ◌↔◌,
  Ordering, ltb, if◌then◌else◌, ascii_lowercase, text_eq, starts_with, min_by,
}
use osv_proxy.Platform.{Platform}
use osv_proxy.Artifact.{Artifact, npm, ecosystem_eq, normalize_name}
use osv_proxy.Config.{
  Config, OsvErrorBehavior, MissingPublishTime, LocalOsvStaleBehavior, ArtifactBehavior,
  allowlist_name,
}
use osv_proxy.Finding.{OsvFinding}
use osv_proxy.Policy.Decisions.{
  Decision, DecisionReason, Scope, PolicyCacheMetadata, fresh_metadata, record_cache_valid_until,
}
use osv_proxy.Policy.Hits.{
  is_malicious_id, by_id, blocking_malicious_hit, blocking_vulnerability_hit, unevaluated_hit,
}
use osv_proxy.Policy.Gates.{Admits}
use osv_proxy.Policy.Admission.{HasClock, evaluate-allows_iff}
use osv_proxy.Policy.CacheValidity.{evaluate_stable}
use osv_proxy.Policy.CacheMetadata.{evaluate-Tracks, Tracks, StaysCacheable}
use osv_proxy.Policy.Precedence.{malicious_first, failure_blocks}
use osv_proxy.Policy.Panics.{ReachesAge, evaluate-panics_iff}
use osv_proxy.Policy.{
  too_young_decision, Checked, found, failed, should_check_osv, evaluate_with_malicious_result,
  find_allowlist_entry, find_blocklist_entry, osv_gate, hits_gate,
}

abbrev order : ℕ → ℕ → Ordering
order a b = if ltb a b then Ordering.lt else if ltb b a then Ordering.gt else Ordering.eq

-- Scores in tenths.
abbrev pub std : Platform ℕ
std = record {
  lowercase = λ c. ascii_lowercase (c ∷ []);
  partial_cmp = λ a b. some (order a b);
  zero_score = 0;
  ten_score = 100;
  is_finite = λ a. true;
  show_score = λ a. codes "5.0";
  max_time = 1000;
  show_time = λ t. codes "later";
  max_delta = 900;
}

abbrev pub config : Config ℕ
config = record {
  server = record {
    bind = codes "127.0.0.1:8080";
    public_base_url = codes "http://localhost:8080";
  };
  limits = record {
    ingress_requests = 8;
    egress_requests = 4;
    background_sync_requests = 1;
    queue_timeout = 5;
  };
  metadata_cache = record {
    enabled = true;
    capacity_bytes = 100;
    max_entry_bytes = 64;
    ttl = 30;
    fill_concurrency = 4;
  };
  upstreams = record {
    npm_registry_url = [];
    pypi_simple_url = [];
    go_proxy_url = [];
    cargo_sparse_index_url = [];
    cargo_download_url = [];
    nuget_service_index_url = [];
    rubygems_registry_url = [];
    maven_repository_url = [];
  };
  policy = record {
    minimum_age = 100;
    missing_publish_time = MissingPublishTime.block;
    osv = record {
      block_malicious = true;
      block_vulnerabilities = true;
      minimum_cvss_score = 70;
      on_error = OsvErrorBehavior.block;
      local = record {
        sqlite_path = codes "osv.sqlite";
        max_staleness = 100000000000;
        on_stale = LocalOsvStaleBehavior.block;
        retain_raw_advisories = false;
        background_sync = true;
        sync_interval = 3600000000000;
      };
    };
  };
  artifacts = record { behavior = ArtifactBehavior.redirect; trusted_origins = [] };
  allowlist = [];
  blocklist = [];
}

abbrev pub left_pad : Artifact
left_pad = record {
  ecosystem = npm;
  name = codes "left-pad";
  version = codes "1.3.0";
  filename = none;
  upstream_url = none;
  published_at = some 200;
  hashes = record { sha256 = none; sha512 = none; integrity = none };
}

abbrev malicious_finding : OsvFinding ℕ
malicious_finding = record {
  osv_id = codes "MAL-2024-1";
  summary = none;
  source = codes "osv";
  modified = none;
  effective_severity = none;
  evaluation_error = none;
}

abbrev pub clean : Option (Checked ℕ)
clean = some (found [])

abbrev pub scope : Scope
scope = some fresh_metadata

abbrev until_eligible : PolicyCacheMetadata
until_eligible = record { valid_until = some 300; cacheable = true }

abbrev too_young : Decision ℕ
too_young = too_young_decision std config left_pad 300

checks_osv : should_check_osv std config left_pad ≡ true
unfolding should_check_osv find_allowlist_entry
checks_osv = refl

young :
    evaluate_with_malicious_result std config left_pad 250 clean scope
    ≡ some (too_young, some until_eligible)
unfolding evaluate_with_malicious_result should_check_osv find_allowlist_entry hits_gate
    blocking_malicious_hit min_by blocking_vulnerability_hit unevaluated_hit find_blocklist_entry
    record_cache_valid_until
young = refl

evaluate-allows_iff_example :
    (d : Decision ℕ) × (scope' : Scope) × (evaluate_with_malicious_result std config left_pad 250
        clean scope
      ≡ some (d, scope'))
    × ((d.allowed ≡ true) ↔ Admits std config left_pad 250 clean)
evaluate-allows_iff_example =
    evaluate-allows_iff std config left_pad 250 clean scope (omega arith, omega arith)

evaluate_stable_example :
    evaluate_with_malicious_result std config left_pad 280 clean scope
    ≡ some (too_young, some until_eligible)
evaluate_stable_example =
    evaluate_stable std config left_pad 250 280 clean scope too_young (some until_eligible) young
      (omega arith) (omega arith)

evaluate-Tracks_example :
    (m : PolicyCacheMetadata) × (some until_eligible ≡ some m)
    × Tracks std config left_pad fresh_metadata too_young.eligible_at m
    × StaysCacheable std config left_pad true clean m.cacheable
evaluate-Tracks_example =
    evaluate-Tracks std config left_pad 250 clean fresh_metadata too_young (some until_eligible)
      young

finding_is_malicious : is_malicious_id malicious_finding ≡ true
unfolding is_malicious_id starts_with
finding_is_malicious = refl

malicious_first_example :
    (d : Decision ℕ) × (m : OsvFinding ℕ) × (evaluate_with_malicious_result std config left_pad 250
        (some (found (malicious_finding ∷ [])))
        scope
      ≡ some (d, scope))
    × (d.allowed ≡ false)
    × (d.reason ≡ DecisionReason.malicious)
    × (d.rule_id ≡ some m.osv_id)
    × In m (malicious_finding ∷ [])
    × (is_malicious_id m ≡ true)
    × ((k : OsvFinding ℕ)
        → In k (malicious_finding ∷ [])
        → is_malicious_id k ≡ true
        → by_id m k ≢ Ordering.gt)
malicious_first_example =
    malicious_first std config left_pad 250 (malicious_finding ∷ []) scope malicious_finding
      checks_osv refl (inl refl) finding_is_malicious

failure_blocks_example :
    (d : Decision ℕ) × (evaluate_with_malicious_result std config left_pad 250
        (some (failed (codes "timeout")))
        scope
      ≡ some (d, some (record { valid_until = none; cacheable = false })))
    × (d.allowed ≡ false)
    × (d.source ≡ some (codes "osv"))
    × ((d.reason ≡ DecisionReason.malicious) ↔ (true ≡ true))
    × ((d.reason ≡ DecisionReason.vulnerable) ↔ (true ≡ false))
failure_blocks_example =
    failure_blocks std config left_pad 250 (some (failed (codes "timeout"))) fresh_metadata
      checks_osv refl (inr (codes "timeout", refl))

-- An artifact from the end of the times that chrono represents.
abbrev last_day : Artifact
last_day = record left_pad { published_at = some 950 }

last_day_panics : evaluate_with_malicious_result std config last_day 990 clean scope ≡ none
unfolding evaluate_with_malicious_result osv_gate should_check_osv find_allowlist_entry hits_gate
    blocking_malicious_hit min_by blocking_vulnerability_hit unevaluated_hit find_blocklist_entry
last_day_panics = refl

evaluate-panics_iff_example :
    (evaluate_with_malicious_result std config last_day 990 clean scope ≡ none)
    ↔ (ReachesAge std config last_day clean × ¬ HasClock std config last_day (some 950))
evaluate-panics_iff_example = evaluate-panics_iff std config last_day 990 clean scope

abbrev trusting : Config ℕ
trusting = record config {
  allowlist =
      record {
        ecosystem = npm;
        name = codes "left-pad";
        version = codes "1.3.0";
        bypass_age_gate = false;
        bypass_osv = true;
        reason = codes "vetted";
      }
      ∷ [];
}

trusted : should_check_osv std trusting left_pad ≡ false
unfolding should_check_osv find_allowlist_entry ecosystem_eq text_eq allowlist_name normalize_name
trusted = refl
