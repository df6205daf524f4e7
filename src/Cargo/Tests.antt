-- ===== src/Cargo/Tests.antt =====
-- Runs of the sparse index of src/cargo.rs, and its theorems at concrete inputs.
use osv_proxy.Common.{
  ℕ, ◌≡◌, ◌↔◌, refl, true, some, none, List, [], ◌∷◌, ◌++◌, In, map, Text, codes, Result, ok, err,
  if◌then◌else◌, text_eq,
}
use osv_proxy.Artifact.{Artifact, crates_io}
use osv_proxy.Policy.Decisions.{Decision, DecisionReason, Scope, allowed_decision}
use osv_proxy.Policy.Tests.{std, config, scope}
use osv_proxy.Policy.{found, too_young_decision}
use osv_proxy.Policy.Batch.{listed, check_many_default, evaluate_each}
use osv_proxy.Policy.Batch.Agreement.{asked}
use osv_proxy.Cargo.Paths.{Outcome, invalid_crate_name, sparse_path, name_from_sparse_path}
use osv_proxy.Cargo.Index.{
  IndexRecord, index_entries, index_entry, index_response, apply_if_none_match, xor,
}
use osv_proxy.Cargo.Kept.{AllowedLine, index_response-retained}

places : sparse_path {F = ℕ} (codes "Serde") ≡ ok (codes "se/rd/serde")
unfolding sparse_path
places = refl

reads_place : name_from_sparse_path {F = ℕ} (codes "3/f/foo") ≡ ok (codes "foo")
unfolding name_from_sparse_path
reads_place = refl

refuses_place :
    name_from_sparse_path {F = ℕ} (codes "2/f/foo") ≡ err (invalid_crate_name (codes "2/f/foo"))
unfolding name_from_sparse_path
refuses_place = refl

xors : xor 64 12 10 ≡ 6
unfolding xor
xors = refl

abbrev parse_json : Text → Result Text IndexRecord
parse_json line =
    ok (record { name = codes "serde"; vers = line; cksum = codes "00"; pubtime = some line })

-- Version 1.0 is of the time 100, and the others of the time 300.
abbrev parse_rfc3339 : Text → Result Text ℕ
parse_rfc3339 value = ok (if text_eq value (codes "1.0") then 100 else 300)

abbrev fetch_index : Text → Outcome ℕ Text
fetch_index path = ok (codes "1.0\n\n2.0\n")

abbrev crate : Text → ℕ → Artifact
crate version published_at = record {
  ecosystem = crates_io;
  name = codes "serde";
  version = version;
  filename = some (codes "serde-" ++ (version ++ codes ".crate"));
  upstream_url = some (codes "/serde/serde-" ++ (version ++ codes ".crate"));
  published_at = some published_at;
  hashes = record { sha256 = some (codes "00"); sha512 = none; integrity = none };
}

abbrev entries : List (Text × Artifact)
entries = (codes "1.0", crate (codes "1.0") 100) ∷ (codes "2.0", crate (codes "2.0") 300) ∷ []

read : index_entries std config parse_json parse_rfc3339 fetch_index (codes "Serde") ≡ ok entries
unfolding index_entries osv_proxy.Artifact.normalize_name
read = refl

all_clean :
    check_many_default {F = ℕ} (λ a. found []) (asked std config (map (λ e. e.1) entries))
    ≡ listed (map (λ a. []) (asked std config (map (λ e. e.1) entries)))
unfolding check_many_default osv_proxy.Policy.Batch.indexed_artifacts
    osv_proxy.Policy.Batch.enumerate osv_proxy.Policy.should_check_osv
    osv_proxy.Policy.find_allowlist_entry
all_clean = refl

abbrev decisions : List (Decision ℕ)
decisions =
    allowed_decision DecisionReason.is_allowed (crate (codes "1.0") 100)
      (codes "Package version is allowed")
    ∷ too_young_decision std config (crate (codes "2.0") 300) 400
    ∷ []

abbrev until_eligible : Scope
until_eligible = some (record { valid_until = some 400; cacheable = true })

decided :
    evaluate_each std config (λ a. found []) 350 (map (λ e. e.1) entries) scope
    ≡ some (decisions, until_eligible)
unfolding evaluate_each osv_proxy.Policy.evaluate osv_proxy.Policy.should_check_osv
    osv_proxy.Policy.find_allowlist_entry osv_proxy.Policy.hits_gate
    osv_proxy.Policy.Hits.blocking_malicious_hit osv_proxy.Common.min_by
    osv_proxy.Policy.Hits.blocking_vulnerability_hit osv_proxy.Policy.Hits.unevaluated_hit
    osv_proxy.Policy.find_blocklist_entry osv_proxy.Policy.Decisions.record_cache_valid_until
decided = refl

index_response-retained_example :
    (retained : List Text) × (index_response std config parse_json parse_rfc3339 fetch_index
        (check_many_default (λ a. found []))
        (codes "Serde")
        350
        scope
      ≡ some (ok (index_entry retained), until_eligible))
    × ((line : Text)
        → In line retained ↔ AllowedLine line (codes "1.0" ∷ codes "2.0" ∷ []) decisions)
index_response-retained_example =
    index_response-retained std config parse_json parse_rfc3339 fetch_index
      (check_many_default (λ a. found [])) (λ a. []) (codes "Serde") 350 scope until_eligible
      entries decisions read all_clean decided

not_modified : (apply_if_none_match (index_entry []) (some (codes "\"x\", *"))).status ≡ 304
unfolding apply_if_none_match index_entry
not_modified = refl
