-- ===== src/Policy/Decisions.antt =====
-- `Decision`, `DecisionReason` and `PolicyCacheMetadata` of src/policy.rs.
use osv_proxy.Common.{ℕ, Bool, true, false, Option, none, some, ltb, if◌then◌else◌, Text}
use osv_proxy.Artifact.{Artifact, identity}

pub data DecisionReason : Type 0 where
  is_allowed allowlisted too_young malicious vulnerable manually_blocked : DecisionReason
  missing_publish_time unknown : DecisionReason

pub record Decision (F : Type 0) : Type 0 where
  pub allowed : Bool
  pub reason : DecisionReason
  pub package_name : Text
  pub message : Text
  pub rule_id : Option Text
  pub source : Option Text
  pub published_at : Option ℕ
  pub eligible_at : Option ℕ
  pub cvss_score : Option F

unfoldable pub allowed_decision : {F : Type 0} → DecisionReason → Artifact → Text → Decision F
allowed_decision reason artifact message = record {
  allowed = true;
  reason = reason;
  package_name = identity artifact;
  message = message;
  rule_id = none;
  source = none;
  published_at = artifact.published_at;
  eligible_at = none;
  cvss_score = none;
}

unfoldable pub blocked_decision :
    {F : Type 0}
    → DecisionReason
    → Artifact
    → Text
    → Option Text
    → Option Text
    → Option ℕ
    → Decision F
blocked_decision reason artifact message rule_id source eligible_at = record {
  allowed = false;
  reason = reason;
  package_name = identity artifact;
  message = message;
  rule_id = rule_id;
  source = source;
  published_at = artifact.published_at;
  eligible_at = eligible_at;
  cvss_score = none;
}

pub record PolicyCacheMetadata : Type 0 where
  pub valid_until : Option ℕ
  pub cacheable : Bool

-- `PolicyCacheMetadata::default()`.
abbrev pub fresh_metadata : PolicyCacheMetadata
fresh_metadata = record { valid_until = none; cacheable = true }

-- The task-local `CACHE_METADATA`: `none` outside every scope, where `try_with` does nothing.
abbrev pub Scope : Type 0
Scope = Option PolicyCacheMetadata

abbrev earliest : Option ℕ → ℕ → ℕ
earliest none valid_until = valid_until
earliest (some current) valid_until = if ltb valid_until current then valid_until else current

unfoldable pub record_cache_valid_until : ℕ → Scope → Scope
record_cache_valid_until valid_until none = none
record_cache_valid_until valid_until (some m) =
    some (record m { valid_until = some (earliest m.valid_until valid_until) })

unfoldable pub mark_policy_result_uncacheable : Scope → Scope
mark_policy_result_uncacheable none = none
mark_policy_result_uncacheable (some m) = some (record m { cacheable = false })
