-- ===== src/Policy.antt =====
-- src/policy.rs: the policy engine. The task-local cache metadata is the state `Scope`, passed from
-- step to step; `none` as a result is a panic. `evaluate` awaits the checker, the function `check`.
pub mod Decisions
pub mod Hits
mod HitLaws
pub mod Gates
pub mod Admission
pub mod CacheValidity
pub mod CacheMetadata
pub mod Precedence
pub mod Panics
pub mod Batch
pub mod Tests
use osv_proxy.Common.{
  ℕ, Bool, true, false, not, ◌&&◌, ◌||◌, Option, none, some, List, ◌++◌, ltb, if◌then◌else◌, any,
  find, is_some, is_some_and, map_option, is_empty, Text, codes, text_eq,
}
use osv_proxy.Platform.{Platform, delta_from_std, time_add}
use osv_proxy.Artifact.{Artifact, ecosystem_eq}
use osv_proxy.Config.{
  Config, AllowlistEntry, BlocklistEntry, OsvErrorBehavior, MissingPublishTime, allowlist_name,
  blocklist_name,
}
use osv_proxy.Finding.{OsvFinding}
use Decisions.{
  Decision, DecisionReason, Scope, PolicyCacheMetadata, fresh_metadata, allowed_decision,
  blocked_decision, record_cache_valid_until, mark_policy_result_uncacheable,
}
use Hits.{blocking_malicious_hit, blocking_vulnerability_hit, unevaluated_hit, score_of}

-- `Result<Vec<MaliciousHit>, String>`.
pub data Checked (F : Type 0) : Type 0 where
  found : List (OsvFinding F) → Checked F
  failed : Text → Checked F

-- What an early `return` leaves behind: the decision, or nothing, and the scope.
abbrev pub Gate : Type 0 → Type 0
Gate F = Option (Decision F) × Scope

abbrev pub blocks_on_error : OsvErrorBehavior → Bool
blocks_on_error OsvErrorBehavior.block = true
blocks_on_error OsvErrorBehavior.allow = false

abbrev pub blocks_missing : MissingPublishTime → Bool
blocks_missing MissingPublishTime.block = true
blocks_missing MissingPublishTime.allow = false

module _ {F : Type 0} (std : Platform F) (config : Config F) where
  abbrev allows : Artifact → AllowlistEntry → Bool
  allows artifact entry =
      ecosystem_eq entry.ecosystem artifact.ecosystem
      && text_eq (allowlist_name std.lowercase entry) artifact.name
      && text_eq entry.version artifact.version

  unfoldable pub find_allowlist_entry : Artifact → Option AllowlistEntry
  find_allowlist_entry artifact = find (allows artifact) config.allowlist

  abbrev forbids : Artifact → BlocklistEntry → Bool
  forbids artifact entry =
      ecosystem_eq entry.ecosystem artifact.ecosystem
      && text_eq (blocklist_name std.lowercase entry) artifact.name
      && (any (λ version. text_eq version (codes "*")) entry.versions
          || any (λ version. text_eq version artifact.version) entry.versions)

  unfoldable pub find_blocklist_entry : Artifact → Option BlocklistEntry
  find_blocklist_entry artifact = find (forbids artifact) config.blocklist

  unfoldable pub should_check_osv : Artifact → Bool
  should_check_osv artifact =
      (config.policy.osv.block_malicious || config.policy.osv.block_vulnerabilities)
      && not (is_some_and (find_allowlist_entry artifact) (λ entry. entry.bypass_osv))

  unfoldable pub osv_error_reason : DecisionReason
  osv_error_reason =
      if config.policy.osv.block_malicious
      then DecisionReason.malicious
      else DecisionReason.vulnerable

  abbrev score_message : Option F → Text
  score_message none = codes ""
  score_message (some score) = codes " with CVSS base score " ++ std.show_score score

  abbrev error_text : Option Text → Text
  error_text none = codes "unknown error"
  error_text (some e) = e

  malicious_decision : Artifact → OsvFinding F → Decision F
  malicious_decision artifact hit =
      blocked_decision DecisionReason.malicious artifact
        (codes "Blocked by OSV malicious package record " ++ hit.osv_id) (some hit.osv_id)
        (some hit.source) none

  vulnerable_decision : Artifact → OsvFinding F → Decision F
  vulnerable_decision artifact hit =
      let decision : Decision F =
        blocked_decision DecisionReason.vulnerable artifact
          (codes "Blocked by OSV vulnerability " ++ (hit.osv_id ++ score_message (score_of hit)))
          (some hit.osv_id) (some hit.source) none in
      record decision { cvss_score = score_of hit }

  unevaluated_decision : Artifact → OsvFinding F → Decision F
  unevaluated_decision artifact hit =
      if is_empty hit.osv_id
      then blocked_decision DecisionReason.vulnerable artifact
          (codes "Blocked because OSV query could not be evaluated: "
            ++ error_text hit.evaluation_error)
          none (some hit.source) none
      else blocked_decision DecisionReason.vulnerable artifact
          (codes "Blocked because OSV advisory "
            ++ (hit.osv_id
                ++ (codes " could not be evaluated: " ++ error_text hit.evaluation_error)))
          (some hit.osv_id) (some hit.source) none

  -- The arm `Some(Ok(hits))`.
  unfoldable pub hits_gate : Artifact → List (OsvFinding F) → Option (Decision F)
  unfolding malicious_decision vulnerable_decision unevaluated_decision
  hits_gate artifact hits = elim (blocking_malicious_hit config hits) [
    | some hit ↦ some (malicious_decision artifact hit)
    | none ↦ elim (blocking_vulnerability_hit std config hits) [
      | some hit ↦ some (vulnerable_decision artifact hit)
      | none ↦ elim (unevaluated_hit hits) [
        | some hit ↦
            if blocks_on_error config.policy.osv.on_error
            then some (unevaluated_decision artifact hit)
            else none
        | none ↦ none
      ]
    ]
  ]

  -- The arms `Some(Err(err))` and `None`, after their messages.
  unfoldable pub error_gate : Artifact → Text → Option (Decision F)
  error_gate artifact message =
      if blocks_on_error config.policy.osv.on_error
      then some (blocked_decision osv_error_reason artifact message none (some (codes "osv")) none)
      else none

  -- The `if self.should_check_osv(artifact)` block.
  unfoldable pub osv_gate : Artifact → Option (Checked F) → Scope → Gate F
  unfolding error_gate
  osv_gate artifact (some (found hits)) scope =
      if should_check_osv artifact then (hits_gate artifact hits, scope) else (none, scope)
  osv_gate artifact (some (failed e)) scope =
      if should_check_osv artifact
      then (
        error_gate artifact (codes "Blocked because OSV check failed: " ++ e),
        mark_policy_result_uncacheable scope,
      )
      else (none, scope)
  osv_gate artifact none scope =
      if should_check_osv artifact
      then (
        error_gate artifact (codes "Blocked because OSV check result was missing"),
        mark_policy_result_uncacheable scope,
      )
      else (none, scope)

  pub blocklist_gate : Artifact → Option (Decision F)
  blocklist_gate artifact = elim (find_blocklist_entry artifact) [
    | none ↦ none
    | some entry ↦ some (
        blocked_decision DecisionReason.manually_blocked artifact
          (codes "Blocked by manual package policy")
          (some (codes "manual:blocklist:" ++ entry.name)) (some (codes "config")) none)
  ]

  unfoldable pub too_young_decision : Artifact → ℕ → Decision F
  too_young_decision artifact eligible_at =
      blocked_decision DecisionReason.too_young artifact
        (codes "Package version is too new; eligible at " ++ std.show_time eligible_at) none
        (some (codes "policy")) (some eligible_at)

  missing_decision : Artifact → Decision F
  missing_decision artifact =
      blocked_decision DecisionReason.missing_publish_time artifact
        (codes "Package version is missing publish time") none (some (codes "policy")) none

  -- The match on `artifact.published_at`, after `minimum_age` is converted. `none` is a panic.
  unfoldable pub age_gate : Artifact → Option ℕ → ℕ → ℕ → Scope → Option (Gate F)
  unfolding too_young_decision missing_decision
  age_gate artifact (some published_at) minimum_age now scope =
      map_option
        (λ (eligible_at : ℕ).
          if ltb now eligible_at
          then (
            some (too_young_decision artifact eligible_at),
            record_cache_valid_until eligible_at scope,
          )
          else (none, scope))
        (time_add std published_at minimum_age)
  age_gate artifact none minimum_age now scope =
      if blocks_missing config.policy.missing_publish_time
      then some (some (missing_decision artifact), scope)
      else some (none, scope)

  unfoldable pub allowlisted_decision : Artifact → Decision F
  allowlisted_decision artifact =
      allowed_decision DecisionReason.allowlisted artifact (codes "Package version is allowlisted")

  -- The last `if`.
  unfoldable pub final_decision : Artifact → Decision F
  unfolding allowlisted_decision
  final_decision artifact =
      if is_some (find_allowlist_entry artifact)
      then allowlisted_decision artifact
      else allowed_decision DecisionReason.is_allowed artifact (codes "Package version is allowed")

  -- From the conversion of `minimum_age` on.
  unfoldable pub age_and_final : Artifact → ℕ → Scope → Option (Decision F × Scope)
  unfolding age_gate final_decision
  age_and_final artifact now scope = elim (delta_from_std std config.policy.minimum_age) [
    | none ↦ none
    | some minimum_age ↦
        map_option
          (λ (g : Gate F). elim g.0 [ none ↦ (final_decision artifact, g.1) | some d ↦ (d, g.1) ])
          (age_gate artifact artifact.published_at minimum_age now scope)
  ]

  -- From the blocklist on.
  unfoldable pub after_osv : Artifact → ℕ → Scope → Option (Decision F × Scope)
  unfolding blocklist_gate age_and_final
  after_osv artifact now scope = elim (blocklist_gate artifact) [
    | some d ↦ some (d, scope)
    | none ↦
        if is_some_and (find_allowlist_entry artifact) (λ entry. entry.bypass_age_gate)
        then some (allowlisted_decision artifact, scope)
        else age_and_final artifact now scope
  ]

  unfoldable pub evaluate_with_malicious_result :
      Artifact → ℕ → Option (Checked F) → Scope → Option (Decision F × Scope)
  unfolding osv_gate after_osv
  evaluate_with_malicious_result artifact now malicious_result scope =
      let (early, scope') = osv_gate artifact malicious_result scope in
      elim early [ some d ↦ some (d, scope') | none ↦ after_osv artifact now scope' ]

  -- The checker is asked only where its answer is read.
  unfoldable pub evaluate :
      (Artifact → Checked F) → Artifact → ℕ → Scope → Option (Decision F × Scope)
  unfolding evaluate_with_malicious_result
  evaluate check artifact now scope =
      evaluate_with_malicious_result artifact now
        (if should_check_osv artifact then some (check artifact) else none) scope

-- `capture_cache_metadata`: the future runs in a scope of its own, which is read at the end.
unfoldable pub capture_cache_metadata :
    {A : Type 0} → (Scope → Option (A × Scope)) → Option (A × PolicyCacheMetadata)
capture_cache_metadata future = elim (future (some fresh_metadata)) [
  | none ↦ none
  | some (output, scope) ↦ map_option (λ m. (output, m)) scope
]
