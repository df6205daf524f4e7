-- ===== src/Policy/Precedence.antt =====
-- Which gate of the policy engine of src/policy.rs decides, and what the decision says.
use osv_proxy.Common.{
  ℕ, ◌≡◌, ◌≢◌, ◌↔◌, refl, ◌⊎◌, ◌++◌, true, false, Option, none, some, List, Ordering, arith, In,
  Option-cases, inl, inr, codes, Text,
}
use osv_proxy.Platform.{Platform}
use osv_proxy.Artifact.{Artifact}
use osv_proxy.Config.{Config, OsvErrorBehavior}
use osv_proxy.Finding.{OsvFinding}
use osv_proxy.Policy.Decisions.{
  Decision, DecisionReason, Scope, PolicyCacheMetadata, blocked_decision,
  mark_policy_result_uncacheable,
}
use osv_proxy.Policy.Hits.{is_malicious_id, by_id, blocking_malicious_hit}
use osv_proxy.Policy.HitLaws.{malicious_found, malicious_least, malicious_miss}
use osv_proxy.Policy.{
  Checked, found, failed, should_check_osv, hits_gate, osv_gate, error_gate,
  evaluate_with_malicious_result, evaluate, osv_error_reason, malicious_decision,
}

module _ {F : Type 0} (std : Platform F) (config : Config F) (artifact : Artifact) where
  -- Where the OSV check applies and malicious packages are blocked, a finding whose id starts with
  -- `MAL-` blocks the artifact, whatever the other lists, the age and the cache scope are: the reason
  -- is `Malicious`, and the rule is the least such id.
  pub malicious_first :
      (now : ℕ) (hits : List (OsvFinding F)) (scope : Scope) (h : OsvFinding F)
      → should_check_osv std config artifact ≡ true
      → config.policy.osv.block_malicious ≡ true
      → In h hits
      → is_malicious_id h ≡ true
      → (d : Decision F) × (m : OsvFinding F) × (evaluate_with_malicious_result std config artifact
            now
            (some (found hits))
            scope
          ≡ some (d, scope))
        × (d.allowed ≡ false)
        × (d.reason ≡ DecisionReason.malicious)
        × (d.rule_id ≡ some m.osv_id)
        × In m hits
        × (is_malicious_id m ≡ true)
        × ((k : OsvFinding F) → In k hits → is_malicious_id k ≡ true → by_id m k ≢ Ordering.gt)
  unfolding evaluate_with_malicious_result osv_gate hits_gate malicious_decision blocked_decision
  malicious_first now hits scope h c b i p =
      elim (Option-cases (blocking_malicious_hit config hits)) [
        | inl e ↦ absurd (malicious_miss config hits h e b i p)
        | inr (m, e) ↦
            let (b', j, q) = malicious_found config hits e in
            (
              malicious_decision std config artifact m,
              m,
              ground arith,
              refl,
              refl,
              refl,
              j,
              q,
              malicious_least config hits e,
            )
      ]

  -- Where the OSV check applies and its result failed or is missing, `on_error: block` blocks the
  -- artifact: as malicious if malicious packages are blocked, as vulnerable if not; the source is
  -- `osv`, and the metadata are marked uncacheable.
  pub failure_blocks :
      (now : ℕ) (r : Option (Checked F)) (m : PolicyCacheMetadata)
      → should_check_osv std config artifact ≡ true
      → config.policy.osv.on_error ≡ OsvErrorBehavior.block
      → (r ≡ none) ⊎ ((e : Text) × (r ≡ some (failed e)))
      → (d : Decision F) × (evaluate_with_malicious_result std config artifact now r (some m)
          ≡ some (d, some (record m { cacheable = false })))
        × (d.allowed ≡ false)
        × (d.source ≡ some (codes "osv"))
        × ((d.reason ≡ DecisionReason.malicious) ↔ (config.policy.osv.block_malicious ≡ true))
        × ((d.reason ≡ DecisionReason.vulnerable) ↔ (config.policy.osv.block_malicious ≡ false))
  unfolding evaluate_with_malicious_result osv_gate error_gate blocked_decision osv_error_reason
      mark_policy_result_uncacheable
  failure_blocks now r m c b (inl e) = (
    blocked_decision (osv_error_reason std config) artifact
        (codes "Blocked because OSV check result was missing") none (some (codes "osv")) none,
    rw e (ground arith),
    refl,
    refl,
    ground arith,
    ground arith,
  )
  failure_blocks now r m c b (inr (x, e)) = (
    blocked_decision (osv_error_reason std config) artifact
        (codes "Blocked because OSV check failed: " ++ x) none (some (codes "osv")) none,
    rw e (ground arith),
    refl,
    refl,
    ground arith,
    ground arith,
  )

  -- Where an allowlist entry bypasses OSV, or no OSV policy is on, an evaluation does not depend on
  -- the checker's answer.
  pub evaluate-unchecked :
      (check check' : Artifact → Checked F) (now : ℕ) (scope : Scope)
      → should_check_osv std config artifact ≡ false
      → evaluate std config check artifact now scope ≡ evaluate std config check' artifact now scope
  unfolding evaluate
  evaluate-unchecked check check' now scope c = rw c refl
