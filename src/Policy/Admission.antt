-- ===== src/Policy/Admission.antt =====
-- When the policy engine of src/policy.rs allows an artifact.
use osv_proxy.Common.{
  ℕ, ◌+◌, ◌≤◌, ◌≡◌, refl, ◌↔◌, ◌⊎◌, true, false, Option, none, some, arith, In, Bool-cases,
  Option-cases, is_some_and, inl, inr, ltb,
}
use osv_proxy.Platform.{Platform}
use osv_proxy.Artifact.{Artifact}
use osv_proxy.Config.{Config, BlocklistEntry, MissingPublishTime}
use osv_proxy.Policy.Decisions.{
  Decision, Scope, record_cache_valid_until, allowed_decision, blocked_decision,
}
use osv_proxy.Policy.{
  Checked, find_allowlist_entry, osv_gate, blocklist_gate, age_gate, age_and_final, after_osv,
  final_decision, allowlisted_decision, evaluate_with_malicious_result, missing_decision,
  too_young_decision,
}
use osv_proxy.Policy.Gates.{
  Names, IsOldEnough, BypassesAge, Admits, osv_gate-blocks, clear_of_gate, gate_of_clear,
  blocklist_gate-blocks, unlisted_of_gate, listed_of_gate,
}

module _ {F : Type 0} (std : Platform F) (config : Config F) where
  module _ (artifact : Artifact) where
    -- The artifact's age can be computed: nothing is beyond what chrono represents.
    abbrev pub HasClock : Option ℕ → Type 0
    HasClock none = config.policy.minimum_age ≤ std.max_delta
    HasClock (some published_at) =
        (config.policy.minimum_age ≤ std.max_delta)
        × (published_at + config.policy.minimum_age ≤ std.max_time)

    -- The age gate, once it has a clock, lets through exactly what is old enough.
    abbrev AgeOutcome : Option ℕ → ℕ → Scope → Type 0
    AgeOutcome published_at now scope =
        (early : Option (Decision F)) × (scope' : Scope) × (age_gate std config artifact
            published_at config.policy.minimum_age now scope
          ≡ some (early, scope'))
        × (early ≡ none → IsOldEnough std config published_at now)
        × (IsOldEnough std config published_at now → early ≡ none)
        × ((d : Decision F) → early ≡ some d → d.allowed ≡ false)

    age_gate_outcome :
        (published_at : Option ℕ) (now : ℕ) (scope : Scope)
        → HasClock published_at
        → AgeOutcome published_at now scope
    unfolding age_gate blocked_decision
    age_gate_outcome none now scope clock = missing config.policy.missing_publish_time refl
      where
        missing :
            (m : MissingPublishTime)
            → config.policy.missing_publish_time ≡ m
            → AgeOutcome none now scope
        missing MissingPublishTime.block e = (
          some (missing_decision std config artifact),
          scope,
          ground arith,
          (λ h. ground arith),
          (λ h. ground arith),
          (λ d h. ground arith),
        )
        missing MissingPublishTime.allow e =
            (none, scope, ground arith, (λ h. e), (λ h. refl), (λ d h. ground arith))
    age_gate_outcome (some t) now scope clock =
        elim (Bool-cases (ltb now (t + config.policy.minimum_age))) [
          | inl young ↦ (
            some (too_young_decision std config artifact (t + config.policy.minimum_age)),
            record_cache_valid_until (t + config.policy.minimum_age) scope,
            ground arith,
            (λ h. ground arith),
            (λ h. ground arith),
            (λ d h. ground arith),
          )
          | inr old ↦
              (none, scope, ground arith, (λ h. ground arith), (λ h. refl), (λ d h. ground arith))
        ]

    clock_delta : (p : Option ℕ) → HasClock p → config.policy.minimum_age ≤ std.max_delta
    clock_delta none clock = clock
    clock_delta (some t) clock = clock.0

    final_decision-allows : (final_decision std config artifact).allowed ≡ true
    unfolding final_decision allowed_decision
    final_decision-allows = ground arith

    -- What a stage returns, and exactly when it allows.
    abbrev Decides : Option (Decision F × Scope) → Type 0 → Type 0
    Decides outcome P =
        (d : Decision F) × (scope' : Scope) × (outcome ≡ some (d, scope'))
        × ((d.allowed ≡ true) ↔ P)

    age_and_final_decides :
        (now : ℕ) (scope : Scope)
        → HasClock artifact.published_at
        → Decides
            (age_and_final std config artifact now scope)
            (IsOldEnough std config artifact.published_at now)
    unfolding age_and_final
    age_and_final_decides now scope clock =
        let (early, scope', e, old, young, blocks) =
          age_gate_outcome artifact.published_at now scope clock in
        finish early scope' e old young blocks
      where
        delta : config.policy.minimum_age ≤ std.max_delta
        delta = clock_delta artifact.published_at clock

        finish :
            (early : Option (Decision F)) (scope' : Scope)
            → age_gate std config artifact artifact.published_at config.policy.minimum_age now scope
              ≡ some (early, scope')
            → (early ≡ none → IsOldEnough std config artifact.published_at now)
            → (IsOldEnough std config artifact.published_at now → early ≡ none)
            → ((d : Decision F) → early ≡ some d → d.allowed ≡ false)
            → Decides
                (age_and_final std config artifact now scope)
                (IsOldEnough std config artifact.published_at now)
        finish none scope' e old young blocks = (
          final_decision std config artifact,
          scope',
          ground (arith, delta),
          ((λ h. old refl), (λ h. final_decision-allows)),
        )
        finish (some d) scope' e old young blocks = (
          d,
          scope',
          ground (arith, delta),
          ((λ h. ground (arith, blocks d)), (λ h. ground (arith, young h))),
        )

    -- Without the bypass, the age decides.
    not_bypassed :
        (now : ℕ) {P : Type 0}
        → is_some_and (find_allowlist_entry std config artifact) (λ entry. entry.bypass_age_gate)
          ≡ false
        → BypassesAge std config artifact ⊎ IsOldEnough std config artifact.published_at now
        → (IsOldEnough std config artifact.published_at now → P)
        → P
    not_bypassed now b (inl y) f = ground arith
    not_bypassed now b (inr old) f = f old

    after_osv_decides :
        (now : ℕ) (scope : Scope)
        → HasClock artifact.published_at
        → Decides (after_osv std config artifact now scope) (
            ((e : BlocklistEntry) → In e config.blocklist → ¬ Names std config e artifact)
            × (BypassesAge std config artifact ⊎ IsOldEnough std config artifact.published_at now))
    unfolding after_osv allowlisted_decision allowed_decision
    after_osv_decides now scope clock = elim (Option-cases (blocklist_gate std config artifact)) [
      | inr (d, e) ↦ (
        d,
        scope,
        ground arith,
        (
          (λ h. ground (arith, blocklist_gate-blocks std config artifact d e)),
          (λ h. absurd (listed_of_gate std config artifact d e h.0)),
        ),
      )
      | inl e ↦
          elim (Bool-cases (
            is_some_and (find_allowlist_entry std config artifact)
              (λ entry. entry.bypass_age_gate))) [
                | inl b ↦ (
                  allowlisted_decision std config artifact,
                  scope,
                  rw (e, after_osv) (rw b),
                  ((λ h. (unlisted_of_gate std config artifact e, inl b)), (λ h. refl)),
                )
                | inr b ↦
                    let (d, scope', r, iff) = age_and_final_decides now scope clock in
                    (
                      d,
                      scope',
                      rw (e, after_osv) (rw b r),
                      (
                        (λ h. (unlisted_of_gate std config artifact e, inr (iff.0 h))),
                        (λ h. not_bypassed now b h.1 iff.1),
                      ),
                    )
              ]
    ]

  -- Where the artifact's age can be computed, an evaluation returns a decision, and the decision
  -- allows the artifact exactly when the policy admits it: the OSV result has no finding that blocks
  -- (and is there, or failures pass), no blocklist entry names it, and it is old enough or bypasses
  -- the age gate.
  pub evaluate-allows_iff :
      (artifact : Artifact) (now : ℕ) (r : Option (Checked F)) (scope : Scope)
      → HasClock artifact artifact.published_at
      → (d : Decision F) × (scope' : Scope) × (evaluate_with_malicious_result std config artifact
            now r scope
          ≡ some (d, scope'))
        × ((d.allowed ≡ true) ↔ Admits std config artifact now r)
  unfolding evaluate_with_malicious_result
  evaluate-allows_iff artifact now r scope clock =
      elim (Option-cases (osv_gate std config artifact r scope).0) [
        | inr (d, e) ↦ (
          d,
          (osv_gate std config artifact r scope).1,
          rw (e, evaluate_with_malicious_result),
          (
            (λ h. ground (arith, osv_gate-blocks std config artifact r scope d e)),
            (λ a. ground (arith, gate_of_clear std config artifact r scope a.osv_clear)),
          ),
        )
        | inl e ↦
            let (d, scope', s, iff) =
              after_osv_decides artifact now (osv_gate std config artifact r scope).1 clock in
            (
              d,
              scope',
              rw (e, evaluate_with_malicious_result) s,
              (
                (λ h. record {
                  osv_clear = clear_of_gate std config artifact r scope e;
                  unlisted = (iff.0 h).0;
                  aged = (iff.0 h).1;
                }),
                (λ a. iff.1 (a.unlisted, a.aged)),
              ),
            )
      ]
