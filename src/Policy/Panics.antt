-- ===== src/Policy/Panics.antt =====
-- When the policy engine of src/policy.rs panics.
use osv_proxy.Common.{
  ℕ, ◌+◌, ◌≡◌, ◌↔◌, refl, true, Option, none, some, arith, In, Bool-cases, Option-cases,
  is_some_and, inl, inr, leb,
}
use osv_proxy.Platform.{Platform}
use osv_proxy.Artifact.{Artifact}
use osv_proxy.Config.{Config, BlocklistEntry}
use osv_proxy.Policy.Decisions.{Scope}
use osv_proxy.Policy.{
  Checked, should_check_osv, find_allowlist_entry, osv_gate, blocklist_gate, age_gate,
  age_and_final, after_osv, evaluate_with_malicious_result,
}
use osv_proxy.Policy.Gates.{
  Names, BypassesAge, OsvClear, clear_of_gate, gate_of_clear, unlisted_of_gate, listed_of_gate,
}
use osv_proxy.Policy.Admission.{HasClock, evaluate-allows_iff}

module _ {F : Type 0} (std : Platform F) (config : Config F) (artifact : Artifact) where
  -- The artifact comes as far as the age gate: OSV is clear where it applies, no blocklist entry names
  -- it, and no allowlist entry lifts the age gate.
  pub record ReachesAge (r : Option (Checked F)) : Type 0 where
    pub osv_clear : should_check_osv std config artifact ≡ true → OsvClear std config r
    pub unlisted : (e : BlocklistEntry) → In e config.blocklist → ¬ Names std config e artifact
    pub aged : ¬ BypassesAge std config artifact

  age_panics :
      (p : Option ℕ) (now : ℕ) (scope : Scope)
      → artifact.published_at ≡ p
      → ¬ HasClock std config artifact p
      → age_and_final std config artifact now scope ≡ none
  unfolding age_and_final age_gate
  age_panics none now scope e h = ground (arith, e, h)
  age_panics (some t) now scope e h =
      elim (Bool-cases (leb config.policy.minimum_age std.max_delta)) [
        | inl l ↦ elim (Bool-cases (leb (t + config.policy.minimum_age) std.max_time)) [
          | inl k ↦ absurd (h (ground arith, ground arith))
          | inr k ↦ ground (arith, e)
        ]
        | inr l ↦ ground (arith, e)
      ]

  after_osv_panics :
      (now : ℕ) (scope : Scope)
      → ((e : BlocklistEntry) → In e config.blocklist → ¬ Names std config e artifact)
      → ¬ BypassesAge std config artifact
      → ¬ HasClock std config artifact artifact.published_at
      → after_osv std config artifact now scope ≡ none
  unfolding after_osv
  after_osv_panics now scope unlisted aged clock =
      elim (Option-cases (blocklist_gate std config artifact)) [
        | inr (d, e) ↦ absurd (listed_of_gate std config artifact d e unlisted)
        | inl e ↦
            elim (Bool-cases (
              is_some_and (find_allowlist_entry std config artifact)
                (λ entry. entry.bypass_age_gate))) [
                  | inl b ↦ absurd (aged b)
                  | inr b ↦
                      rw (e, after_osv)
                        (rw b (age_panics artifact.published_at now scope refl clock))
                ]
      ]

  after_osv-none :
      (now : ℕ) (scope : Scope)
      → after_osv std config artifact now scope ≡ none
      → (blocklist_gate std config artifact ≡ none) × ¬ BypassesAge std config artifact
  unfolding after_osv
  after_osv-none now scope h = (ground arith, (λ b. ground arith))

  -- An evaluation panics exactly where the artifact comes as far as the age gate and its age cannot be
  -- computed: `minimum_age` is no duration that chrono represents, or the publication time plus
  -- `minimum_age` is beyond chrono's last time.
  pub evaluate-panics_iff :
      (now : ℕ) (r : Option (Checked F)) (scope : Scope)
      → (evaluate_with_malicious_result std config artifact now r scope ≡ none)
        ↔ (ReachesAge r × ¬ HasClock std config artifact artifact.published_at)
  unfolding evaluate_with_malicious_result
  evaluate-panics_iff now r scope = (
    (λ h. elim (Option-cases (osv_gate std config artifact r scope).0) [
      | inr (d, e) ↦ absurd (ground (arith, e, h))
      | inl e ↦
          let (unlisted, aged) =
            after_osv-none now (osv_gate std config artifact r scope).1
              (rw (e, evaluate_with_malicious_result) at h) in
          (
            record {
              osv_clear = clear_of_gate std config artifact r scope e;
              unlisted = unlisted_of_gate std config artifact unlisted;
              aged = aged;
            },
            (λ clock.
                let (d, scope', k, iff) =
                  evaluate-allows_iff std config artifact now r scope clock in
                ground (arith, h, k)),
          )
    ]),
    (λ (reaches, clock).
        let e = gate_of_clear std config artifact r scope reaches.osv_clear in
        rw (e, evaluate_with_malicious_result)
          (after_osv_panics now (osv_gate std config artifact r scope).1 reaches.unlisted
            reaches.aged clock)),
  )
