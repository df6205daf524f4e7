-- ===== src/Policy/CacheValidity.antt =====
-- How long a policy decision of src/policy.rs stands.
use osv_proxy.Common.{ℕ, ◌≤◌, ◌<◌, ◌≡◌, refl, Option, none, some, arith}
use osv_proxy.Platform.{Platform}
use osv_proxy.Artifact.{Artifact}
use osv_proxy.Config.{Config}
use osv_proxy.Policy.Decisions.{Decision, Scope, record_cache_valid_until}
use osv_proxy.Policy.{
  Checked, osv_gate, age_gate, age_and_final, after_osv, evaluate_with_malicious_result,
}

-- No time recorded in the scope has passed.
abbrev pub IsBefore : ℕ → Option ℕ → Type 0
IsBefore now none = Unit
IsBefore now (some t) = now < t

abbrev pub StillValid : ℕ → Scope → Type 0
StillValid now none = ⊥
StillValid now (some m) = IsBefore now m.valid_until

module _ {F : Type 0} (std : Platform F) (config : Config F) (artifact : Artifact) where
  age_gate_stable :
      (p : Option ℕ) (age now now' : ℕ) (scope : Scope) (early : Option (Decision F))
      (scope' : Scope)
      → age_gate std config artifact p age now scope ≡ some (early, scope')
      → now ≤ now'
      → StillValid now' scope'
      → age_gate std config artifact p age now' scope ≡ some (early, scope')
  unfolding age_gate record_cache_valid_until
  age_gate_stable none age now now' scope early scope' e le valid = e
  age_gate_stable (some t) age now now' (some m) early scope' e le valid = ground arith
  age_gate_stable (some t) age now now' none early scope' e le valid = ground arith

  age_and_final_stable :
      (now now' : ℕ) (scope : Scope) (d : Decision F) (scope' : Scope)
      → age_and_final std config artifact now scope ≡ some (d, scope')
      → now ≤ now'
      → StillValid now' scope'
      → age_and_final std config artifact now' scope ≡ some (d, scope')
  unfolding age_and_final
  age_and_final_stable now now' scope d scope' e le valid =
      go (age_gate std config artifact artifact.published_at config.policy.minimum_age now scope)
        refl
    where
      go :
          (g : Option (Option (Decision F) × Scope))
          → age_gate std config artifact artifact.published_at config.policy.minimum_age now scope
            ≡ g
          → age_and_final std config artifact now' scope ≡ some (d, scope')
      go none q = ground arith
      go (some (early, s)) q =
          let same : s ≡ scope' = ground arith in
          ground (
            arith,
            age_gate_stable artifact.published_at config.policy.minimum_age now now' scope early s q
                le (rw same valid),
          )

  after_osv_stable :
      (now now' : ℕ) (scope : Scope) (d : Decision F) (scope' : Scope)
      → after_osv std config artifact now scope ≡ some (d, scope')
      → now ≤ now'
      → StillValid now' scope'
      → after_osv std config artifact now' scope ≡ some (d, scope')
  unfolding after_osv
  after_osv_stable now now' scope d scope' e le valid =
      ground (arith, age_and_final_stable now now' scope d scope')

  -- In a scope, evaluated again at a later time before the `valid_until` that was recorded there,
  -- the same artifact with the same OSV result gets the same decision and the same metadata.
  pub evaluate_stable :
      (now now' : ℕ) (r : Option (Checked F)) (scope : Scope) (d : Decision F) (scope' : Scope)
      → evaluate_with_malicious_result std config artifact now r scope ≡ some (d, scope')
      → now ≤ now'
      → StillValid now' scope'
      → evaluate_with_malicious_result std config artifact now' r scope ≡ some (d, scope')
  unfolding evaluate_with_malicious_result
  evaluate_stable now now' r scope d scope' e le valid =
      ground (arith, after_osv_stable now now' (osv_gate std config artifact r scope).1 d scope')
