-- ===== src/Policy/CacheMetadata.antt =====
-- What an evaluation of src/policy.rs leaves in the task-local cache metadata.
use osv_proxy.Common.{
  ℕ, ◌+◌, ◌≤◌, ◌≡◌, ◌↔◌, refl, Bool, true, false, Option, none, some, arith, Bool-cases,
  Option-cases, is_some_and, inl, inr, ltb, leb, sym,
}
use osv_proxy.Platform.{Platform}
use osv_proxy.Artifact.{Artifact}
use osv_proxy.Config.{Config}
use osv_proxy.Policy.Decisions.{
  Decision, allowed_decision, blocked_decision, Scope, PolicyCacheMetadata,
  record_cache_valid_until, mark_policy_result_uncacheable,
}
use osv_proxy.Policy.{
  Checked, found, failed, should_check_osv, find_allowlist_entry, find_blocklist_entry, hits_gate,
  osv_gate, error_gate, blocklist_gate, age_gate, age_and_final, after_osv,
  evaluate_with_malicious_result, final_decision, allowlisted_decision,
}

module _ {F : Type 0} (std : Platform F) (config : Config F) (artifact : Artifact) where
  -- The OSV result that an evaluation may have rested on: there, and no failure.
  abbrev pub IsComplete : Option (Checked F) → Type 0
  IsComplete (some (found hits)) = Unit
  IsComplete (some (failed e)) = ⊥
  IsComplete none = ⊥

  -- `bound` is no time, or a time that `valid_until` does not pass.
  abbrev pub NotAfter : Option ℕ → Option ℕ → Type 0
  NotAfter none valid_until = Unit
  NotAfter (some t) none = ⊥
  NotAfter (some t) (some t') = t' ≤ t

  -- What an evaluation in the scope `m` may leave there.
  pub record Tracks (m : PolicyCacheMetadata) (eligible_at : Option ℕ) (m' : PolicyCacheMetadata)
      : Type 0 where
    pub earlier : NotAfter m.valid_until m'.valid_until
    pub before_eligible : NotAfter eligible_at m'.valid_until

  NotAfter-self : (v : Option ℕ) → NotAfter v v
  NotAfter-self none = tt
  NotAfter-self (some t) = omega arith

  record-Tracks :
      (t : ℕ) (m : PolicyCacheMetadata)
      → (m' : PolicyCacheMetadata) × (record_cache_valid_until t (some m) ≡ some m')
        × (m'.cacheable ≡ m.cacheable)
        × Tracks m (some t) m'
  unfolding record_cache_valid_until
  record-Tracks t m = go m.valid_until refl
    where
      go :
          (v : Option ℕ)
          → m.valid_until ≡ v
          → (m' : PolicyCacheMetadata) × (record_cache_valid_until t (some m) ≡ some m')
            × (m'.cacheable ≡ m.cacheable)
            × Tracks m (some t) m'
      go none e = (
        record m { valid_until = some t },
        ground arith,
        refl,
        record { earlier = rw e tt; before_eligible = omega arith },
      )
      go (some u) e = elim (Bool-cases (ltb t u)) [
        | inl lt ↦ (
          record m { valid_until = some t },
          ground arith,
          refl,
          record { earlier = rw e (ground arith); before_eligible = omega arith },
        )
        | inr ge ↦ (
          record m { valid_until = some u },
          ground arith,
          refl,
          record { earlier = rw e (omega arith); before_eligible = ground arith },
        )
      ]

  -- The scope afterwards, of a stage that does not touch `cacheable`.
  abbrev Leaves : PolicyCacheMetadata → Option ℕ → Scope → Type 0
  Leaves m eligible_at scope' =
      (m' : PolicyCacheMetadata) × (scope' ≡ some m')
      × (m'.cacheable ≡ m.cacheable)
      × Tracks m eligible_at m'

  Leaves-self : (m : PolicyCacheMetadata) {scope' : Scope} → some m ≡ scope' → Leaves m none scope'
  Leaves-self m e =
      (m, sym e, refl, record { earlier = NotAfter-self m.valid_until; before_eligible = tt })

  abbrev eligible : Option (Decision F) → Option ℕ
  eligible none = none
  eligible (some d) = d.eligible_at

  age_gate-Leaves :
      (p : Option ℕ) (age now : ℕ) (m : PolicyCacheMetadata) (early : Option (Decision F))
      (scope' : Scope)
      → age_gate std config artifact p age now (some m) ≡ some (early, scope')
      → Leaves m (eligible early) scope'
  unfolding age_gate blocked_decision
  age_gate-Leaves none age now m early scope' e =
      let same : some m ≡ scope' = ground arith in
      let el : eligible early ≡ none = ground arith in rw el (Leaves-self m same)
  age_gate-Leaves (some t) age now m early scope' e =
      elim (Bool-cases (leb (t + age) std.max_time)) [
        | inr over ↦ absurd (ground arith)
        | inl fits ↦ elim (Bool-cases (ltb now (t + age))) [
          | inl young ↦
              let (m', s, c, tr) = record-Tracks (t + age) m in
              let same : scope' ≡ some m' = ground arith in
              let el : eligible early ≡ some (t + age) = ground arith in rw el (m', same, c, tr)
          | inr old ↦
              let same : some m ≡ scope' = ground arith in
              let el : early ≡ none = ground arith in rw el (Leaves-self m same)
        ]
      ]

  final_decision-eligible : (final_decision std config artifact).eligible_at ≡ none
  unfolding final_decision allowed_decision
  final_decision-eligible = ground arith

  age_and_final-Leaves :
      (now : ℕ) (m : PolicyCacheMetadata) (d : Decision F) (scope' : Scope)
      → age_and_final std config artifact now (some m) ≡ some (d, scope')
      → Leaves m d.eligible_at scope'
  unfolding age_and_final
  age_and_final-Leaves now m d scope' e =
      go (age_gate std config artifact artifact.published_at config.policy.minimum_age now (some m))
        refl
    where
      go :
          (g : Option (Option (Decision F) × Scope))
          → age_gate std config artifact artifact.published_at config.policy.minimum_age now
              (some m)
            ≡ g
          → Leaves m d.eligible_at scope'
      go none q = absurd (ground arith)
      go (some (none, s)) q =
          let same : s ≡ scope' = ground arith in
          let el : d.eligible_at ≡ none = ground (arith, final_decision-eligible) in
          rw (el, ← same)
            (age_gate-Leaves artifact.published_at config.policy.minimum_age now m none s q)
      go (some (some d', s)) q =
          let same : s ≡ scope' = ground arith in
          let el : d ≡ d' = ground arith in
          rw (el, ← same)
            (age_gate-Leaves artifact.published_at config.policy.minimum_age now m (some d') s q)

  after_osv-Leaves :
      (now : ℕ) (m : PolicyCacheMetadata) (d : Decision F) (scope' : Scope)
      → after_osv std config artifact now (some m) ≡ some (d, scope')
      → Leaves m d.eligible_at scope'
  unfolding after_osv blocklist_gate blocked_decision allowlisted_decision allowed_decision
  after_osv-Leaves now m d scope' e =
      elim (Option-cases (find_blocklist_entry std config artifact)) [
        | inr (entry, b) ↦ done (ground arith) (ground arith)
        | inl b ↦
            elim (Bool-cases (
              is_some_and (find_allowlist_entry std config artifact)
                (λ entry. entry.bypass_age_gate))) [
                  | inl y ↦ done (ground arith) (ground arith)
                  | inr n ↦ age_and_final-Leaves now m d scope' (ground arith)
                ]
      ]
    where
      done : some m ≡ scope' → d.eligible_at ≡ none → Leaves m d.eligible_at scope'
      done same el = rw el (Leaves-self m same)

  -- The metadata stay cacheable exactly if no OSV result that was needed is missing or failed.
  abbrev pub StaysCacheable : Bool → Option (Checked F) → Bool → Type 0
  StaysCacheable before r after =
      (after ≡ true)
      ↔ ((before ≡ true) × (should_check_osv std config artifact ≡ true → IsComplete r))

  osv_gate-scope :
      (r : Option (Checked F)) (m : PolicyCacheMetadata)
      → (m₁ : PolicyCacheMetadata) × ((osv_gate std config artifact r (some m)).1 ≡ some m₁)
        × (m₁.valid_until ≡ m.valid_until)
        × StaysCacheable m.cacheable r m₁.cacheable
  unfolding osv_gate mark_policy_result_uncacheable
  osv_gate-scope (some (found hits)) m = (m, ground arith, refl, ((λ h. (h, λ _. tt)), (λ h. h.0)))
  osv_gate-scope (some (failed x)) m = elim (Bool-cases (should_check_osv std config artifact)) [
    | inl c ↦ (
      record m { cacheable = false },
      ground arith,
      refl,
      ((λ h. ground arith), (λ h. absurd (h.1 c))),
    )
    | inr c ↦ (m, ground arith, refl, ((λ h. (h, λ k. ground arith)), (λ h. h.0)))
  ]
  osv_gate-scope none m = elim (Bool-cases (should_check_osv std config artifact)) [
    | inl c ↦ (
      record m { cacheable = false },
      ground arith,
      refl,
      ((λ h. ground arith), (λ h. absurd (h.1 c))),
    )
    | inr c ↦ (m, ground arith, refl, ((λ h. (h, λ k. ground arith)), (λ h. h.0)))
  ]

  osv_gate-eligible :
      (r : Option (Checked F)) (scope : Scope) (d : Decision F)
      → (osv_gate std config artifact r scope).0 ≡ some d
      → d.eligible_at ≡ none
  unfolding osv_gate hits_gate error_gate blocked_decision
  osv_gate-eligible (some (found hits)) scope d e = ground arith
  osv_gate-eligible (some (failed x)) scope d e = ground arith
  osv_gate-eligible none scope d e = ground arith

  -- In a scope, an evaluation that returns leaves a `valid_until` no later than the one before and
  -- no later than the decision's `eligible_at`, and the result stays cacheable exactly if it was so
  -- and no OSV result that was needed is missing or failed.
  pub evaluate-Tracks :
      (now : ℕ) (r : Option (Checked F)) (m : PolicyCacheMetadata) (d : Decision F) (scope' : Scope)
      → evaluate_with_malicious_result std config artifact now r (some m) ≡ some (d, scope')
      → (m' : PolicyCacheMetadata) × (scope' ≡ some m')
        × Tracks m d.eligible_at m'
        × StaysCacheable m.cacheable r m'.cacheable
  unfolding evaluate_with_malicious_result
  evaluate-Tracks now r m d scope' e =
      let (m₁, s, v, c) = osv_gate-scope r m in
      elim (Option-cases (osv_gate std config artifact r (some m)).0) [
        | inr (d', q) ↦
            let same : some m₁ ≡ scope' = ground arith in
            let el : d.eligible_at ≡ none = ground (arith, osv_gate-eligible r (some m) d' q) in
            rw el (
              m₁,
              sym same,
              record { earlier = rw v (NotAfter-self m.valid_until); before_eligible = tt },
              c,
            )
        | inl q ↦
            let (m', t, c', k) = after_osv-Leaves now m₁ d scope' (ground arith) in
            (
              m',
              t,
              record { earlier = rw v at k.earlier; before_eligible = k.before_eligible },
              rw c' c,
            )
      ]
