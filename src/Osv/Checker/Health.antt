-- ===== src/Osv/Checker/Health.antt =====
-- When the store of src/malicious.rs answers, and what the policy does where it does not.
use osv_proxy.Common.{
  ℕ, ◌-◌, ◌≤◌, ◌≡◌, ◌↔◌, ◌⊎◌, refl, sym, ap, ◌∙◌, Bool, true, false, not, ◌&&◌, ltb, inl, inr,
  Option, none, some, arith, Text, codes, text_eq, text_eq_iff, if◌then◌else◌,
}
use osv_proxy.Platform.{Platform}
use osv_proxy.Artifact.{Artifact, osv_name}
use osv_proxy.Config.{Config, OsvErrorBehavior}
use osv_proxy.Policy.Decisions.{Decision, PolicyCacheMetadata}
use osv_proxy.Policy.{should_check_osv, evaluate, failed}
use osv_proxy.Policy.Precedence.{failure_blocks}
use osv_proxy.Osv.{Evaluated, ok, err, ◌>>=◌, OsvError, local_store}
use osv_proxy.Osv.Versions.{StoredRange}
use osv_proxy.Osv.Checker.{
  refuse_if, is_one, row_of, success_of, SyncState, Connection, SqliteMaliciousChecker,
  blocks_stale, check_age, check_state, ensure_store_healthy, check_with_connection, to_checked,
}

err-ne-ok : {A : Type 0} (e : OsvError) (a : A) → ◌≡◌ {A = Evaluated A} (err e) (ok a) → ⊥
err-ne-ok e a h = cc

bind-ok :
    {A B : Type 0} (r : Evaluated A) (f : A → Evaluated B) (b : B)
    → (r >>= f) ≡ ok b
    → (a : A) × (r ≡ ok a) × (f a ≡ ok b)
bind-ok (ok a) f b h = (a, refl, h)
bind-ok (err e) f b h = absurd (err-ne-ok e b h)

refuse_if-ok : (t : Bool) (message : Text) (u : Unit {0}) → refuse_if t message ≡ ok u → t ≡ false
refuse_if-ok true message u h = absurd (err-ne-ok (local_store message) u h)
refuse_if-ok false message u h = refl

not-false : (b : Bool) → not b ≡ false → b ≡ true
not-false true h = refl
not-false false h = sym h

is_one-some : (n : Option ℕ) → is_one n ≡ true → n ≡ some 1
is_one-some none h = ground arith
is_one-some (some n) h = ground arith

success_of-ok :
    (ecosystem : Text) (o : Option Text) (t : Text) → success_of ecosystem o ≡ ok t → o ≡ some t
success_of-ok ecosystem none t h = absurd (err-ne-ok _ t h)
success_of-ok ecosystem (some s) t h = cc

row_of-ok :
    (ecosystem : Text) (o : Option SyncState) (state : SyncState)
    → row_of ecosystem o ≡ ok state
    → o ≡ some state
row_of-ok ecosystem none state h = absurd (err-ne-ok _ state h)
row_of-ok ecosystem (some s) state h = cc

module _ {F : Type 0} (connection : Connection F) (checker : SqliteMaliciousChecker) (now : ℕ) where
  -- The last sync of the ecosystem has succeeded with all the data that are required, and not too long
  -- ago where stale data block.
  abbrev pub IsFresh : SyncState → Text → ℕ → Type 0
  IsFresh state text synced_at =
      (state.status ≡ codes "healthy")
      × (checker.require_full_dataset ≡ true → state.dataset_version ≡ some 1)
      × (state.last_success_at ≡ some text)
      × (connection.parse_timestamp text ≡ ok synced_at)
      × (synced_at ≤ now)
      × (blocks_stale checker.on_stale ≡ true → now - synced_at ≤ checker.max_staleness)

  abbrev pub IsHealthy : Text → Type 0
  IsHealthy ecosystem =
      (state : SyncState) × (text : Text) × (synced_at : ℕ) × (connection.sync_state ecosystem
        ≡ ok (some state))
      × IsFresh state text synced_at

  check_state-IsFresh :
      (ecosystem : Text) (state : SyncState)
      → check_state connection checker now ecosystem state ≡ ok tt
      → (text : Text) × (synced_at : ℕ) × IsFresh state text synced_at
  unfolding check_state check_age
  check_state-IsFresh ecosystem state h =
      let (u₁, e₁, h₁) =
        bind-ok (refuse_if (not (text_eq state.status (codes "healthy"))) _) _ tt h in
      let (u₂, e₂, h₂) =
        bind-ok (refuse_if (checker.require_full_dataset && not (is_one state.dataset_version)) _) _
          tt h₁ in
      let (text, e₃, h₃) = bind-ok (success_of ecosystem state.last_success_at) _ tt h₂ in
      let (at, e₄, h₄) = bind-ok (connection.parse_timestamp text) _ tt h₃ in
      let (u₅, e₅, h₅) = bind-ok (refuse_if (ltb now at) _) _ tt h₄ in
      let healthy = refuse_if-ok (not (text_eq state.status (codes "healthy"))) _ u₁ e₁ in
      let full =
        refuse_if-ok (checker.require_full_dataset && not (is_one state.dataset_version)) _ u₂ e₂ in
      let past = refuse_if-ok (ltb now at) _ u₅ e₅ in
      let fresh =
        refuse_if-ok (ltb checker.max_staleness (now - at) && blocks_stale checker.on_stale) _ tt
          h₅ in
      (
        text,
        at,
        (
          (text_eq_iff state.status (codes "healthy")).0 (not-false _ healthy),
          (λ r. is_one-some state.dataset_version (ground arith)),
          success_of-ok ecosystem state.last_success_at text e₃,
          e₄,
          ground arith,
          λ b. ground arith,
        ),
      )

  IsFresh-check_state :
      (ecosystem : Text) (state : SyncState) (text : Text) (synced_at : ℕ)
      → IsFresh state text synced_at
      → check_state connection checker now ecosystem state ≡ ok tt
  unfolding check_state check_age
  IsFresh-check_state ecosystem state text synced_at
        (healthy, full, some_text, parsed, past, fresh) =
      let e₁ = (text_eq_iff state.status (codes "healthy")).1 healthy in
      let e₂ : (checker.require_full_dataset && not (is_one state.dataset_version)) ≡ false =
        ground arith in
      let e₃ : ltb now synced_at ≡ false = ground arith in
      let e₄ : (ltb checker.max_staleness (now - synced_at) && blocks_stale checker.on_stale)
          ≡ false =
        ground arith in
      rw (e₁, e₂, some_text, parsed, e₃, e₄, check_state, check_age) refl

  -- The store passes exactly where it is healthy.
  pub ensure_store_healthy_iff :
      (ecosystem : Text)
      → (ensure_store_healthy connection checker now ecosystem ≡ ok tt) ↔ IsHealthy ecosystem
  unfolding ensure_store_healthy
  ensure_store_healthy_iff ecosystem = (
    (λ h.
        let (row, e₁, h₁) = bind-ok (connection.sync_state ecosystem) _ tt h in
        let (state, e₂, h₂) = bind-ok (row_of ecosystem row) _ tt h₁ in
        let (text, at, fresh) = check_state-IsFresh ecosystem state h₂ in
        (state, text, at, (e₁ ∙ ap ok (row_of-ok ecosystem row state e₂)), fresh)),
    (λ (state, text, at, e, fresh). rw (e, IsFresh-check_state ecosystem state text at fresh) refl),
  )

Evaluated-cases :
    {A : Type 0} (r : Evaluated A) → ((a : A) × (r ≡ ok a)) ⊎ ((e : OsvError) × (r ≡ err e))
Evaluated-cases (ok a) = inl (a, refl)
Evaluated-cases (err e) = inr (e, refl)

module _ {F : Type 0} (std : Platform F) (matches : Artifact → StoredRange F → Evaluated Bool)
    (connection : Connection F) (checker : SqliteMaliciousChecker) (now : ℕ) where
  unhealthy_fails :
      (artifact : Artifact)
      → ¬ IsHealthy connection checker now (osv_name artifact.ecosystem)
      → (e : OsvError) × (check_with_connection std matches connection checker now artifact ≡ err e)
  unfolding check_with_connection
  unhealthy_fails artifact h =
      elim (Evaluated-cases
        (ensure_store_healthy connection checker now (osv_name artifact.ecosystem))) [
          | inl (u, e) ↦ absurd (
              h (
                (ensure_store_healthy_iff connection checker now (osv_name artifact.ecosystem)).0
                  e))
          | inr (x, e) ↦ (x, rw (e, check_with_connection) refl)
        ]

  -- An artifact that the policy checks is blocked where the store of its ecosystem is not healthy and
  -- the configuration blocks on errors, and the result is not to be cached.
  pub unhealthy_blocks :
      (config : Config F) (show : OsvError → Text) (artifact : Artifact) (time : ℕ)
      (m : PolicyCacheMetadata)
      → ¬ IsHealthy connection checker now (osv_name artifact.ecosystem)
      → should_check_osv std config artifact ≡ true
      → config.policy.osv.on_error ≡ OsvErrorBehavior.block
      → (d : Decision F) × (evaluate std config
            (λ a.
              to_checked std matches connection checker now show
                (check_with_connection std matches connection checker now a))
            artifact
            time
            (some m)
          ≡ some (d, some (record m { cacheable = false })))
        × (d.allowed ≡ false)
  unfolding evaluate
  unhealthy_blocks config show artifact time m h c b =
      let (x, e) = unhealthy_fails artifact h in
      let r =
        to_checked std matches connection checker now show
          (check_with_connection std matches connection checker now artifact) in
      let asked : (if should_check_osv std config artifact then some r else none)
          ≡ some (failed (show x)) =
        rw (c, e) refl in
      let (d, decided, denied, source, reason₁, reason₂) =
        failure_blocks std config artifact time
          (if should_check_osv std config artifact then some r else none) m c b
          (inr (show x, asked)) in
      (d, decided, denied)
