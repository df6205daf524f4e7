-- ===== src/Retry/Laws.antt =====
-- The bounds of the retry delays of src/server.rs, and what a round asks for next.
use osv_proxy.Common.{
  ℕ, zero, suc, ◌-◌, ◌*◌, ◌/◌, ◌≤◌, ◌<◌, ◌≡◌, ◌≢◌, ◌↔◌, refl, arith, min, true, false, List, [],
  ◌∷◌, is_empty, any, Text, text_eq, text_eq_iff, In, In-filter, Bool-cases, inl, inr,
}
use osv_proxy.Artifact.{Ecosystem, npm, pypi, go, crates_io, nuget, ruby_gems, maven, osv_name}
use osv_proxy.Retry.{
  BackgroundRetryPolicy, shift_one, larger, multiplied, background_retry_delay, OsvSyncReport,
  OsvSyncEcosystemFailure, all_osv_ecosystems, failed_in, failed_ecosystems, SyncLoop, synced,
  sync_round, count_one_more,
}

shift_one-pos : (e : ℕ) → 0 < shift_one e
unfolding shift_one
shift_one-pos zero = omega arith
shift_one-pos (suc e) = omega (arith, shift_one-pos e)

shift_one-grows : (e e' : ℕ) → e ≤ e' → shift_one e ≤ shift_one e'
unfolding shift_one
shift_one-grows zero e' h = omega (arith, shift_one-pos e')
shift_one-grows (suc e) zero h = absurd (omega arith)
shift_one-grows (suc e) (suc e') h = omega (arith, shift_one-grows e e' (omega arith))

module _ (max_duration sync_interval : ℕ) (policy : BackgroundRetryPolicy) where
  multiplied-grows :
      (m m' : ℕ)
      → m ≤ m'
      → min (multiplied max_duration policy m) policy.maximum
        ≤ min (multiplied max_duration policy m') policy.maximum
  multiplied-grows m m' h =
      let more : policy.initial * m ≤ policy.initial * m' = grind arith in ground (arith, more)

  -- A retry waits no longer than the policy's maximum and than half the normal interval, or a
  -- millisecond where that is longer; it waits at all where the policy's times are positive; and it
  -- never waits less after more failures.
  pub background_retry_delay-bounds :
      (failures failures' : ℕ)
      → failures ≤ failures'
      → (background_retry_delay max_duration sync_interval failures policy ≤ policy.maximum)
        × (background_retry_delay max_duration sync_interval failures policy
            ≤ larger (sync_interval / 2) 1000000)
        × (0 < policy.initial
            → 0 < policy.maximum
            → 0 < background_retry_delay max_duration sync_interval failures policy)
        × (background_retry_delay max_duration sync_interval failures policy
            ≤ background_retry_delay max_duration sync_interval failures' policy)
  unfolding background_retry_delay
  background_retry_delay-bounds failures failures' h =
      let e : ℕ = min (failures - 1) 16 in
      let e' : ℕ = min (failures' - 1) 16 in
      let more =
        multiplied-grows (shift_one e) (shift_one e') (shift_one-grows e e' (omega arith)) in
      let s = shift_one-pos e in
      (
        omega arith,
        omega arith,
        (λ i m. let p : 0 < policy.initial * shift_one e = grind arith in ground (arith, p)),
        omega (arith, more),
      )

osv_name-In : (e : Ecosystem) → In e all_osv_ecosystems
osv_name-In npm = inl refl
osv_name-In pypi = inr (inl refl)
osv_name-In go = inr (inr (inl refl))
osv_name-In crates_io = inr (inr (inr (inl refl)))
osv_name-In nuget = inr (inr (inr (inr (inl refl))))
osv_name-In ruby_gems = inr (inr (inr (inr (inr (inl refl)))))
osv_name-In maven = inr (inr (inr (inr (inr (inr (inl refl))))))

any-In :
    (failures : List OsvSyncEcosystemFailure) (name : Text)
    → (any (λ (f : OsvSyncEcosystemFailure). text_eq f.ecosystem name) failures ≡ true)
      ↔ ((f : OsvSyncEcosystemFailure) × In f failures × (f.ecosystem ≡ name))
any-In [] name = ((λ h. absurd (ground arith)), (λ (f, i, e). elim i [ ]))
any-In (x ∷ failures) name = (
  (λ h. elim (Bool-cases (text_eq x.ecosystem name)) [
    | inl e ↦ (x, inl refl, (text_eq_iff x.ecosystem name).0 e)
    | inr e ↦ let (f, i, q) = (any-In failures name).0 (ground (arith, e)) in (f, inr i, q)
  ]),
  (λ (f, i, e). elim i [
    | inl q ↦ ground (arith, (text_eq_iff x.ecosystem name).1 (rw (← q) e))
    | inr j ↦ ground (arith, (any-In failures name).1 (f, j, e))
  ]),
)

-- After a round with failures, the loop asks for exactly the ecosystems that a failure names, and
-- counts one more failure.
pub sync_round-requests :
    {R : Type 0} (max_duration sync_interval : ℕ) (policy : BackgroundRetryPolicy)
    (report : OsvSyncReport R) (loop : SyncLoop) (e : Ecosystem)
    → report.failures ≢ []
    → ((In e (sync_round max_duration sync_interval policy (synced report) loop).1.requested)
        ↔ ((f : OsvSyncEcosystemFailure) × In f report.failures × (f.ecosystem ≡ osv_name e)))
      × ((sync_round max_duration sync_interval policy (synced report) loop).1.consecutive_failures
          ≡ count_one_more loop.consecutive_failures)
unfolding sync_round failed_ecosystems
sync_round-requests max_duration sync_interval policy report loop e some_failed =
    let busy : is_empty report.failures ≡ false = ground (arith, some_failed) in
    let (f, g) = In-filter (failed_in report.failures) all_osv_ecosystems e in
    let (p, q) = any-In report.failures (osv_name e) in
    rw (busy, sync_round) (((λ i. p (f i).1), (λ k. g (osv_name-In e, q k))), refl)
