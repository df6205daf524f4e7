-- ===== src/Retry.antt =====
-- The background sync of src/server.rs: `background_retry_delay`, and what one round of the loop of
-- `spawn_background_osv_sync_with_policy` makes of its state, with the report of src/malicious.rs. A
-- `Duration` is a number of nanoseconds; `max_duration` is the longest one, which `checked_mul` does
-- not pass.
pub mod Laws
mod Tests
use osv_proxy.Common.{
  ℕ, zero, suc, ◌+◌, ◌-◌, ◌*◌, ◌/◌, ltb, leb, min, Bool, List, [], ◌∷◌, is_empty, filter, any,
  if◌then◌else◌, Text, text_eq,
}
use osv_proxy.Artifact.{Ecosystem, npm, pypi, go, crates_io, nuget, ruby_gems, maven, osv_name}

pub record BackgroundRetryPolicy : Type 0 where
  pub initial : ℕ
  pub maximum : ℕ

-- `1 << exponent`, for an exponent of at most 16.
unfoldable pub shift_one : ℕ → ℕ
shift_one zero = 1
shift_one (suc exponent) = 2 * shift_one exponent

abbrev pub larger : ℕ → ℕ → ℕ
larger a b = if ltb a b then b else a

-- `initial.checked_mul(multiplier).unwrap_or(maximum)`.
abbrev pub multiplied : ℕ → BackgroundRetryPolicy → ℕ → ℕ
multiplied max_duration policy multiplier =
    if leb (policy.initial * multiplier) max_duration
    then policy.initial * multiplier
    else policy.maximum

unfoldable pub background_retry_delay : ℕ → ℕ → ℕ → BackgroundRetryPolicy → ℕ
unfolding shift_one
background_retry_delay max_duration sync_interval consecutive_failures policy =
    min
      (min (multiplied max_duration policy (shift_one (min (consecutive_failures - 1) 16)))
        policy.maximum)
      (larger (sync_interval / 2) 1000000)

pub record OsvSyncEcosystemFailure : Type 0 where
  pub ecosystem : Text
  pub error : Text

-- `Report` is the report of one ecosystem.
pub record OsvSyncReport (Report : Type 0) : Type 0 where
  pub ecosystems : List Report
  pub failures : List OsvSyncEcosystemFailure

abbrev pub all_osv_ecosystems : List Ecosystem
all_osv_ecosystems = npm ∷ pypi ∷ go ∷ crates_io ∷ nuget ∷ ruby_gems ∷ maven ∷ []

abbrev pub failed_in : List OsvSyncEcosystemFailure → Ecosystem → Bool
failed_in failures ecosystem =
    any (λ failure. text_eq failure.ecosystem (osv_name ecosystem)) failures

unfoldable pub failed_ecosystems : {R : Type 0} → OsvSyncReport R → List Ecosystem
failed_ecosystems report = filter (failed_in report.failures) all_osv_ecosystems

-- The loop's variables.
pub record SyncLoop : Type 0 where
  pub requested : List Ecosystem
  pub consecutive_failures : ℕ

abbrev pub first_round : SyncLoop
first_round = record { requested = all_osv_ecosystems; consecutive_failures = 0 }

-- `sync_osv_ecosystems`'s result.
pub data SyncResult (R : Type 0) : Type 0 where
  synced : OsvSyncReport R → SyncResult R
  failed : Text → SyncResult R

-- `saturating_add(1)` on a `u32`.
abbrev pub count_one_more : ℕ → ℕ
count_one_more n = min (n + 1) 4294967295

module _ (max_duration sync_interval : ℕ) (policy : BackgroundRetryPolicy) where
  abbrev retry_after : ℕ → ℕ
  retry_after failures = background_retry_delay max_duration sync_interval failures policy

  -- One round: how long the loop sleeps, and its variables afterwards.
  unfoldable pub sync_round : {R : Type 0} → SyncResult R → SyncLoop → ℕ × SyncLoop
  unfolding background_retry_delay failed_ecosystems
  sync_round (synced report) loop =
      if is_empty report.failures then (sync_interval, first_round) else (
        retry_after (count_one_more loop.consecutive_failures),
        record {
          requested = failed_ecosystems report;
          consecutive_failures = count_one_more loop.consecutive_failures;
        },
      )
  sync_round (failed message) loop = (
    retry_after (count_one_more loop.consecutive_failures),
    record loop { consecutive_failures = count_one_more loop.consecutive_failures },
  )
