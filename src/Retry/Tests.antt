-- ===== src/Retry/Tests.antt =====
-- Runs of the retries of src/server.rs.
use osv_proxy.Common.{ℕ, ◌/◌, ◌≤◌, ◌<◌, ◌≡◌, ◌↔◌, refl, arith, In, [], ◌∷◌, codes, ◌≢◌}
use osv_proxy.Artifact.{go, osv_name}
use osv_proxy.Retry.{
  BackgroundRetryPolicy, background_retry_delay, shift_one, larger, sync_round, first_round, synced,
  OsvSyncReport, OsvSyncEcosystemFailure, count_one_more,
}
use osv_proxy.Retry.Laws.{background_retry_delay-bounds, sync_round-requests}

-- `BACKGROUND_RETRY_POLICY`: 5 seconds, up to 5 minutes.
abbrev policy : BackgroundRetryPolicy
policy = record { initial = 5000000000; maximum = 300000000000 }

abbrev hour : ℕ
hour = 3600000000000

abbrev longest : ℕ
longest = 18446744073709551615999999999

third_retry : background_retry_delay longest hour 3 policy ≡ 20000000000
unfolding background_retry_delay shift_one
third_retry = refl

background_retry_delay-bounds_example :
    (background_retry_delay longest hour 2 policy ≤ policy.maximum)
    × (background_retry_delay longest hour 2 policy ≤ larger (hour / 2) 1000000)
    × (0 < policy.initial → 0 < policy.maximum → 0 < background_retry_delay longest hour 2 policy)
    × (background_retry_delay longest hour 2 policy ≤ background_retry_delay longest hour 9 policy)
background_retry_delay-bounds_example =
    background_retry_delay-bounds longest hour policy 2 9 (omega arith)

abbrev timeout : OsvSyncEcosystemFailure
timeout = record { ecosystem = codes "Go"; error = codes "timeout" }

abbrev report : OsvSyncReport ℕ
report = record { ecosystems = 1 ∷ []; failures = timeout ∷ [] }

some_failed : report.failures ≢ []
some_failed e = ground arith

sync_round-requests_example :
    ((In go (sync_round longest hour policy (synced report) first_round).1.requested)
      ↔ ((f : OsvSyncEcosystemFailure) × In f report.failures × (f.ecosystem ≡ osv_name go)))
    × ((sync_round longest hour policy (synced report) first_round).1.consecutive_failures
        ≡ count_one_more 0)
sync_round-requests_example =
    sync_round-requests longest hour policy report first_round go some_failed
