-- ===== src/Policy/Batch/Tests.antt =====
-- Runs of the batched evaluation, and its theorems at concrete inputs.
use osv_proxy.Common.{
  ℕ, ◌≡◌, refl, ◌++◌, List, [], ◌∷◌, true, arith, map, codes, Text, some, show_u64,
}
use osv_proxy.Artifact.{Artifact}
use osv_proxy.Policy.Decisions.{Decision, Scope}
use osv_proxy.Policy.Tests.{std, config, left_pad, scope}
use osv_proxy.Policy.{found, failed, blocks_on_error, should_check_osv, find_allowlist_entry}
use osv_proxy.Policy.Batch.{
  listed, check_many_default, evaluate_batch, evaluate_each, indexed_artifacts, enumerate,
  Cardinality,
}
use osv_proxy.Policy.Batch.Agreement.{asked, AllBlocked, evaluate_batch-each, evaluate_batch-fails}

abbrev two : List Artifact
two = left_pad ∷ record left_pad { version = codes "1.4.0" } ∷ []

abbrev message : Cardinality
message results artifacts = show_u64 results ++ codes " results"

abbrev missing : Text → Text
missing name = codes "missing: " ++ name

all_clean :
    check_many_default {F = ℕ} (λ a. found []) (asked std config two)
    ≡ listed (map (λ a. []) (asked std config two))
unfolding check_many_default indexed_artifacts enumerate should_check_osv find_allowlist_entry
all_clean = refl

evaluate_batch-each_example :
    evaluate_batch std config message missing (check_many_default (λ a. found [])) 250 two scope
    ≡ evaluate_each std config (λ a. found []) 250 two scope
evaluate_batch-each_example =
    evaluate_batch-each std config message missing (check_many_default (λ a. found [])) (λ a. [])
      250 two scope all_clean

both_asked : asked std config two ≡ two
unfolding indexed_artifacts enumerate should_check_osv find_allowlist_entry
both_asked = refl

evaluate_batch-fails_example :
    (e : Text) × (evaluate_batch std config message missing
        (λ artifacts. listed ([] ∷ []))
        250
        two
        scope
      ≡ evaluate_each std config (λ a. failed e) 250 two scope)
    × ((ds : List (Decision ℕ)) (scope' : Scope)
        → blocks_on_error config.policy.osv.on_error ≡ true
        → evaluate_batch std config message missing (λ artifacts. listed ([] ∷ [])) 250 two scope
          ≡ some (ds, scope')
        → AllBlocked std config two ds)
evaluate_batch-fails_example =
    evaluate_batch-fails std config message missing (λ artifacts. listed ([] ∷ [])) 250 two scope
      (rw both_asked (λ h. ground arith)) (rw both_asked (λ results h. ground arith))
