-- ===== src/Runtime/Tests.antt =====
-- Runs of the acquisitions of src/runtime.rs, and their theorems at concrete inputs.
use osv_proxy.Common.{◌≡◌, ◌↔◌, refl, true, none, List, [], ◌∷◌, In, ok, err}
use osv_proxy.Runtime.{
  BudgetError, Wait, granted, elapsed, track_request_overload, egress_saturated,
}
use osv_proxy.Runtime.Overload.{acquire_all, track_request_overload_iff}

abbrev waits : List Wait
waits = granted ∷ elapsed ∷ []

times_out : (track_request_overload (acquire_all waits)) ≡ (ok tt ∷ err egress_saturated ∷ [], true)
unfolding track_request_overload acquire_all
times_out = refl

track_request_overload_iff_example :
    let (results, overloaded) = track_request_overload (acquire_all waits) in
    (results ≡ (acquire_all waits none).0)
    × ((overloaded ≡ true) ↔ ((e : BudgetError) × In (err e) results))
track_request_overload_iff_example = track_request_overload_iff waits
