-- ===== src/Runtime/Overload.antt =====
-- When a request counts as overloaded.
use osv_proxy.Common.{
  Result, ok, err, err-ne-ok, ap, any, ◌||◌, none, ◌≡◌, refl, ◌↔◌, Bool, true, false, some, List,
  [], ◌∷◌, In, arith, inl, inr,
}
use osv_proxy.Runtime.{
  BudgetError, acquire_with_timeout, Wait, granted, elapsed, shut, Flag, install_egress,
  track_request_overload,
}

-- What a request keeps of its waits for upstream permits: their outcomes, in order.
unfoldable pub acquire_all : List Wait → Flag → List (Result BudgetError (Unit {0})) × Flag
unfolding install_egress
acquire_all [] flag = ([], flag)
acquire_all (wait ∷ waits) flag =
    let (result, flag') = install_egress wait flag in
    let (results, flag'') = acquire_all waits flag' in (result ∷ results, flag'')

abbrev pub is_err : Result BudgetError (Unit {0}) → Bool
is_err (ok u) = false
is_err (err e) = true

acquire_all-flag :
    (waits : List Wait) (b : Bool)
    → (acquire_all waits (some b)).1 ≡ some (b || any is_err (acquire_all waits (some b)).0)
unfolding acquire_all install_egress acquire_with_timeout
acquire_all-flag [] b = ground arith
acquire_all-flag (granted ∷ waits) b = ground (arith, acquire_all-flag waits b)
acquire_all-flag (elapsed ∷ waits) b = ground (arith, acquire_all-flag waits true)
acquire_all-flag (shut ∷ waits) b = ground (arith, acquire_all-flag waits true)

acquire_all-results :
    (waits : List Wait) (f g : Flag) → (acquire_all waits f).0 ≡ (acquire_all waits g).0
unfolding acquire_all
acquire_all-results [] f g = refl
acquire_all-results (wait ∷ waits) f g =
    ap (λ results. (install_egress wait f).0 ∷ results)
      (acquire_all-results waits (install_egress wait f).1 (install_egress wait g).1)

any-is_err :
    (results : List (Result BudgetError (Unit {0})))
    → (any is_err results ≡ true) ↔ ((e : BudgetError) × In (err e) results)
any-is_err [] = ((λ h. ground arith), (λ h. absurd h.1))
any-is_err (ok u ∷ results) = (
  (λ h. let (e, i) = (any-is_err results).0 h in (e, inr i)),
  (λ (e, i). elim i [ inl k ↦ absurd (err-ne-ok e u k) | inr k ↦ (any-is_err results).1 (e, k) ]),
)
any-is_err (err e ∷ results) = ((λ h. (e, inl refl)), (λ h. refl))

-- A tracked request that acquires upstream permits counts as overloaded exactly where one of its
-- acquisitions fails, and its own results are kept.
pub track_request_overload_iff :
    (waits : List Wait)
    → let (results, overloaded) = track_request_overload (acquire_all waits) in
      (results ≡ (acquire_all waits none).0)
      × ((overloaded ≡ true) ↔ ((e : BudgetError) × In (err e) results))
unfolding track_request_overload
track_request_overload_iff waits = (
  acquire_all-results waits (some false) none,
  rw (acquire_all-flag waits false) (any-is_err (acquire_all waits (some false)).0),
)
