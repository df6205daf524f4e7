-- ===== src/Runtime.antt =====
-- src/runtime.rs: the acquisition of permits for upstream requests, and the flag of overloaded
-- requests. The semaphores are tokio's: how the wait for a permit ends is an argument.
pub mod Overload
mod Tests
use osv_proxy.Common.{
  ℕ, suc, ◌-◌, ◌==◌, Bool, true, false, Option, none, some, List, [], ◌∷◌, if◌then◌else◌,
  map_option, Result, ok, err,
}

pub data BudgetError : Type 0 where
  ingress_saturated egress_saturated background_sync_saturated closed : BudgetError

-- How the wait of `acquire_with_timeout` ends: with a permit, with the timeout, or with a semaphore
-- that has been closed.
pub data Wait : Type 0 where
  granted elapsed shut : Wait

unfoldable pub acquire_with_timeout : BudgetError → Wait → Result BudgetError (Unit {0})
acquire_with_timeout saturated granted = ok tt
acquire_with_timeout saturated elapsed = err saturated
acquire_with_timeout saturated shut = err closed

-- The task-local `REQUEST_OVERLOADED`: `none` outside of every scope, where `try_with` does nothing.
abbrev pub Flag : Type 0
Flag = Option Bool

abbrev raise : Flag → Flag
raise none = none
raise (some overloaded) = some true

abbrev note_failure : Result BudgetError (Unit {0}) → Flag → Flag
note_failure (ok u) flag = flag
note_failure (err e) flag = raise flag

unfoldable pub install_egress : Wait → Flag → Result BudgetError (Unit {0}) × Flag
unfolding acquire_with_timeout
install_egress wait flag =
    let result = acquire_with_timeout egress_saturated wait in (result, note_failure result flag)

unfoldable pub background_egress : Wait → Flag → Result BudgetError (Unit {0}) × Flag
unfolding acquire_with_timeout
background_egress wait flag = (acquire_with_timeout background_sync_saturated wait, flag)

-- `track_request_overload`: the future runs in a scope of its own, whose flag is read at the end.
abbrev flag_of : Flag → Bool
flag_of none = false
flag_of (some overloaded) = overloaded

unfoldable pub track_request_overload : {A : Type 0} → (Flag → A × Flag) → A × Bool
track_request_overload future = let (output, flag) = future (some false) in (output, flag_of flag)
