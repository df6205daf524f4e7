-- ===== src/Osv.antt =====
-- Of src/malicious.rs: the evaluation of an advisory's version ranges. The order of versions is the
-- argument `compare_boundary`, as it is there: the order of the artifact's version against a
-- boundary, which fails on a boundary that is no version.
pub mod RangeLaws
pub mod Findings
pub mod Versions
pub mod Checker
mod Tests
use osv_proxy.Common.{
  ℕ, Bool, true, false, not, ◌&&◌, ◌||◌, Ordering, List, [], ◌∷◌, ◌++◌, if◌then◌else◌, Text, codes,
  text_eq,
}
use osv_proxy.Artifact.{Artifact, identity}

-- `OsvError::RangeEvaluation`, with the package and the message, and `OsvError::LocalStore`.
pub data OsvError : Type 0 where
  range_evaluation : Text → Text → OsvError
  local_store : Text → OsvError

pub data Evaluated (A : Type 0) : Type 0 where
  ok : A → Evaluated A
  err : OsvError → Evaluated A

infixl 5 ◌>>=◌
abbrev pub ◌>>=◌ : {A B : Type 0} → Evaluated A → (A → Evaluated B) → Evaluated B
ok a >>= f = f a
err e >>= f = err e

pub record RangeEvent : Type 0 where
  pub event_type : Text
  pub version : Text

unfoldable pub range_error : Artifact → Text → OsvError
range_error artifact message = range_evaluation (identity artifact) message

abbrev pub is_less : Ordering → Bool
is_less Ordering.lt = true
is_less Ordering.eq = false
is_less Ordering.gt = false

abbrev pub is_greater : Ordering → Bool
is_greater Ordering.lt = false
is_greater Ordering.eq = false
is_greater Ordering.gt = true

module _ (artifact : Artifact) (compare_boundary : Text → Evaluated Ordering) where
  abbrev introduces : Text → Bool → Evaluated Bool
  introduces version affected =
      if text_eq version (codes "0")
      then ok true
      else (compare_boundary version >>= (λ o. ok (if is_less o then affected else true)))

  abbrev fixes : Text → Bool → Evaluated Bool
  fixes version false = ok false
  fixes version true = compare_boundary version >>= (λ o. ok (is_less o))

  abbrev lasts : Text → Bool → Evaluated Bool
  lasts version false = ok false
  lasts version true = compare_boundary version >>= (λ o. ok (not (is_greater o)))

  -- The loop's body: what one event makes of `affected`.
  unfoldable pub apply_event : RangeEvent → Bool → Evaluated Bool
  apply_event event affected =
      if text_eq event.event_type (codes "introduced")
      then introduces event.version affected
      else if text_eq event.event_type (codes "fixed") || text_eq event.event_type (codes "limit")
      then fixes event.version affected
      else if text_eq event.event_type (codes "last_affected")
      then lasts event.version affected
      else err (range_error artifact (codes "unsupported range event type " ++ event.event_type))

  unfoldable pub apply_events : List RangeEvent → Bool → Evaluated Bool
  apply_events [] affected = ok affected
  apply_events (event ∷ events) affected =
      apply_event event affected >>= (λ affected'. apply_events events affected')

  unfoldable pub evaluate_range_events : List RangeEvent → Evaluated Bool
  unfolding apply_events
  evaluate_range_events events = apply_events events false
