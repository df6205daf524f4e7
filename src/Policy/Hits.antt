-- ===== src/Policy/Hits.antt =====
-- Which OSV findings block: `blocking_malicious_hit`, `blocking_vulnerability_hit`, and the choice
-- of the finding that could not be evaluated, src/policy.rs.
use osv_proxy.Common.{
  Bool, true, not, Option, none, some, List, Ordering, if◌then◌else◌, filter, is_some, is_some_and,
  map_option, min_by, codes, starts_with, text_cmp,
}
use osv_proxy.Platform.{Platform, score_ge, score_eq}
use osv_proxy.Config.{Config}
use osv_proxy.Finding.{OsvFinding}

module _ {F : Type 0} where
  -- `hit.osv_id.starts_with("MAL-")`.
  unfoldable pub is_malicious_id : OsvFinding F → Bool
  is_malicious_id hit = starts_with hit.osv_id (codes "MAL-")

  -- `left.osv_id.cmp(&right.osv_id)`.
  abbrev pub by_id : OsvFinding F → OsvFinding F → Ordering
  by_id left right = text_cmp left.osv_id right.osv_id

  unfoldable pub blocking_malicious_hit : Config F → List (OsvFinding F) → Option (OsvFinding F)
  blocking_malicious_hit config hits =
      if config.policy.osv.block_malicious then min_by by_id (filter is_malicious_id hits) else none

  -- The first by its id among the findings that carry an evaluation error.
  unfoldable pub unevaluated_hit : List (OsvFinding F) → Option (OsvFinding F)
  unevaluated_hit hits = min_by by_id (filter (λ hit. is_some hit.evaluation_error) hits)

  unfoldable pub score_of : OsvFinding F → Option F
  score_of hit = map_option (λ s. s.base_score) hit.effective_severity

module _ {F : Type 0} (std : Platform F) where
  -- `Option<f64>::partial_cmp`: `None` is less than `Some`.
  abbrev pub option_cmp : Option F → Option F → Option Ordering
  option_cmp none none = some Ordering.eq
  option_cmp none (some _) = some Ordering.lt
  option_cmp (some _) none = some Ordering.gt
  option_cmp (some a) (some b) = std.partial_cmp a b

  -- `partial_cmp(…).unwrap_or(Ordering::Equal).then_with(…)`.
  abbrev pub or_then : Option Ordering → Ordering → Ordering
  or_then none next = next
  or_then (some Ordering.eq) next = next
  or_then (some o) next = o

  -- Higher scores first, then by id.
  unfoldable pub by_score : OsvFinding F → OsvFinding F → Ordering
  by_score left right =
      or_then (option_cmp (score_of right) (score_of left)) (text_cmp left.osv_id right.osv_id)

  -- `threshold == 0.0 || severity.base_score >= threshold`.
  unfoldable pub meets_threshold : F → OsvFinding F → Bool
  meets_threshold threshold hit =
      if score_eq std threshold std.zero_score
      then true
      else is_some_and (score_of hit) (λ s. score_ge std s threshold)

  unfoldable pub blocking_vulnerability_hit : Config F → List (OsvFinding F) → Option (OsvFinding F)
  blocking_vulnerability_hit config hits =
      if not config.policy.osv.block_vulnerabilities
      then none
      else min_by by_score (
          filter (meets_threshold config.policy.osv.minimum_cvss_score) (
            filter (λ hit. not (is_some hit.evaluation_error))
              (filter (λ hit. not (is_malicious_id hit)) hits)))
