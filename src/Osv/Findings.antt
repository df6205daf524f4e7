-- ===== src/Osv/Findings.antt =====
-- Of src/malicious.rs: `consolidate_local_findings` and `effective_osv_severity`. A `BTreeMap` is a
-- list in the order of its keys. What the `cvss` package reads of a vector is an argument.
pub mod Consolidated
pub mod Severity
pub mod Highest
mod Tests
use osv_proxy.Common.{
  ℕ, Bool, true, false, not, ◌&&◌, ◌||◌, Option, none, some, Ordering, List, [], ◌∷◌, map,
  if◌then◌else◌, is_some, is_empty, then_with, Text, codes, text_eq, text_cmp, Result, ok, err,
  ◌>>=◌,
}
use osv_proxy.Platform.{Platform, score_eq}
use osv_proxy.Finding.{OsvFinding, OsvEffectiveSeverity}

abbrev is_lt : Ordering → Bool
is_lt Ordering.lt = true
is_lt Ordering.eq = false
is_lt Ordering.gt = false

module _ {F : Type 0} (std : Platform F) where
  -- `a > b` on `f64`.
  abbrev score_gt : F → F → Bool
  score_gt a b = elim (std.partial_cmp a b) [
    | none ↦ false
    | some o ↦ elim o [ Ordering.lt ↦ false | Ordering.eq ↦ false | Ordering.gt ↦ true ]
  ]

  -- Whether the candidate replaces the current severity.
  unfoldable pub outranks : OsvEffectiveSeverity F → OsvEffectiveSeverity F → Bool
  outranks candidate current =
      score_gt candidate.base_score current.base_score
      || (score_eq std candidate.base_score current.base_score
          && is_lt (
              then_with (text_cmp candidate.severity_type current.severity_type)
                (text_cmp candidate.vector current.vector)))

  abbrev pub higher :
      Option (OsvEffectiveSeverity F)
      → Option (OsvEffectiveSeverity F)
      → Option (OsvEffectiveSeverity F)
  higher current none = current
  higher none (some candidate) = some candidate
  higher (some current) (some candidate) =
      if outranks candidate current then some candidate else some current

  abbrev pub first_error : Option Text → Option Text → Option Text
  first_error none e = e
  first_error (some e) later = some e

  -- The loop's body on the entry of the finding's id.
  unfoldable pub merge : OsvFinding F → OsvFinding F → OsvFinding F
  unfolding outranks
  merge entry finding = record entry {
    evaluation_error = first_error entry.evaluation_error finding.evaluation_error;
    effective_severity = higher entry.effective_severity finding.effective_severity;
  }

  -- One round of the loop: the entry is there, or is the finding itself.
  unfoldable pub add_finding :
      OsvFinding F → List (Text × OsvFinding F) → List (Text × OsvFinding F)
  unfolding merge
  add_finding f [] = (f.osv_id, merge f f) ∷ []
  add_finding f ((id, entry) ∷ by_id) = elim (text_cmp f.osv_id id) [
    | Ordering.lt ↦ (f.osv_id, merge f f) ∷ (id, entry) ∷ by_id
    | Ordering.eq ↦ (id, merge entry f) ∷ by_id
    | Ordering.gt ↦ (id, entry) ∷ add_finding f by_id
  ]

  unfoldable pub add_findings :
      List (OsvFinding F) → List (Text × OsvFinding F) → List (Text × OsvFinding F)
  unfolding add_finding
  add_findings [] by_id = by_id
  add_findings (f ∷ findings) by_id = add_findings findings (add_finding f by_id)

  -- `consolidate_local_findings`, which never fails.
  unfoldable pub consolidate_local_findings : List (OsvFinding F) → List (OsvFinding F)
  unfolding add_findings
  consolidate_local_findings findings = map (λ e. e.1) (add_findings findings [])

pub record OsvSeverity : Type 0 where
  pub severity_type : Text
  pub vector : Text

pub record OsvSeverityError : Type 0 where
  pub severity_type : Text
  pub vector : Text
  pub message : Text

pub data CvssVersion : Type 0 where
  v20 v30 v31 v40 : CvssVersion

abbrev is_cvss : Text → Bool
is_cvss t =
    text_eq t (codes "CVSS_V2") || text_eq t (codes "CVSS_V3") || text_eq t (codes "CVSS_V4")

abbrev version_matches : Text → CvssVersion → Bool
version_matches t v20 = text_eq t (codes "CVSS_V2")
version_matches t v30 = text_eq t (codes "CVSS_V3")
version_matches t v31 = text_eq t (codes "CVSS_V3")
version_matches t v40 = text_eq t (codes "CVSS_V4")

-- The severities of the package that matches, where there are any.
abbrev selected : List OsvSeverity → Option (List OsvSeverity) → List OsvSeverity
selected top_level none = top_level
selected top_level (some severity) = if is_empty severity then top_level else severity

module _ {F : Type 0} (std : Platform F) (cvss : Text → Result Text (CvssVersion × F)) where
  abbrev severity_error : OsvSeverity → Text → OsvSeverityError
  severity_error s message = record {
    severity_type = s.severity_type;
    vector = s.vector;
    message = message;
  }

  abbrev rated :
      OsvSeverity → Result Text (CvssVersion × F) → Result OsvSeverityError (OsvEffectiveSeverity F)
  rated s (err message) = err (severity_error s message)
  rated s (ok (version, score)) =
      if not (version_matches s.severity_type version)
      then err (severity_error s (codes "vector version does not match severity type"))
      else ok (record { severity_type = s.severity_type; vector = s.vector; base_score = score })

  unfoldable pub rate_all :
      List OsvSeverity
      → Option (OsvEffectiveSeverity F)
      → Result OsvSeverityError (Option (OsvEffectiveSeverity F))
  unfolding text_eq outranks
  rate_all [] effective = ok effective
  rate_all (s ∷ severities) effective =
      if not (is_cvss s.severity_type)
      then rate_all severities effective
      else (rated s (cvss s.vector)
          >>= (λ candidate. rate_all severities (higher std effective (some candidate))))

  unfoldable pub effective_osv_severity :
      List OsvSeverity
      → Option (List OsvSeverity)
      → Result OsvSeverityError (Option (OsvEffectiveSeverity F))
  unfolding rate_all
  effective_osv_severity top_level matching_package =
      rate_all (selected top_level matching_package) none
