-- ===== src/Osv/Findings/Tests.antt =====
-- Runs of the consolidation of findings, and its theorems at concrete inputs.
use osv_proxy.Common.{
  ℕ, arith, compare, ◌≡◌, refl, Option, none, some, List, [], ◌∷◌, filter, find, ok, Text, codes,
  text_eq, if◌then◌else◌,
}
use osv_proxy.Finding.{OsvFinding, OsvEffectiveSeverity}
use osv_proxy.Policy.Tests.{std}
use osv_proxy.Osv.Findings.{consolidate_local_findings, effective_osv_severity, OsvSeverity, v31}
use osv_proxy.Osv.Findings.Consolidated.{Ascending}
use osv_proxy.Osv.Findings.Severity.{Consolidates}
use osv_proxy.Osv.Findings.Highest.{consolidate_local_findings-highest}

abbrev rated : Text → ℕ → OsvEffectiveSeverity ℕ
rated vector score = record { severity_type = codes "CVSS_V3"; vector = vector; base_score = score }

abbrev finding : Text → Option Text → Option (OsvEffectiveSeverity ℕ) → OsvFinding ℕ
finding id evaluation_error effective_severity = record {
  osv_id = id;
  summary = none;
  source = codes "osv";
  modified = none;
  effective_severity = effective_severity;
  evaluation_error = evaluation_error;
}

abbrev findings : List (OsvFinding ℕ)
findings =
    finding (codes "GHSA-2") none (some (rated (codes "low") 20))
    ∷ finding (codes "GHSA-1") none none
    ∷ finding (codes "GHSA-2") (some (codes "range")) (some (rated (codes "high") 90))
    ∷ []

merges :
    consolidate_local_findings std findings
    ≡ finding (codes "GHSA-1") none none
      ∷ finding (codes "GHSA-2") (some (codes "range")) (some (rated (codes "high") 90))
      ∷ []
unfolding consolidate_local_findings osv_proxy.Common.text_cmp
merges = refl

ranked : (a b : ℕ) → std.partial_cmp a b ≡ some (compare a b)
ranked a b = ground arith

consolidate_local_findings-highest_example :
    Ascending std (consolidate_local_findings std findings)
    × ((id : Text)
        → Consolidates
            (λ score. score)
            (filter (λ f. text_eq f.osv_id id) findings)
            (find (λ f. text_eq f.osv_id id) (consolidate_local_findings std findings)))
consolidate_local_findings-highest_example =
    consolidate_local_findings-highest (λ score. score) std findings
      (λ t c m n. ranked c.base_score t.base_score)

abbrev severity : Text → OsvSeverity
severity vector = record { severity_type = codes "CVSS_V3"; vector = vector }

rates :
    effective_osv_severity std
      (λ vector. if◌then◌else◌ (text_eq vector (codes "a")) (ok (v31, 50)) (ok (v31, 80)))
      (severity (codes "a") ∷ severity (codes "b") ∷ [])
      none
    ≡ ok (some (rated (codes "b") 80))
unfolding effective_osv_severity
rates = refl
