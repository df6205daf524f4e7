-- ===== src/Finding.antt =====
-- `OsvFinding` (`MaliciousHit` of the policy) and its parts, src/malicious.rs.
use osv_proxy.Common.{ℕ, Option, Text}

pub record OsvEffectiveSeverity (F : Type 0) : Type 0 where
  pub severity_type : Text
  pub vector : Text
  pub base_score : F

pub record OsvFinding (F : Type 0) : Type 0 where
  pub osv_id : Text
  pub summary : Option Text
  pub source : Text
  pub modified : Option ℕ
  pub effective_severity : Option (OsvEffectiveSeverity F)
  pub evaluation_error : Option Text
