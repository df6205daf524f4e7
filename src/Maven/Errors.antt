-- ===== src/Maven/Errors.antt =====
-- `MavenError` of src/maven.rs, as far as the modelled functions return it.
use osv_proxy.Common.{Text, Result}

pub data MavenError : Type 0 where
  invalid_package_name invalid_coordinate invalid_version : Text → MavenError
  invalid_artifact_path snapshots_unsupported : Text → MavenError

abbrev pub Outcome : Type 0 → Type 0
Outcome = Result MavenError
