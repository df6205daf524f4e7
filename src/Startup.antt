-- ===== src/Startup.antt =====
-- What a configuration that `Config::load` of src/config.rs accepted guarantees to the parts that run
-- under it: the policy engine of src/policy.rs and the metadata cache of src/metadata_cache.rs.
mod Tests
use osv_proxy.Common.{ℕ, ◌+◌, ◌*◌, ◌≤◌, ◌<◌, ◌≡◌, ◌↔◌, true, Option, none, some, arith}
use osv_proxy.Common.Equality.{usize_max}
use osv_proxy.Platform.{Platform}
use osv_proxy.Artifact.{Artifact}
use osv_proxy.Config.{Config}
use osv_proxy.Config.Net.{Net}
use osv_proxy.Config.Validate.{ok}
use osv_proxy.Config.Addresses.{validate}
use osv_proxy.Config.Validity.{IsValid, validate-ok_iff}
use osv_proxy.Policy.Decisions.{Decision, Scope}
use osv_proxy.Policy.{Checked, evaluate_with_malicious_result}
use osv_proxy.Policy.Gates.{Admits}
use osv_proxy.Policy.Admission.{HasClock, evaluate-allows_iff}
use osv_proxy.MetadataCache.Response.{MetadataCacheKey}
use osv_proxy.MetadataCache.StoreLaws.{Cells, Holds}
use osv_proxy.MetadataCache.System.{System, Reachable, Looked}
use osv_proxy.MetadataCache.SystemLaws.{Reachable-Looked}

module _ {F : Type 0} (net : Net) (std : Platform F) (config : Config F)
    (accepted : validate net std config ≡ ok) where
  valid : IsValid net std config
  valid = (validate-ok_iff net std config).0 accepted

  -- No publication time, or one that chrono can add `minimum_age` to.
  abbrev pub IsDated : Option ℕ → Type 0
  IsDated none = Unit
  IsDated (some t) = t + config.policy.minimum_age ≤ std.max_time

  clock_of_dated : (artifact : Artifact) (p : Option ℕ) → IsDated p → HasClock std config artifact p
  clock_of_dated artifact none d = valid.minimum_age
  clock_of_dated artifact (some t) d = (valid.minimum_age, d)

  -- Under an accepted configuration, an evaluation of an artifact whose publication time is not
  -- within `minimum_age` of the end of chrono's times never panics, and allows exactly the
  -- artifacts that the policy admits.
  pub accepted-decides :
      (artifact : Artifact) (now : ℕ) (r : Option (Checked F)) (scope : Scope)
      → IsDated artifact.published_at
      → (d : Decision F) × (scope' : Scope) × (evaluate_with_malicious_result std config artifact
            now r scope
          ≡ some (d, scope'))
        × ((d.allowed ≡ true) ↔ Admits std config artifact now r)
  accepted-decides artifact now r scope dated =
      evaluate-allows_iff std config artifact now r scope
        (clock_of_dated artifact artifact.published_at dated)

  -- Under an accepted configuration, the weights in the metadata cache never exceed 4 GiB, and however the
  -- requests interleave, a lookup never panics and is sound.
  pub accepted-Looked :
      (key_size response_size : ℕ) (s : System) (key : MetadataCacheKey) (now : ℕ)
      → Reachable key_size response_size config.metadata_cache s
      → (l : Cells) × Holds s.cache.state l
        × (s.cache.state.total_weight ≤ 4294967296)
        × Looked key now l s.leaders s.cache
  accepted-Looked key_size response_size s key now r =
      let (l, held, fits, look) =
        Reachable-Looked key_size response_size config.metadata_cache s key now
          (omega (arith, valid.metadata_cache.capacity)) r in
      (l, held, omega (arith, fits, valid.metadata_cache.capacity), look)
