-- ===== src/Artifacts/Egress.antt =====
-- Of src/artifacts.rs: `ArtifactEgressPolicy` and `SafeResolver`. The set of origins of each
-- ecosystem is a set of pairs, and a set is a list.
use osv_proxy.Common.{
  Bool, true, false, not, ◌&&◌, ◌||◌, Option, none, some, List, [], ◌∷◌, ◌++◌, any, find,
  if◌then◌else◌, is_some, is_some_and, is_empty, Text, codes, text_eq, ascii_lowercase, trim_start,
  trim_end, Result, ok, err, ◌>>=◌,
}
use osv_proxy.Config.{Config}
use osv_proxy.Config.Net.{Url, UrlParse}
use osv_proxy.Artifact.{Ecosystem, ecosystem_eq, npm, pypi, go, crates_io, nuget, ruby_gems, maven}
use osv_proxy.Artifacts.Addresses.{IpAddr, is_forbidden_ip}

-- `Url::parse`, `origin().ascii_serialization()`, `parse::<IpAddr>` and its `Display`, and DNS.
pub record Network : Type 0 where
  pub parse_url : Text → UrlParse
  pub origin : Url → Text
  pub parse_ip : Text → Option IpAddr
  pub show_ip : IpAddr → Text
  pub lookup_host : Text → Result Text (List IpAddr)

pub record ArtifactEgressPolicy : Type 0 where
  pub trusted_origins : List (Ecosystem × Text)
  pub globally_trusted_origins : List Text
  pub trusted_hosts : List Text

abbrev is_http : Url → Bool
is_http u = text_eq u.scheme (codes "http") || text_eq u.scheme (codes "https")

abbrev holds : List Text → Text → Bool
holds set x = any (λ y. text_eq y x) set

abbrev pub filled : Option Text → Text → Text
filled none default = default
filled (some x) default = x

module _ (net : Network) where
  unfoldable pub normalized_origin : Url → Option Text
  normalized_origin u =
      if is_http u && not (text_eq (net.origin u) (codes "null")) then some (net.origin u) else none

  abbrev added : {A : Type 0} → Option A → List A → List A
  added none xs = xs
  added (some x) xs = x ∷ xs

  abbrev lower_host : Url → Option Text
  lower_host u = elim u.host_str [ none ↦ none | some h ↦ some (ascii_lowercase h) ]

  abbrev tagged : Ecosystem → Option Text → Option (Ecosystem × Text)
  tagged e none = none
  tagged e (some o) = some (e, o)

  -- The two loops of `from_config`: a value that is no URL is passed over.
  unfoldable pub trust_upstreams :
      List (Ecosystem × Text) → ArtifactEgressPolicy → ArtifactEgressPolicy
  unfolding normalized_origin
  trust_upstreams [] policy = policy
  trust_upstreams ((e, value) ∷ configured) policy = elim (net.parse_url value) [
    | UrlParse.failed error ↦ trust_upstreams configured policy
    | UrlParse.url u ↦ trust_upstreams configured (record policy {
      trusted_origins = added (tagged e (normalized_origin u)) policy.trusted_origins;
      trusted_hosts = added (lower_host u) policy.trusted_hosts;
    })
  ]

  unfoldable pub trust_globally : List Text → ArtifactEgressPolicy → ArtifactEgressPolicy
  unfolding normalized_origin
  trust_globally [] policy = policy
  trust_globally (value ∷ configured) policy = elim (net.parse_url value) [
    | UrlParse.failed error ↦ trust_globally configured policy
    | UrlParse.url u ↦ trust_globally configured (record policy {
      globally_trusted_origins = added (normalized_origin u) policy.globally_trusted_origins;
      trusted_hosts = added (lower_host u) policy.trusted_hosts;
    })
  ]

  unfoldable pub from_config : {F : Type 0} → Config F → ArtifactEgressPolicy
  unfolding trust_upstreams trust_globally
  from_config config = trust_globally config.artifacts.trusted_origins (
      trust_upstreams
        ((npm, config.upstreams.npm_registry_url)
          ∷ (pypi, config.upstreams.pypi_simple_url)
          ∷ (go, config.upstreams.go_proxy_url)
          ∷ (crates_io, config.upstreams.cargo_sparse_index_url)
          ∷ (crates_io, config.upstreams.cargo_download_url)
          ∷ (nuget, config.upstreams.nuget_service_index_url)
          ∷ (ruby_gems, config.upstreams.rubygems_registry_url)
          ∷ (maven, config.upstreams.maven_repository_url)
          ∷ [])
        (record { trusted_origins = []; globally_trusted_origins = []; trusted_hosts = [] }))

  module _ (policy : ArtifactEgressPolicy) where
    unfoldable pub host_is_trusted : Text → Bool
    host_is_trusted host = holds policy.trusted_hosts (ascii_lowercase host)

    unfoldable pub is_trusted_origin : Ecosystem → Text → Bool
    unfolding text_eq
    is_trusted_origin e origin =
        holds policy.globally_trusted_origins origin
        || any (λ t. ecosystem_eq t.0 e && text_eq t.1 origin) policy.trusted_origins

    abbrev pub refuse_if : Bool → Text → Result Text (Unit {0})
    refuse_if true message = err message
    refuse_if false message = ok tt

    abbrev pub required : {A : Type 0} → Option A → Text → Result Text A
    required none message = err message
    required (some a) message = ok a

    abbrev pub is_forbidden_host : Text → Bool
    is_forbidden_host host =
        is_some_and (net.parse_ip (trim_end b']' (trim_start b'[' host))) is_forbidden_ip

    abbrev shown_ip : Text → Text
    shown_ip host = elim (net.parse_ip (trim_end b']' (trim_start b'[' host))) [
      | none ↦ []
      | some ip ↦ net.show_ip ip
    ]

    -- From the test of the scheme on, where `trusted` is `trusted_origin`.
    unfoldable pub validate_host : Bool → Url → Result Text (Unit {0})
    unfolding host_is_trusted text_eq trim_start trim_end
    validate_host trusted u = do
      _ ←
          refuse_if (text_eq u.scheme (codes "http") && not trusted)
            (codes "unencrypted HTTP is allowed only for a configured trusted origin")
      host ← required u.host_str (codes "artifact URL has no host")
      _ ← refuse_if (host_is_trusted host && not trusted) (
          codes "configured trusted host "
          ++ (host ++ codes " may be used only through an exact configured origin"))
      _ ←
          refuse_if (text_eq (ascii_lowercase host) (codes "localhost") && not trusted)
            (codes "localhost is not a trusted artifact origin")
      refuse_if (is_forbidden_host host && not trusted) (
          codes "non-public address "
          ++ (shown_ip host ++ codes " is not a trusted artifact origin"))

    unfoldable pub validate_url : Ecosystem → Url → Result Text (Unit {0})
    unfolding normalized_origin is_trusted_origin validate_host
    validate_url e u = do
      _ ←
          refuse_if (not (is_empty u.username) || is_some u.password)
            (codes "URLs containing credentials are not allowed")
      _ ← refuse_if (is_some u.fragment) (codes "URL fragments are not allowed")
      origin ←
          required (normalized_origin u) (codes "URL must use http or https and contain a host")
      validate_host (is_trusted_origin e origin) u

    -- `SafeResolver::resolve`; `overrides` is empty outside of tests.
    abbrev first_forbidden : List IpAddr → Option IpAddr
    first_forbidden = find is_forbidden_ip

    unfoldable pub check_addresses : Text → List IpAddr → Result Text (List IpAddr)
    unfolding host_is_trusted
    check_addresses host addresses =
        if is_empty addresses
        then err (codes "DNS returned no addresses for " ++ host)
        else if host_is_trusted host
        then ok addresses
        else elim (first_forbidden addresses) [
          | none ↦ ok addresses
          | some ip ↦ err (
              codes "DNS for "
              ++ (host ++ (codes " returned forbidden non-public address " ++ net.show_ip ip)))
        ]

    unfoldable pub resolve : Text → Result Text (List IpAddr)
    unfolding check_addresses
    resolve name = do
      addresses ← net.lookup_host (ascii_lowercase name)
      check_addresses (ascii_lowercase name) addresses
