-- ===== src/Config/Addresses.antt =====
-- The addresses of src/config.rs: `validate_bind`, `validate_http_url`, `validate_trusted_origin` and
-- `validate_http_destination`, and `Config::validate` and `Config::load` as a whole.
use osv_proxy.Common.{
  ℕ, Bool, true, false, not, ◌&&◌, ◌||◌, ◌==◌, ltb, Option, none, some, [], ◌∷◌, ◌++◌,
  if◌then◌else◌, all, is_some, is_empty, Text, codes, text_eq, is_ascii_digit, rsplit_once,
  digits_value,
}
use osv_proxy.Platform.{Platform, delta_from_std}
use osv_proxy.Config.{Config, ArtifactBehavior, UpstreamsConfig}
use osv_proxy.Config.Net.{Net, Url, UrlParse}
use osv_proxy.Config.Validate.{
  unsupported, invalid, Validation, ok, err, ◌and_then◌, refuse_if, for_each, validate_limits,
  validate_metadata_cache, validate_osv, validate_allowed, validate_blocked, is_valid_dns_hostname,
  without_last, last_is,
}

-- `parse::<u16>().is_ok()`: digits, after a `+` if there is one.
abbrev pub without_plus : Text → Text
without_plus [] = []
without_plus (c ∷ s) = if c == b'+' then s else c ∷ s

unfoldable pub is_u16 : Text → Bool
is_u16 s =
    not (is_empty (without_plus s))
    && all is_ascii_digit (without_plus s)
    && ltb (digits_value 0 (without_plus s)) 65536

abbrev pub is_proxy_cache : ArtifactBehavior → Bool
is_proxy_cache ArtifactBehavior.redirect = false
is_proxy_cache ArtifactBehavior.proxy = false
is_proxy_cache ArtifactBehavior.proxy_cache_s3 = true

-- `strip_prefix('[')` and then `strip_suffix(']')`, or the host as it is.
abbrev pub without_brackets : Text → Text
without_brackets [] = []
without_brackets (c ∷ host) =
    if c == b'[' && last_is b']' host then without_last b']' host else c ∷ host

abbrev pub is_http : Url → Bool
is_http u = text_eq u.scheme (codes "http") || text_eq u.scheme (codes "https")

abbrev pub is_port_zero : Option ℕ → Bool
is_port_zero none = false
is_port_zero (some port) = port == 0

module _ (net : Net) where
  unfoldable pub validate_bind : Text → Validation
  validate_bind value = if net.is_socket_addr value then ok else elim (rsplit_once b':' value) [
    | none ↦ err (
        invalid
          (codes "server.bind " ++ (net.show_debug value ++ codes " must contain a host and port")))
    | some (host, port) ↦ refuse_if (not (is_valid_dns_hostname host) || not (is_u16 port)) (
        invalid
          (codes "server.bind " ++ (net.show_debug value ++ codes " is not a valid host and port")))
  ]

  unfoldable pub validate_http_destination : Text → Url → Validation
  validate_http_destination field u = elim u.host_str [
    | none ↦ err (invalid (field ++ codes " must include a host"))
    | some host ↦
        refuse_if (net.is_unspecified_ip (without_brackets host))
          (invalid (field ++ codes " must not use an unspecified address"))
        and_then refuse_if (is_port_zero u.port)
            (invalid (field ++ codes " must not use port zero"))
  ]

  unfoldable pub validate_http_url : Text → Text → Validation
  unfolding validate_http_destination
  validate_http_url field value = elim (net.parse_url value) [
    | UrlParse.failed error ↦ err (
        invalid (
          field
          ++ (codes " " ++ (net.show_debug value ++ (codes " is not a valid URL: " ++ error)))))
    | UrlParse.url u ↦
        refuse_if (not (is_http u)) (invalid (field ++ codes " must use http or https"))
        and_then validate_http_destination field u
        and_then refuse_if (not (is_empty u.username) || is_some u.password)
            (invalid (field ++ codes " must not include credentials"))
        and_then refuse_if (is_some u.query || is_some u.fragment)
            (invalid (field ++ codes " must not include a query or fragment"))
  ]

  abbrev pub is_origin : Url → Bool
  is_origin u =
      is_http u
      && is_some u.host_str
      && is_empty u.username
      && not (is_some u.password)
      && text_eq u.path (codes "/")
      && not (is_some u.query)
      && not (is_some u.fragment)

  unfoldable pub validate_trusted_origin : Text → Validation
  unfolding validate_http_destination
  validate_trusted_origin value = elim (net.parse_url value) [
    | UrlParse.failed error ↦ err (
        invalid (
          codes "artifacts.trusted_origins entry "
          ++ (net.show_debug value ++ (codes " is not a valid URL: " ++ error))))
    | UrlParse.url u ↦
        refuse_if (not (is_origin u)) (
          invalid (
            codes "artifacts.trusted_origins entry "
            ++ (net.show_debug value
                ++ codes
                    " must be an http(s) origin without credentials, path, query, or fragment")))
        and_then validate_http_destination (codes "artifacts.trusted_origins entry") u
  ]

  unfoldable pub validate_upstreams : UpstreamsConfig → Validation
  validate_upstreams u =
      for_each (λ (p : Text × Text). validate_http_url p.0 p.1)
        ((codes "upstreams.npm.registry_url", u.npm_registry_url)
          ∷ (codes "upstreams.pypi.simple_url", u.pypi_simple_url)
          ∷ (codes "upstreams.go.proxy_url", u.go_proxy_url)
          ∷ (codes "upstreams.cargo.sparse_index_url", u.cargo_sparse_index_url)
          ∷ (codes "upstreams.cargo.download_url", u.cargo_download_url)
          ∷ (codes "upstreams.nuget.service_index_url", u.nuget_service_index_url)
          ∷ (codes "upstreams.rubygems.registry_url", u.rubygems_registry_url)
          ∷ (codes "upstreams.maven.repository_url", u.maven_repository_url)
          ∷ [])

  module _ {F : Type 0} (std : Platform F) where
    unfoldable pub validate : Config F → Validation
    unfolding validate_upstreams
    validate c =
        validate_bind c.server.bind
        and_then validate_http_url (codes "server.public_base_url") c.server.public_base_url
        and_then validate_limits c.limits
        and_then validate_metadata_cache c.metadata_cache
        and_then validate_upstreams c.upstreams
        and_then refuse_if (not (is_some (delta_from_std std c.policy.minimum_age)))
            (invalid (codes "policy.minimum_age is too large for policy evaluation"))
        and_then refuse_if (is_proxy_cache c.artifacts.behavior)
            (unsupported (codes "artifacts.behavior=proxy_cache_s3 is not supported yet"))
        and_then for_each validate_trusted_origin c.artifacts.trusted_origins
        and_then validate_osv std c.policy.osv
        and_then for_each validate_allowed c.allowlist
        and_then for_each validate_blocked c.blocklist
