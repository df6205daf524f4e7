-- ===== src/Config/Urls.antt =====
-- Which URLs and origins the validation of src/config.rs takes.
use osv_proxy.Common.{
  ◌≡◌, ◌↔◌, refl, arith, inl, inr, Bool, true, false, not, ◌||◌, none, [], is_some, is_empty, Text,
  codes, text_eq_iff,
}
use osv_proxy.Config.{UpstreamsConfig}
use osv_proxy.Config.Net.{Net, Url, UrlParse}
use osv_proxy.Config.Validate.{ok}
use osv_proxy.Config.Addresses.{
  is_http, validate_http_url, is_origin, validate_trusted_origin, validate_upstreams,
}
use osv_proxy.Config.Places.{
  IsHttp, IsHttpUrl, IsOrigin, HasUpstreams, IsSomeText, and_then-ok_iff, refuse_if-ok_iff,
  err-ne-ok, UrlParse-cases, is_some_iff, absent_iff, empty_iff, is_http_iff,
  validate_http_destination-ok_iff,
}

module _ (net : Net) where
  credentials_iff :
      (u : Url)
      → ((not (is_empty u.username) || is_some u.password) ≡ false)
        ↔ ((u.username ≡ []) × (u.password ≡ none))
  credentials_iff u = (
    (λ h. ((empty_iff u.username).0 (ground arith), (absent_iff u.password).0 (ground arith))),
    (λ (a, b). ground (arith, (empty_iff u.username).1 a, (absent_iff u.password).1 b)),
  )

  query_iff :
      (u : Url)
      → ((is_some u.query || is_some u.fragment) ≡ false) ↔ ((u.query ≡ none) × (u.fragment ≡ none))
  query_iff u = (
    (λ h. ((absent_iff u.query).0 (ground arith), (absent_iff u.fragment).0 (ground arith))),
    (λ (a, b). ground (arith, (absent_iff u.query).1 a, (absent_iff u.fragment).1 b)),
  )

  not_iff : (b : Bool) → (not b ≡ false) ↔ (b ≡ true)
  not_iff b = ground arith

  same_url : {u v : Url} {p : UrlParse} → p ≡ UrlParse.url u → p ≡ UrlParse.url v → u ≡ v
  same_url {u} {v} h k = ground (arith, h, k)

  pub validate_http_url-ok_iff :
      (field value : Text) → (validate_http_url net field value ≡ ok) ↔ IsHttpUrl net value
  unfolding validate_http_url
  validate_http_url-ok_iff field value = elim (UrlParse-cases (net.parse_url value)) [
    | inr (e, k) ↦ (
      (λ h. absurd (err-ne-ok _ (rw (k, validate_http_url) at h))),
      (λ h. absurd (ground (arith, h.parsed))),
    )
    | inl (u, k) ↦ (
      (λ h.
          let (a, h₁) = (and_then-ok_iff _ _).0 (rw (k, validate_http_url) at h) in
          let (b, h₂) = (and_then-ok_iff _ _).0 h₁ in
          let (c, d) = (and_then-ok_iff _ _).0 h₂ in
          let (username, password) = (credentials_iff u).0 ((refuse_if-ok_iff _ _).0 c) in
          let (query, fragment) = (query_iff u).0 ((refuse_if-ok_iff _ _).0 d) in
          record {
            u = u;
            parsed = k;
            http = (is_http_iff u).0 ((not_iff (is_http u)).0 ((refuse_if-ok_iff _ _).0 a));
            destination = (validate_http_destination-ok_iff net field u).0 b;
            username = username;
            password = password;
            query = query;
            fragment = fragment;
          }),
      (λ h.
          let a = (not_iff (is_http h.u)).1 ((is_http_iff h.u).1 h.http) in
          let b = (validate_http_destination-ok_iff net field h.u).1 h.destination in
          let c = (credentials_iff h.u).1 (h.username, h.password) in
          let d = (query_iff h.u).1 (h.query, h.fragment) in
          rw (h.parsed, validate_http_url)
            ((and_then-ok_iff _ _).1 (
              (refuse_if-ok_iff _ _).1 a,
              (and_then-ok_iff _ _).1 (
                b,
                (and_then-ok_iff _ _).1 ((refuse_if-ok_iff _ _).1 c, (refuse_if-ok_iff _ _).1 d),
              ),
            ))),
    )
  ]

  -- An origin is a host with nothing but the scheme and the port, at the path /.
  abbrev Bare : Url → Type 0
  Bare u =
      IsHttp u
      × IsSomeText u.host_str
      × (u.username ≡ [])
      × (u.password ≡ none)
      × (u.path ≡ codes "/")
      × (u.query ≡ none)
      × (u.fragment ≡ none)

  is_origin_iff : (u : Url) → (is_origin net u ≡ true) ↔ Bare u
  is_origin_iff u = (
    (λ h. (
      (is_http_iff u).0 (ground arith),
      (is_some_iff u.host_str).0 (ground arith),
      (empty_iff u.username).0 (ground arith),
      (absent_iff u.password).0 (ground arith),
      (text_eq_iff u.path (codes "/")).0 (ground arith),
      (absent_iff u.query).0 (ground arith),
      (absent_iff u.fragment).0 (ground arith),
    )),
    (λ (a, b, c, d, e, f, g).
        let a' = (is_http_iff u).1 a in
        let b' = (is_some_iff u.host_str).1 b in
        let c' = (empty_iff u.username).1 c in
        let d' = (absent_iff u.password).1 d in
        let e' = (text_eq_iff u.path (codes "/")).1 e in
        let f' = (absent_iff u.query).1 f in
        let g' = (absent_iff u.fragment).1 g in rw (a', b', c', d', e', f', g') refl),
  )

  pub validate_trusted_origin-ok_iff :
      (value : Text) → (validate_trusted_origin net value ≡ ok) ↔ IsOrigin net value
  unfolding validate_trusted_origin
  validate_trusted_origin-ok_iff value = elim (UrlParse-cases (net.parse_url value)) [
    | inr (e, k) ↦ (
      (λ h. absurd (err-ne-ok _ (rw (k, validate_trusted_origin) at h))),
      (λ h. absurd (ground (arith, h.parsed))),
    )
    | inl (u, k) ↦ (
      (λ h.
          let (a, b) = (and_then-ok_iff _ _).0 (rw (k, validate_trusted_origin) at h) in
          let (http, host, username, password, path, query, fragment) =
            (is_origin_iff u).0 ((not_iff (is_origin net u)).0 ((refuse_if-ok_iff _ _).0 a)) in
          record {
            u = u;
            parsed = k;
            http = http;
            destination =
                (validate_http_destination-ok_iff net (codes "artifacts.trusted_origins entry") u).0
                  b;
            username = username;
            password = password;
            path = path;
            query = query;
            fragment = fragment;
          }),
      (λ h.
          let d = h.destination in
          let bare =
            (is_origin_iff h.u).1
              (h.http, (d.host, d.named), h.username, h.password, h.path, h.query, h.fragment) in
          let b =
            (validate_http_destination-ok_iff net (codes "artifacts.trusted_origins entry") h.u).1
              h.destination in
          rw (h.parsed, validate_trusted_origin)
            ((and_then-ok_iff _ _).1
              ((refuse_if-ok_iff _ _).1 ((not_iff (is_origin net h.u)).1 bare), b))),
    )
  ]

  pub validate_upstreams-ok_iff :
      (c : UpstreamsConfig) → (validate_upstreams net c ≡ ok) ↔ HasUpstreams net c
  unfolding validate_upstreams
  validate_upstreams-ok_iff c = (
    (λ h.
        let (a, h₁) = (and_then-ok_iff _ _).0 h in
        let (b, h₂) = (and_then-ok_iff _ _).0 h₁ in
        let (d, h₃) = (and_then-ok_iff _ _).0 h₂ in
        let (e, h₄) = (and_then-ok_iff _ _).0 h₃ in
        let (f, h₅) = (and_then-ok_iff _ _).0 h₄ in
        let (g, h₆) = (and_then-ok_iff _ _).0 h₅ in
        let (i, h₇) = (and_then-ok_iff _ _).0 h₆ in
        let (j, h₈) = (and_then-ok_iff _ _).0 h₇ in
        record {
          npm = (validate_http_url-ok_iff _ c.npm_registry_url).0 a;
          pypi = (validate_http_url-ok_iff _ c.pypi_simple_url).0 b;
          go = (validate_http_url-ok_iff _ c.go_proxy_url).0 d;
          cargo_index = (validate_http_url-ok_iff _ c.cargo_sparse_index_url).0 e;
          cargo_download = (validate_http_url-ok_iff _ c.cargo_download_url).0 f;
          nuget = (validate_http_url-ok_iff _ c.nuget_service_index_url).0 g;
          ruby_gems = (validate_http_url-ok_iff _ c.rubygems_registry_url).0 i;
          maven = (validate_http_url-ok_iff _ c.maven_repository_url).0 j;
        }),
    (λ h.
        let a = (validate_http_url-ok_iff (codes "upstreams.npm.registry_url") _).1 h.npm in
        let b = (validate_http_url-ok_iff (codes "upstreams.pypi.simple_url") _).1 h.pypi in
        let d = (validate_http_url-ok_iff (codes "upstreams.go.proxy_url") _).1 h.go in
        let e =
          (validate_http_url-ok_iff (codes "upstreams.cargo.sparse_index_url") _).1 h.cargo_index in
        let f =
          (validate_http_url-ok_iff (codes "upstreams.cargo.download_url") _).1 h.cargo_download in
        let g =
          (validate_http_url-ok_iff (codes "upstreams.nuget.service_index_url") _).1 h.nuget in
        let i =
          (validate_http_url-ok_iff (codes "upstreams.rubygems.registry_url") _).1 h.ruby_gems in
        let j = (validate_http_url-ok_iff (codes "upstreams.maven.repository_url") _).1 h.maven in
        rw (a, b, d, e, f, g, i, j) refl),
  )
