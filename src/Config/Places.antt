-- ===== src/Config/Places.antt =====
-- Which addresses the validation of src/config.rs takes, from what the parsers of its libraries read.
use osv_proxy.Common.{
  ℕ, ◌≡◌, ◌≢◌, ◌↔◌, ◌⊎◌, refl, arith, inl, inr, Bool, true, false, Option, none, some, [], ◌∷◌,
  is_some, is_empty, Text, codes, text_eq, text_eq_iff, Bool-cases, Option-cases, rsplit_once,
}
use osv_proxy.Config.{UpstreamsConfig}
use osv_proxy.Config.Net.{Net, Url, UrlParse}
use osv_proxy.Config.Validate.{ConfigError, Validation, ok, err, ◌and_then◌, refuse_if}
use osv_proxy.Config.Addresses.{
  is_port_zero, is_http, without_brackets, validate_bind, validate_http_destination,
}
use osv_proxy.Config.Hosts.{IsHostPort, refuse_host-IsPort_iff, rsplit_once-some}

pub and_then-ok_iff : (a b : Validation) → ((a and_then b) ≡ ok) ↔ ((a ≡ ok) × (b ≡ ok))
and_then-ok_iff ok b = ((λ h. (refl, h)), (λ h. h.1))
and_then-ok_iff (err e) b = ((λ h. absurd (ground arith)), (λ h. absurd (ground (arith, h))))

pub refuse_if-ok_iff : (b : Bool) (e : ConfigError) → (refuse_if b e ≡ ok) ↔ (b ≡ false)
refuse_if-ok_iff true e = ((λ h. absurd (ground arith)), (λ h. absurd (ground arith)))
refuse_if-ok_iff false e = ((λ h. refl), (λ h. refl))

pub err-ne-ok : (e : ConfigError) → err e ≢ ok
err-ne-ok e h = ground arith

pub UrlParse-cases :
    (p : UrlParse) → ((u : Url) × (p ≡ UrlParse.url u)) ⊎ ((e : Text) × (p ≡ UrlParse.failed e))
UrlParse-cases (UrlParse.url u) = inl (u, refl)
UrlParse-cases (UrlParse.failed e) = inr (e, refl)

abbrev pub IsSomeText : Option Text → Type 0
IsSomeText o = (host : Text) × (o ≡ some host)

pub is_some_iff : (o : Option Text) → (is_some o ≡ true) ↔ IsSomeText o
is_some_iff none = ((λ h. absurd (ground arith)), (λ h. absurd (ground (arith, h.1))))
is_some_iff (some a) = ((λ h. (a, refl)), (λ h. refl))

pub absent_iff : (o : Option Text) → (is_some o ≡ false) ↔ (o ≡ none)
absent_iff none = ((λ h. refl), (λ h. refl))
absent_iff (some a) = ((λ h. absurd (ground arith)), (λ h. absurd (ground arith)))

pub empty_iff : (s : Text) → (is_empty s ≡ true) ↔ (s ≡ [])
empty_iff [] = ((λ h. refl), (λ h. refl))
empty_iff (c ∷ s) = ((λ h. absurd (ground arith)), (λ h. absurd (ground arith)))

abbrev pub IsHttp : Url → Type 0
IsHttp u = (u.scheme ≡ codes "http") ⊎ (u.scheme ≡ codes "https")

pub is_http_iff : (u : Url) → (is_http u ≡ true) ↔ IsHttp u
is_http_iff u =
    let plain = text_eq_iff u.scheme (codes "http") in
    let secure = text_eq_iff u.scheme (codes "https") in
    (
      (λ h. elim (Bool-cases (text_eq u.scheme (codes "http"))) [
        | inl e ↦ inl (plain.0 e)
        | inr e ↦ inr (secure.0 (ground arith))
      ]),
      (λ h. elim h [ inl e ↦ ground (arith, plain.1 e) | inr e ↦ ground (arith, secure.1 e) ]),
    )

module _ (net : Net) where
  -- A host that is no unspecified address, and a port that is not zero.
  pub record IsDestination (u : Url) : Type 0 where
    pub host : Text
    pub named : u.host_str ≡ some host
    pub specified : net.is_unspecified_ip (without_brackets host) ≡ false
    pub port : u.port ≢ some 0

  -- A URL of a registry or of the proxy itself.
  pub record IsHttpUrl (value : Text) : Type 0 where
    pub u : Url
    pub parsed : net.parse_url value ≡ UrlParse.url u
    pub http : IsHttp u
    pub destination : IsDestination u
    pub username : u.username ≡ []
    pub password : u.password ≡ none
    pub query : u.query ≡ none
    pub fragment : u.fragment ≡ none

  pub record IsOrigin (value : Text) : Type 0 where
    pub u : Url
    pub parsed : net.parse_url value ≡ UrlParse.url u
    pub http : IsHttp u
    pub destination : IsDestination u
    pub username : u.username ≡ []
    pub password : u.password ≡ none
    pub path : u.path ≡ codes "/"
    pub query : u.query ≡ none
    pub fragment : u.fragment ≡ none

  pub record HasUpstreams (c : UpstreamsConfig) : Type 0 where
    pub npm : IsHttpUrl c.npm_registry_url
    pub pypi : IsHttpUrl c.pypi_simple_url
    pub go : IsHttpUrl c.go_proxy_url
    pub cargo_index : IsHttpUrl c.cargo_sparse_index_url
    pub cargo_download : IsHttpUrl c.cargo_download_url
    pub nuget : IsHttpUrl c.nuget_service_index_url
    pub ruby_gems : IsHttpUrl c.rubygems_registry_url
    pub maven : IsHttpUrl c.maven_repository_url

  -- A socket address, or a host name with a port.
  abbrev pub IsBind : Text → Type 0
  IsBind value = (net.is_socket_addr value ≡ true) ⊎ IsHostPort value

  pub validate_bind-ok_iff : (value : Text) → (validate_bind net value ≡ ok) ↔ IsBind value
  unfolding validate_bind
  validate_bind-ok_iff value = elim (Bool-cases (net.is_socket_addr value)) [
    | inl s ↦ ((λ h. inl s), (λ h. rw (s, validate_bind) refl))
    | inr s ↦ elim (Option-cases (rsplit_once b':' value)) [
      | inl e ↦ (
        (λ h. absurd (err-ne-ok _ (rw (s, e, validate_bind) at h))),
        (λ h. elim h [
          | inl t ↦ absurd (ground arith)
          | inr p ↦
              let found = (rsplit_once-some value p.host p.port).1 (p.split_at, p.last_colon) in
              absurd (ground (arith, found))
        ]),
      )
      | inr ((host, port), e) ↦ (
        (λ h.
            let fine = (refuse_if-ok_iff _ _).0 (rw (s, e, validate_bind) at h) in
            let (named, numbered) = (refuse_host-IsPort_iff host port).0 fine in
            let (split_at, last_colon) = (rsplit_once-some value host port).0 e in
            inr (record {
              host = host;
              port = port;
              split_at = split_at;
              last_colon = last_colon;
              named = named;
              numbered = numbered;
            })),
        (λ h. elim h [
          | inl t ↦ absurd (ground arith)
          | inr p ↦
              let found = (rsplit_once-some value p.host p.port).1 (p.split_at, p.last_colon) in
              let fine = (refuse_host-IsPort_iff p.host p.port).1 (p.named, p.numbered) in
              rw (s, found, validate_bind) ((refuse_if-ok_iff _ _).1 fine)
        ]),
      )
    ]
  ]

  port_iff : (u : Url) → (is_port_zero u.port ≡ false) ↔ (u.port ≢ some 0)
  port_iff u = zero u.port
    where
      zero : (p : Option ℕ) → (is_port_zero p ≡ false) ↔ (p ≢ some 0)
      zero none = ((λ h e. ground arith), (λ h. refl))
      zero (some port) = ((λ h e. ground arith), (λ h. ground (arith, h)))

  pub validate_http_destination-ok_iff :
      (field : Text) (u : Url) → (validate_http_destination net field u ≡ ok) ↔ IsDestination u
  unfolding validate_http_destination
  validate_http_destination-ok_iff field u = elim (Option-cases u.host_str) [
    | inl e ↦ (
      (λ h. absurd (err-ne-ok _ (rw (e, validate_http_destination) at h))),
      (λ h. absurd (ground (arith, h.named))),
    )
    | inr (host, e) ↦ (
      (λ h.
          let (a, b) = (and_then-ok_iff _ _).0 (rw (e, validate_http_destination) at h) in
          record {
            host = host;
            named = e;
            specified = (refuse_if-ok_iff _ _).0 a;
            port = (port_iff u).0 ((refuse_if-ok_iff _ _).0 b);
          }),
      (λ h.
          rw (h.named, validate_http_destination)
            ((and_then-ok_iff _ _).1 (
              (refuse_if-ok_iff _ _).1 h.specified,
              (refuse_if-ok_iff _ _).1 ((port_iff u).1 h.port),
            ))),
    )
  ]
