-- ===== src/Artifacts/Permitted.antt =====
-- Which URLs `validate_url` of src/artifacts.rs permits.
use osv_proxy.Common.{
  ◌≡◌, ◌≢◌, ◌↔◌, ◌∙◌, List, [], ◌∷◌, any, In, trim_start, trim_end, refl, sym, ap, ◌⊎◌, inl, inr,
  Bool, true, false, not, ◌&&◌, ◌||◌, Bool-cases, Option, none, some, is_some, is_empty, arith,
  Text, codes, text_eq, text_eq_iff, ascii_lowercase, ok, bind-ok, ok-injective, err-ne-ok, subst,
}
use osv_proxy.Artifact.{Ecosystem, ecosystem_eq}
use osv_proxy.Artifact.Equality.{ecosystem_eq→≡}
use osv_proxy.Artifacts.Addresses.{IpAddr}
use osv_proxy.Artifacts.Public.{IsPublicIp, is_forbidden_ip-public}
use osv_proxy.Config.Net.{Url, UrlParse}
use osv_proxy.Artifacts.Egress.{
  Network, ArtifactEgressPolicy, normalized_origin, host_is_trusted, is_trusted_origin, refuse_if,
  required, is_forbidden_host, validate_host, validate_url,
}

drop : (b t : Bool) → t ≡ false → (b && not t) ≡ false → b ≡ false
drop b true k h = ground arith
drop true false k h = ground arith
drop false false k h = refl

true-ne-false : true ≡ false → ⊥
true-ne-false h = ground arith

absent : {A : Type 0} (o : Option A) → is_some o ≡ false → o ≡ none
absent none h = refl
absent (some a) h = absurd (true-ne-false h)

empty_text : (s : Text) → is_empty s ≡ true → s ≡ []
empty_text [] h = refl
empty_text (c ∷ s) h = absurd (ground arith)

other : (a b : Bool) → a ≡ false → (a || b) ≡ true → b ≡ true
other true b h k = absurd (true-ne-false h)
other false b h k = k

pub UrlParse-cases :
    (p : UrlParse) → ((u : Url) × (p ≡ UrlParse.url u)) ⊎ ((e : Text) × (p ≡ UrlParse.failed e))
UrlParse-cases (UrlParse.url u) = inl (u, refl)
UrlParse-cases (UrlParse.failed e) = inr (e, refl)

pub holds-In : (set : List Text) (x : Text) → (any (λ y. text_eq y x) set ≡ true) ↔ In x set
holds-In [] x = ((λ h. absurd (ground arith)), (λ i. elim i [ ]))
holds-In (y ∷ set) x = (
  (λ h. elim (Bool-cases (text_eq y x)) [
    | inl e ↦ inl (sym ((text_eq_iff y x).0 e))
    | inr e ↦ inr ((holds-In set x).0 (ground arith))
  ]),
  (λ i. elim i [
    | inl e ↦ let same = (text_eq_iff y x).1 (sym e) in ground arith
    | inr j ↦ let rest = (holds-In set x).1 j in ground arith
  ]),
)

tagged-In :
    (set : List (Ecosystem × Text)) (e : Ecosystem) (x : Text)
    → any (λ t. ecosystem_eq t.0 e && text_eq t.1 x) set ≡ true
    → In (e, x) set
tagged-In [] e x h = absurd (ground arith)
tagged-In ((d, y) ∷ set) e x h = elim (Bool-cases (ecosystem_eq d e && text_eq y x)) [
  | inl k ↦
      let same = (text_eq_iff y x).0 (ground arith) in
      let eco = ecosystem_eq→≡ d e (ground arith) in inl (rw (eco, same) refl)
  | inr k ↦ inr (tagged-In set e x (ground arith))
]

module _ (net : Network) (policy : ArtifactEgressPolicy) where
  -- A public destination: encrypted, and its host is no configured one, not localhost, and no address
  -- but a public one.
  pub record IsPublic (u : Url) (host : Text) : Type 0 where
    pub encrypted : u.scheme ≡ codes "https"
    pub not_configured : ¬ In (ascii_lowercase host) policy.trusted_hosts
    pub not_local : ascii_lowercase host ≢ codes "localhost"
    pub address :
        (ip : IpAddr)
        → net.parse_ip (trim_end b']' (trim_start b'[' host)) ≡ some ip
        → IsPublicIp ip

  -- Configured for the ecosystem, or for all.
  abbrev pub IsConfigured : Ecosystem → Text → Type 0
  IsConfigured e origin =
      In origin policy.globally_trusted_origins ⊎ In (e, origin) policy.trusted_origins

  -- No credentials and no fragment, and an origin that is configured or a public destination.
  pub record IsPermitted (e : Ecosystem) (u : Url) : Type 0 where
    pub username : u.username ≡ []
    pub password : u.password ≡ none
    pub fragment : u.fragment ≡ none
    pub scheme : (u.scheme ≡ codes "http") ⊎ (u.scheme ≡ codes "https")
    pub origin : net.origin u ≢ codes "null"
    pub host : Text
    pub named : u.host_str ≡ some host
    pub trusted : IsConfigured e (net.origin u) ⊎ IsPublic u host

  refuse_if-ok :
      (t : Bool) (message : Text) (u : Unit {0}) → refuse_if net policy t message ≡ ok u → t ≡ false
  refuse_if-ok true message u h = absurd (err-ne-ok message u h)
  refuse_if-ok false message u h = refl

  required-ok :
      {A : Type 0} (o : Option A) (message : Text) (a : A)
      → required net policy o message ≡ ok a
      → o ≡ some a
  required-ok none message a h = absurd (err-ne-ok message a h)
  required-ok (some x) message a h = ap some (ok-injective x a h)

  normalized_origin-some :
      (u : Url) (origin : Text)
      → normalized_origin net u ≡ some origin
      → ((text_eq u.scheme (codes "http") || text_eq u.scheme (codes "https")) ≡ true)
        × (text_eq (net.origin u) (codes "null") ≡ false)
        × (net.origin u ≡ origin)
  unfolding normalized_origin
  normalized_origin-some u origin h = (ground arith, ground arith, ground arith)

  scheme_of :
      (u : Url)
      → (text_eq u.scheme (codes "http") || text_eq u.scheme (codes "https")) ≡ true
      → (u.scheme ≡ codes "http") ⊎ (u.scheme ≡ codes "https")
  scheme_of u h = elim (Bool-cases (text_eq u.scheme (codes "http"))) [
    | inl e ↦ inl ((text_eq_iff u.scheme (codes "http")).0 e)
    | inr e ↦ inr ((text_eq_iff u.scheme (codes "https")).0 (other _ _ e h))
  ]

  is_trusted_origin-IsConfigured :
      (e : Ecosystem) (origin : Text)
      → is_trusted_origin net policy e origin ≡ true
      → IsConfigured e origin
  unfolding is_trusted_origin
  is_trusted_origin-IsConfigured e origin h =
      elim (Bool-cases (any (λ y. text_eq y origin) policy.globally_trusted_origins)) [
        | inl k ↦ inl ((holds-In policy.globally_trusted_origins origin).0 k)
        | inr k ↦ inr (tagged-In policy.trusted_origins e origin (other _ _ k h))
      ]

  public_address :
      (host : Text) (ip : IpAddr)
      → is_forbidden_host net policy host ≡ false
      → net.parse_ip (trim_end b']' (trim_start b'[' host)) ≡ some ip
      → IsPublicIp ip
  public_address host ip h e = is_forbidden_ip-public ip (rw e at h)

  validate_host-public :
      (u : Url) (t : Bool)
      → validate_host net policy t u ≡ ok tt
      → (host : Text) × (u.host_str ≡ some host)
        × ((t ≡ true)
            ⊎ ((text_eq u.scheme (codes "http") ≡ false)
                × (host_is_trusted net policy host ≡ false)
                × (text_eq (ascii_lowercase host) (codes "localhost") ≡ false)
                × (is_forbidden_host net policy host ≡ false)))
  unfolding validate_host
  validate_host-public u t h =
      let (u₁, e₁, h₁) =
        bind-ok (refuse_if net policy (text_eq u.scheme (codes "http") && not t) _) _ tt h in
      let (host, e₂, h₂) = bind-ok (required net policy u.host_str _) _ tt h₁ in
      let (u₃, e₃, h₃) =
        bind-ok (refuse_if net policy (host_is_trusted net policy host && not t) _) _ tt h₂ in
      let (u₄, e₄, h₄) =
        bind-ok
          (refuse_if net policy (text_eq (ascii_lowercase host) (codes "localhost") && not t) _) _
          tt h₃ in
      let http = refuse_if-ok (text_eq u.scheme (codes "http") && not t) _ u₁ e₁ in
      let configured = refuse_if-ok (host_is_trusted net policy host && not t) _ u₃ e₃ in
      let local =
        refuse_if-ok (text_eq (ascii_lowercase host) (codes "localhost") && not t) _ u₄ e₄ in
      let forbidden = refuse_if-ok (is_forbidden_host net policy host && not t) _ tt h₄ in
      (
        host,
        required-ok u.host_str _ host e₂,
        elim (Bool-cases t) [
          | inl k ↦ inl k
          | inr k ↦
              inr (drop _ t k http, drop _ t k configured, drop _ t k local, drop _ t k forbidden)
        ],
      )

  configured_false :
      (host : Text)
      → host_is_trusted net policy host ≡ false
      → any (λ y. text_eq y (ascii_lowercase host)) policy.trusted_hosts ≡ false
  unfolding host_is_trusted
  configured_false host h = h

  pub validate_url-IsPermitted :
      (e : Ecosystem) (u : Url) → validate_url net policy e u ≡ ok tt → IsPermitted e u
  unfolding validate_url
  validate_url-IsPermitted e u h =
      let (u₁, e₁, h₁) =
        bind-ok (refuse_if net policy (not (is_empty u.username) || is_some u.password) _) _ tt h in
      let (u₂, e₂, h₂) = bind-ok (refuse_if net policy (is_some u.fragment) _) _ tt h₁ in
      let (origin, e₃, h₃) = bind-ok (required net policy (normalized_origin net u) _) _ tt h₂ in
      let credentials = refuse_if-ok (not (is_empty u.username) || is_some u.password) _ u₁ e₁ in
      let fragment = refuse_if-ok (is_some u.fragment) _ u₂ e₂ in
      let known = required-ok (normalized_origin net u) _ origin e₃ in
      let (web, opaque, same) = normalized_origin-some u origin known in
      let (host, named, public) =
        validate_host-public u (is_trusted_origin net policy e origin) h₃ in
      record {
        username = empty_text u.username (ground arith);
        password = absent u.password (ground arith);
        fragment = absent u.fragment fragment;
        scheme = scheme_of u web;
        origin = λ k. ground (arith, (text_eq_iff (net.origin u) (codes "null")).1 k, opaque);
        host = host;
        named = named;
        trusted = elim public [
          | inl t ↦
              inl (subst (IsConfigured e) (sym same) (is_trusted_origin-IsConfigured e origin t))
          | inr (http, configured, local, forbidden) ↦ inr (record {
            encrypted = (text_eq_iff u.scheme (codes "https")).0 (other _ _ http web);
            not_configured = λ i.
                let held = (holds-In policy.trusted_hosts (ascii_lowercase host)).1 i in
                true-ne-false (sym held ∙ configured_false host configured);
            not_local = λ k.
                true-ne-false
                  (sym ((text_eq_iff (ascii_lowercase host) (codes "localhost")).1 k) ∙ local);
            address = λ ip k. public_address host ip forbidden k;
          })
        ];
      }
