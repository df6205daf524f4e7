-- ===== src/Artifacts/Delivery/Tests.antt =====
-- Runs of the delivery of src/artifacts.rs, and its theorems at concrete inputs.
use osv_proxy.Common.{
  ◌≡◌, ◌≢◌, ◌↔◌, arith, refl, true, false, none, some, [], ◌∷◌, codes, ok, err, text_eq,
  if◌then◌else◌,
}
use osv_proxy.Artifact.{npm}
use osv_proxy.Config.{ArtifactBehavior}
use osv_proxy.Config.Net.{Url, UrlParse}
use osv_proxy.Runtime.{granted}
use osv_proxy.Artifacts.Addresses.{IpAddr, Ipv6Addr, is_forbidden_ip, v4, v6}
use osv_proxy.Artifacts.Public.{IsPublicIp, is_forbidden_ip_iff}
use osv_proxy.Artifacts.Resolved.{AreSafe, resolve-AreSafe}
use osv_proxy.Artifacts.Egress.{Network, ArtifactEgressPolicy, validate_url, resolve}
use osv_proxy.Artifacts.Delivery.{
  ArtifactDeliveryClient, Upstream, streaming, deliver, into_registry_response,
}
use osv_proxy.Artifacts.Permitted.{IsPermitted}
use osv_proxy.Artifacts.Delivery.Safety.{IsServed, deliver-IsPermitted}

abbrev cdn : Url
cdn = record {
  scheme = codes "https";
  host_str = some (codes "cdn.example");
  username = [];
  password = none;
  path = codes "/a.tgz";
  query = none;
  fragment = none;
  port = none;
}

abbrev metadata_service : IpAddr
metadata_service = v4 (record { a = 169; b = 254; c = 169; d = 254 })

abbrev network : Network
network = record {
  parse_url = λ value. UrlParse.url cdn;
  origin = λ u. codes "https://cdn.example";
  parse_ip = λ host. if text_eq host (codes "169.254.169.254") then some metadata_service else none;
  show_ip = λ ip. codes "169.254.169.254";
  lookup_host = λ host. ok [];
}

abbrev policy : ArtifactEgressPolicy
policy = record { trusted_origins = []; globally_trusted_origins = []; trusted_hosts = [] }

refuses_metadata :
    validate_url network policy npm
      (record cdn { scheme = codes "https"; host_str = some (codes "169.254.169.254") })
    ≡ err (codes "non-public address 169.254.169.254 is not a trusted artifact origin")
unfolding validate_url is_forbidden_ip
refuses_metadata = refl

-- ::ffff:10.0.0.1, and 2606:4700::1111.
refuses_mapped :
    is_forbidden_ip
      (v6 (record { s₀ = 0; s₁ = 0; s₂ = 0; s₃ = 0; s₄ = 0; s₅ = 65535; s₆ = 2560; s₇ = 1 }))
    ≡ true
unfolding is_forbidden_ip
refuses_mapped = refl

accepts_public :
    is_forbidden_ip
      (v6 (record { s₀ = 9734; s₁ = 18176; s₂ = 0; s₃ = 0; s₄ = 0; s₅ = 0; s₆ = 0; s₇ = 4369 }))
    ≡ false
unfolding is_forbidden_ip
accepts_public = refl

abbrev found : Upstream
found = record {
  status = 200;
  headers = (codes "set-cookie", codes "x") ∷ (codes "ETag", codes "y") ∷ [];
  body = codes "z";
}

abbrev client : ArtifactDeliveryClient
client = record {
  network = network;
  egress = policy;
  show_url = λ u. codes "https://cdn.example/a.tgz";
  show_debug = λ text. text;
  send = λ head u headers. ok found;
}

drops_cookies : (into_registry_response (streaming found)).headers ≡ (codes "ETag", codes "y") ∷ []
unfolding into_registry_response
drops_cookies = refl

delivers :
    (deliver client ArtifactBehavior.proxy false npm
      (codes "https://cdn.example/a.tgz")
      none
      granted
      none).0
    ≡ ok (streaming found)
unfolding deliver
delivers = refl

deliver-IsPermitted_example :
    (u : Url) × (UrlParse.url cdn ≡ UrlParse.url u)
    × IsPermitted network policy npm u
    × IsServed client ArtifactBehavior.proxy false u (streaming found)
deliver-IsPermitted_example =
    deliver-IsPermitted client ArtifactBehavior.proxy false npm (codes "https://cdn.example/a.tgz")
      none granted none (streaming found) delivers

abbrev cloudflare : Ipv6Addr
cloudflare = record { s₀ = 9734; s₁ = 18176; s₂ = 0; s₃ = 0; s₄ = 0; s₅ = 0; s₆ = 0; s₇ = 4369 }

is_forbidden_ip_iff_example : (is_forbidden_ip (v6 cloudflare) ≡ false) ↔ IsPublicIp (v6 cloudflare)
is_forbidden_ip_iff_example = is_forbidden_ip_iff (v6 cloudflare) (
  omega arith,
  (
    omega arith,
    (omega arith, (omega arith, (omega arith, (omega arith, (omega arith, (omega arith, tt)))))),
  ),
)

abbrev resolving : Network
resolving = record network { lookup_host = λ host. ok (v6 cloudflare ∷ []) }

resolved : resolve resolving policy (codes "CDN.example") ≡ ok (v6 cloudflare ∷ [])
unfolding resolve is_forbidden_ip
resolved = refl

rebinds :
    resolve
      (record network { lookup_host = λ host. ok (v6 cloudflare ∷ metadata_service ∷ []) })
      policy
      (codes "CDN.example")
    ≡ err (codes "DNS for cdn.example returned forbidden non-public address 169.254.169.254")
unfolding resolve is_forbidden_ip
rebinds = refl

resolve-AreSafe_example :
    (resolving.lookup_host (codes "cdn.example") ≡ ok (v6 cloudflare ∷ []))
    × (v6 cloudflare ∷ [] ≢ [])
    × AreSafe resolving policy (codes "cdn.example") (v6 cloudflare ∷ [])
resolve-AreSafe_example =
    resolve-AreSafe resolving policy (codes "CDN.example") (v6 cloudflare ∷ []) resolved
