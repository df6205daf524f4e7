-- ===== src/Artifacts/Delivery.antt =====
-- Of src/artifacts.rs: `deliver` and `deliver_head`, which differ in the method, and the response
-- that is made of what they return.
pub mod Safety
mod Tests
use osv_proxy.Common.{
  ℕ, Bool, true, false, not, ◌&&◌, ◌||◌, ◌==◌, leb, Option, none, some, List, [], ◌∷◌, ◌++◌, any,
  filter, find, if◌then◌else◌, Text, codes, text_eq, ascii_lowercase, Result, ok, err, ◌>>=◌,
}
use osv_proxy.Artifact.{Ecosystem}
use osv_proxy.Config.{Config, ArtifactBehavior}
use osv_proxy.Config.Net.{Url, UrlParse}
use osv_proxy.Response.{RegistryResponse, redirect, json}
use osv_proxy.Runtime.{BudgetError, Wait, Flag, install_egress}
use osv_proxy.Artifacts.Egress.{Network, ArtifactEgressPolicy, validate_url}

pub data ArtifactDeliveryError : Type 0 where
  budget : BudgetError → ArtifactDeliveryError
  unsupported invalid_url forbidden_destination upstream : Text → ArtifactDeliveryError
  upstream_status upstream_redirect : ℕ → ArtifactDeliveryError

abbrev pub Outcome : Type 0 → Type 0
Outcome = Result ArtifactDeliveryError

abbrev pub Headers : Type 0
Headers = List (Text × Text)

-- An upstream's response, whose body is a text that stands for its bytes.
pub record Upstream : Type 0 where
  pub status : ℕ
  pub headers : Headers
  pub body : Text

pub data ArtifactDeliveryResponse : Type 0 where
  buffered : RegistryResponse → ArtifactDeliveryResponse
  streaming : Upstream → ArtifactDeliveryResponse

-- The client: its policy, and what reqwest does; `send` takes whether the method is HEAD, the URL and
-- the headers.
pub record ArtifactDeliveryClient : Type 0 where
  pub network : Network
  pub egress : ArtifactEgressPolicy
  pub show_url : Url → Text
  pub show_debug : Text → Text
  pub send : Bool → Url → Headers → Result Text Upstream

abbrev forwarded_request_headers : List Text
forwarded_request_headers =
    codes "range"
    ∷ codes "if-none-match"
    ∷ codes "if-modified-since"
    ∷ codes "if-range"
    ∷ codes "if-unmodified-since"
    ∷ []

abbrev forwarded_response_headers : List Text
forwarded_response_headers =
    codes "content-type"
    ∷ codes "content-length"
    ∷ codes "etag"
    ∷ codes "last-modified"
    ∷ codes "accept-ranges"
    ∷ codes "content-range"
    ∷ codes "cache-control"
    ∷ codes "expires"
    ∷ []

-- The loop over `FORWARDED_REQUEST_HEADERS`; the names of a `HeaderMap` are in lower case.
unfoldable pub forward_request : List Text → Headers → Headers
unfolding text_eq
forward_request [] headers = []
forward_request (name ∷ names) headers = elim (find (λ h. text_eq h.0 name) headers) [
  | none ↦ forward_request names headers
  | some h ↦ (name, h.1) ∷ forward_request names headers
]

abbrev pub forwarded : Option Headers → Headers
forwarded none = []
forwarded (some headers) = forward_request forwarded_request_headers headers

-- `is_forwarded_response_header`.
unfoldable pub is_forwarded_response_header : Text → Bool
unfolding text_eq
is_forwarded_response_header name =
    any (λ allowed. text_eq (ascii_lowercase name) allowed) forwarded_response_headers

unfoldable pub is_forbidden_redirect : ℕ → Bool
is_forbidden_redirect status = leb 300 status && leb status 399 && not (status == 304)

abbrev pub is_error : ℕ → Bool
is_error status = leb 400 status && leb status 599

module _ (client : ArtifactDeliveryClient) where
  abbrev pub checked : Url → Result Text (Unit {0}) → Outcome Url
  checked u (ok t) = ok u
  checked u (err message) = err (forbidden_destination message)

  unfoldable pub validated_url : Ecosystem → Text → Outcome Url
  unfolding validate_url
  validated_url ecosystem upstream_url = elim (client.network.parse_url upstream_url) [
    | UrlParse.failed error ↦
        err (invalid_url (client.show_debug upstream_url ++ (codes ": " ++ error)))
    | UrlParse.url u ↦ checked u (validate_url client.network client.egress ecosystem u)
  ]

  abbrev received : Result Text Upstream → Outcome Upstream
  received (ok r) = ok r
  received (err e) = err (upstream e)

  abbrev pub granted_or : Result BudgetError (Unit {0}) → Outcome (Unit {0})
  granted_or (ok u) = ok u
  granted_or (err e) = err (budget e)

  -- The request and the tests of the response's status.
  unfoldable pub request : Bool → Url → Headers → Outcome ArtifactDeliveryResponse
  unfolding is_forbidden_redirect
  request head u headers = do
    response ← received (client.send head u headers)
    if is_forbidden_redirect response.status
        then err (upstream_redirect response.status)
        else if is_error response.status
        then err (upstream_status response.status)
        else ok (streaming response)

  unfoldable pub deliver_url :
      ArtifactBehavior
      → Bool
      → Url
      → Headers
      → Wait
      → Flag
      → Outcome ArtifactDeliveryResponse × Flag
  unfolding request install_egress
  deliver_url ArtifactBehavior.redirect head u headers wait flag =
      (ok (buffered (redirect (client.show_url u))), flag)
  deliver_url ArtifactBehavior.proxy head u headers wait flag =
      let (permit, flag') = install_egress wait flag in
      (granted_or permit >>= (λ _. request head u headers), flag')
  deliver_url ArtifactBehavior.proxy_cache_s3 head u headers wait flag =
      (err (unsupported (codes "artifacts.behavior=proxy_cache_s3 is not supported yet")), flag)

  abbrev then_deliver :
      ArtifactBehavior
      → Bool
      → Headers
      → Wait
      → Flag
      → Outcome Url
      → Outcome ArtifactDeliveryResponse × Flag
  then_deliver behavior head headers wait flag (err e) = (err e, flag)
  then_deliver behavior head headers wait flag (ok u) =
      deliver_url behavior head u headers wait flag

  -- `deliver`, and `deliver_head` where `head` is true. The wait for an egress permit ends as `wait`
  -- says.
  unfoldable pub deliver :
      ArtifactBehavior
      → Bool
      → Ecosystem
      → Text
      → Option Headers
      → Wait
      → Flag
      → Outcome ArtifactDeliveryResponse × Flag
  unfolding validated_url deliver_url forward_request
  deliver behavior head ecosystem upstream_url request_headers wait flag =
      then_deliver behavior head (forwarded request_headers) wait flag
        (validated_url ecosystem upstream_url)

-- `buffered_proxy_response`, and `into_registry_response` where the body is read.
unfoldable pub buffered_proxy_response : Upstream → RegistryResponse
unfolding is_forwarded_response_header
buffered_proxy_response response = record {
  status = response.status;
  headers = filter (λ h. is_forwarded_response_header h.0) response.headers;
  body = response.body;
}

unfoldable pub into_registry_response : ArtifactDeliveryResponse → RegistryResponse
unfolding buffered_proxy_response
into_registry_response (buffered response) = response
into_registry_response (streaming response) = buffered_proxy_response response
