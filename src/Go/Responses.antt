-- ===== src/Go/Responses.antt =====
-- Of src/go.rs: `route_response`. A response is the result of the handler, beside the scope of the
-- cache metadata; `none` is a panic.
pub mod Served
use osv_proxy.Common.{
  ℕ, ◌++◌, Bool, not, Option, none, some, List, [], ◌∷◌, map, Result, ok, err, Text, codes, text_eq,
  if◌then◌else◌, is_empty, join, sort_by, dedup,
}
use osv_proxy.Common.Equality.{◌>>=◌}
use osv_proxy.Common.Results
use osv_proxy.Platform.{Platform}
use osv_proxy.Config.{Config}
use osv_proxy.Artifact.{Artifact}
use osv_proxy.Policy.Decisions.{Decision, Scope}
use osv_proxy.Policy.{Checked, evaluate}
use osv_proxy.Policy.Batch.{Batched}
use osv_proxy.Response.{RegistryResponse, json}
use osv_proxy.Go.Escape.{GoError, Outcome, version_mismatch, invalid_response}
use osv_proxy.Go.Routes.{GoRoute, list_route, latest_route, info_route, content_route}
use osv_proxy.Go.{GoInfo, GoProxyProvider, Semver, order_versions, artifact, filtered_infos}

-- What a request brings together: the upstream, the checker, serde_json, the order in which requests
-- end, and the delivery (`deliver` followed by `into_registry_response`), where there is one.
pub record Handler (F V : Type 0) : Type 0 where
  pub std : Platform F
  pub config : Config F
  pub upstream : GoProxyProvider
  pub check : Artifact → Checked F
  pub check_many : List Artifact → Batched F
  pub semver : Semver V
  pub arrange : List (Outcome GoInfo) → List (Outcome GoInfo)
  pub decision_json : Decision F → Outcome Text
  pub info_json : GoInfo → Outcome Text
  pub deliver : Option (Text → Outcome RegistryResponse)

abbrev pub list_body : List Text → Text
list_body versions = if is_empty versions then [] else join (codes "\n") versions ++ codes "\n"

unfoldable pub list_response : List Text → RegistryResponse
list_response versions = record {
  status = 200;
  headers = (codes "content-type", codes "text/plain; charset=UTF-8") ∷ [];
  body = list_body versions;
}

abbrev pub Handled : Type 0
Handled = Option (Outcome RegistryResponse × Scope)

module _ {F V : Type 0} (h : Handler F V) where
  unfoldable pub listed_versions : List GoInfo → List Text
  unfolding sort_by dedup order_versions
  listed_versions infos =
      dedup text_eq (sort_by (order_versions h.semver) (map (λ i. i.version) infos))

  unfoldable pub list_versions_response : Text → ℕ → Scope → Handled
  unfolding listed_versions list_response
  list_versions_response m now scope = do
    r ← filtered_infos h.std h.config h.upstream h.arrange h.check_many m now scope
    some (Results.◌>>=◌ r.0 (λ infos. ok (list_response (listed_versions infos))), r.1)

  -- The policy asked about an info, and the answer where it denies.
  unfoldable pub guarded : Text → GoInfo → Outcome RegistryResponse → ℕ → Scope → Handled
  guarded m info served now scope = do
    r ← evaluate h.std h.config h.check (artifact h.std h.config m info) now scope
    some (if not r.0.allowed then json 403 (h.decision_json r.0) else served, r.1)

  unfoldable pub deliver_content : Text → Text → Text → Outcome RegistryResponse
  deliver_content m version extension = elim h.deliver [
    | none ↦ err (invalid_response (codes "missing artifact delivery"))
    | some deliver ↦ Results.◌>>=◌ (h.upstream.resource_url m version extension) deliver
  ]

  -- The infos that the routes for one version ask for.
  unfoldable pub requested : Text → Text → Outcome GoInfo
  requested m version = Results.◌>>=◌ (h.upstream.info m version) (λ info.
      if not (text_eq info.version version)
      then err (version_mismatch version info.version)
      else ok info)

  unfoldable pub route_response : Text → GoRoute → ℕ → Scope → Handled
  unfolding list_versions_response guarded requested deliver_content
  route_response m list_route now scope = list_versions_response m now scope
  route_response m latest_route now scope = elim (h.upstream.latest m) [
    | err e ↦ some (err e, scope)
    | ok info ↦ guarded m info (json 200 (h.info_json info)) now scope
  ]
  route_response m (info_route version) now scope = elim (requested m version) [
    | err e ↦ some (err e, scope)
    | ok info ↦ guarded m info (json 200 (h.info_json info)) now scope
  ]
  route_response m (content_route version extension) now scope = elim (requested m version) [
    | err e ↦ some (err e, scope)
    | ok info ↦ guarded m info (deliver_content m version extension) now scope
  ]
