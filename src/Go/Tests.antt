-- ===== src/Go/Tests.antt =====
-- Runs of the Go adapter, and its theorems at concrete inputs.
use osv_proxy.Common.{
  ℕ, ◌++◌, ◌≤◌, ◌≡◌, ◌⊎◌, ◌↔◌, refl, true, false, Bool, Option, none, some, List, [], ◌∷◌, In, map,
  arith, ok, err, Text, codes, text_cmp, length,
}
use osv_proxy.Artifact.{Artifact}
use osv_proxy.Policy.Decisions.{Decision, DecisionReason, allowed_decision}
use osv_proxy.Policy.Tests.{std, config, scope}
use osv_proxy.Policy.{found}
use osv_proxy.Policy.Batch.{check_many_default, listed, evaluate_each}
use osv_proxy.Policy.Batch.Agreement.{asked}
use osv_proxy.Response.{RegistryResponse, html, json}
use osv_proxy.Go.Escape.{escape_module_path, unescape_module_path, osv_version}
use osv_proxy.Go.Escape.RoundTrip.{unescape_module_path-escape_module_path}
use osv_proxy.Go.Routes.{parse_route, list_route, content_route}
use osv_proxy.Go.{GoInfo, GoProxyProvider, gather, artifact, list_versions}
use osv_proxy.Go.Responses.{Handler, list_response, route_response}
use osv_proxy.Go.Responses.Served.{
  Decided, Delivered, AllowedAt, route_response-content, route_response-list,
}

abbrev m : Text
m = codes "github.com/BurntSushi/toml"

abbrev escaped : Text
escaped = codes "github.com/!burnt!sushi/toml"

escapes : escape_module_path m ≡ ok escaped
unfolding escape_module_path osv_proxy.Common.split_parts osv_proxy.Common.text_eq
    osv_proxy.Common.join
escapes = refl

unescape_module_path-escape_module_path_example : unescape_module_path escaped ≡ ok m
unescape_module_path-escape_module_path_example =
    unescape_module_path-escape_module_path m escaped escapes

reads_route :
    parse_route (codes "/go/" ++ (escaped ++ codes "/@v/v1.2.0.zip"))
    ≡ some (m, content_route (codes "v1.2.0") (codes "zip"))
unfolding parse_route osv_proxy.Common.split_parts osv_proxy.Common.join
reads_route = refl

refuses_percent : parse_route (codes "/go/a/../b/@v/list") ≡ none
unfolding parse_route osv_proxy.Common.split_parts osv_proxy.Common.join
refuses_percent = refl

reads_list :
    list_versions (codes "v1.0.0\r\n\n v1.1.0 \nv1.2.0")
    ≡ codes "v1.0.0" ∷ codes "v1.1.0" ∷ codes "v1.2.0" ∷ []
unfolding list_versions osv_proxy.Common.text_eq
reads_list = refl

drops_incompatible : osv_version (codes "v2.0.0+incompatible") ≡ ok (codes "2.0.0")
unfolding osv_version osv_proxy.Common.text_eq
drops_incompatible = refl

abbrev release : Text → GoInfo
release version = record { version = version; time = some 100 }

abbrev upstream : GoProxyProvider
upstream = record {
  list = λ m. ok (codes "v1.0.0" ∷ codes "v1.1.0" ∷ []);
  latest = λ m. ok (release (codes "v1.1.0"));
  info = λ m version. ok (release version);
  resource_url = λ m version extension. ok (m ++ (codes "/@v/" ++ (version ++ (b'.' ∷ extension))));
}

abbrev handler : Handler ℕ Text
handler = record {
  std = std;
  config = config;
  upstream = upstream;
  check = λ a. found [];
  check_many = check_many_default (λ a. found []);
  semver = record { parse = some; partial_cmp = λ a b. some (text_cmp a b) };
  arrange = λ results. results;
  decision_json = λ d. ok d.message;
  info_json = λ info. ok info.version;
  deliver = some (λ u. ok (html 200 u));
}

abbrev served : RegistryResponse
served = html 200 (codes "github.com/BurntSushi/toml/@v/v1.0.0.zip")

serves :
    route_response handler m (content_route (codes "v1.0.0") (codes "zip")) 500 scope
    ≡ some (ok served, scope)
unfolding route_response osv_proxy.Common.text_eq osv_proxy.Policy.evaluate
    osv_proxy.Policy.should_check_osv osv_proxy.Policy.find_allowlist_entry
    osv_proxy.Policy.hits_gate osv_proxy.Policy.Hits.blocking_malicious_hit osv_proxy.Common.min_by
    osv_proxy.Policy.Hits.blocking_vulnerability_hit osv_proxy.Policy.Hits.unevaluated_hit
    osv_proxy.Policy.find_blocklist_entry osv_proxy.Artifact.artifact_package allowed_decision
serves = refl

route_response-content_example :
    (info : GoInfo) × (d : Decision ℕ) × Decided handler m (codes "v1.0.0") 500 scope scope info d
    × (((d.allowed ≡ true) × Delivered handler m (codes "v1.0.0") (codes "zip") served)
        ⊎ ((d.allowed ≡ false) × (json 403 (handler.decision_json d) ≡ ok served)))
route_response-content_example =
    route_response-content handler m (codes "v1.0.0") (codes "zip") 500 scope scope served serves

abbrev both : List GoInfo
both = release (codes "v1.0.0") ∷ release (codes "v1.1.0") ∷ []

gathered : gather (map (upstream.info m) (codes "v1.0.0" ∷ codes "v1.1.0" ∷ [])) ≡ (both, none)
unfolding gather
gathered = refl

all_clean :
    check_many_default {F = ℕ} (λ a. found []) (asked std config (map (artifact std config m) both))
    ≡ listed (map (λ a. []) (asked std config (map (artifact std config m) both)))
unfolding check_many_default osv_proxy.Policy.Batch.indexed_artifacts
    osv_proxy.Policy.Batch.enumerate osv_proxy.Policy.should_check_osv
    osv_proxy.Policy.find_allowlist_entry
all_clean = refl

abbrev fine : Text → Decision ℕ
fine version =
    allowed_decision DecisionReason.is_allowed (artifact std config m (release version))
      (codes "Package version is allowed")

decided :
    evaluate_each std config (λ a. found []) 500 (map (artifact std config m) both) scope
    ≡ some (fine (codes "v1.0.0") ∷ fine (codes "v1.1.0") ∷ [], scope)
unfolding evaluate_each osv_proxy.Policy.evaluate osv_proxy.Policy.should_check_osv
    osv_proxy.Policy.find_allowlist_entry osv_proxy.Policy.hits_gate
    osv_proxy.Policy.Hits.blocking_malicious_hit osv_proxy.Common.min_by
    osv_proxy.Policy.Hits.blocking_vulnerability_hit osv_proxy.Policy.Hits.unevaluated_hit
    osv_proxy.Policy.find_blocklist_entry osv_proxy.Artifact.artifact_package
decided = refl

route_response-list_example :
    (vs : List Text) × (route_response handler m list_route 500 scope
      ≡ some (ok (list_response vs), scope))
    × ((v : Text)
        → In v vs ↔ (
            (info : GoInfo) × AllowedAt handler info both
              (fine (codes "v1.0.0") ∷ fine (codes "v1.1.0") ∷ [])
            × (info.version ≡ v)))
route_response-list_example =
    route_response-list handler (λ a. []) m 500 scope scope (codes "v1.0.0" ∷ codes "v1.1.0" ∷ [])
      both (fine (codes "v1.0.0") ∷ fine (codes "v1.1.0") ∷ []) refl (omega arith) gathered
      all_clean decided
