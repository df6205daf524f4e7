-- ===== src/Go.antt =====
-- src/go.rs: the GOPROXY protocol. The upstream is the interface `GoProxyProvider`; the delivery of
-- content, semantic versions (the `node_semver` package) and serde_json are parameters.
pub mod Escape
pub mod Routes
pub mod Responses
mod Tests
use osv_proxy.Common.{
  ℕ, ◌++◌, Bool, Option, none, some, List, [], ◌∷◌, Ordering, Result, ok, err, Text, codes,
  text_cmp, if◌then◌else◌, strip_suffix, length, map, filter, not, ltb, trim, lines, is_empty,
  trim_end,
}
use osv_proxy.Common.Equality.{◌>>=◌}
use osv_proxy.Common.Results
use osv_proxy.Platform.{Platform}
use osv_proxy.Config.{Config}
use osv_proxy.Artifact.{Artifact, go, artifact_package}
use osv_proxy.Policy.Decisions.{Decision, Scope}
use osv_proxy.Policy.{Checked}
use osv_proxy.Policy.Batch.{
  Batched, accept_results, enumerate, indexed_artifacts, result_at, evaluate_answered,
}
use Escape.{
  GoError, Outcome, invalid_route, list_too_large, escape_module_path, validate_version,
  escape_go_component,
}

pub record GoInfo : Type 0 where
  pub version : Text
  pub time : Option ℕ

pub record GoProxyProvider : Type 0 where
  pub list : Text → Outcome (List Text)
  pub latest : Text → Outcome GoInfo
  pub info : Text → Text → Outcome GoInfo
  pub resource_url : Text → Text → Text → Outcome Text

-- The client's `url`, over its base URL.
unfoldable pub url : Text → Text → Text → Outcome Text
url base_url m suffix =
    Results.◌>>=◌ (escape_module_path m)
      (λ escaped. ok (base_url ++ (b'/' ∷ (escaped ++ (b'/' ∷ suffix)))))

-- `GoProxyClient::resource_url`.
unfoldable pub resource_url : Text → Text → Text → Text → Outcome Text
unfolding url
resource_url base_url m version extension = Results.◌>>=◌ (validate_version version) (λ _.
    Results.◌>>=◌ (escape_go_component version)
      (λ escaped. url base_url m (codes "@v/" ++ (escaped ++ (b'.' ∷ extension)))))

-- The versions in the body of a version list.
unfoldable pub list_versions : Text → List Text
unfolding lines
list_versions body = filter (λ v. not (is_empty v)) (map trim (lines body))

abbrev without_incompatible : Text → Text
without_incompatible v = elim (strip_suffix v (codes "+incompatible")) [ none ↦ v | some r ↦ r ]

-- What `node_semver` does: `Version::parse`, and `partial_cmp`.
pub record Semver (V : Type 0) : Type 0 where
  pub parse : Text → Option V
  pub partial_cmp : V → V → Option Ordering

unfoldable pub compare_versions : {V : Type 0} → Semver V → Text → Text → Outcome Ordering
unfolding strip_suffix
compare_versions semver left right =
    let l = without_incompatible left in
    let r = without_incompatible right in
    elim (semver.parse l) [
      | none ↦ err (invalid_route l)
      | some v ↦ elim (semver.parse r) [
        | none ↦ err (invalid_route r)
        | some w ↦ elim (semver.partial_cmp v w) [
          | none ↦ err (invalid_route (l ++ (codes ", " ++ r)))
          | some o ↦ ok o
        ]
      ]
    ]

-- The comparison that `route_response` sorts by.
unfoldable pub order_versions : {V : Type 0} → Semver V → Text → Text → Ordering
unfolding compare_versions
order_versions semver a b = elim (compare_versions semver a b) [ ok o ↦ o | err e ↦ text_cmp a b ]

-- The loop over the pending requests, in the order in which they end: the infos, and the error that
-- came last.
abbrev last_of : GoError → Option GoError → GoError
last_of e none = e
last_of e (some later) = later

unfoldable pub gather : List (Outcome GoInfo) → List GoInfo × Option GoError
gather [] = ([], none)
gather (ok info ∷ results) = let (infos, failed) = gather results in (info ∷ infos, failed)
gather (err e ∷ results) = let (infos, failed) = gather results in (infos, some (last_of e failed))

abbrev pub list_info_limit : ℕ
list_info_limit = 256

module _ {F : Type 0} (std : Platform F) (config : Config F) where
  -- `artifact`.
  abbrev pub artifact : Text → GoInfo → Artifact
  artifact m info = artifact_package std.lowercase go m info.version info.time

  abbrev pub keep_allowed : List GoInfo → List (Decision F) → List GoInfo
  keep_allowed (info ∷ infos) (d ∷ ds) =
      if d.allowed then info ∷ keep_allowed infos ds else keep_allowed infos ds
  keep_allowed _ _ = []

  -- The policy's part of `filtered_infos`. There is a result for each artifact that is checked, since
  -- `accept_results` compares their numbers: the text for a missing one is never used.
  unfoldable pub decide_infos :
      (List Artifact → Batched F) → ℕ → List Artifact → Scope → Option (List (Decision F) × Scope)
  unfolding enumerate indexed_artifacts accept_results result_at evaluate_answered
  decide_infos check_many now artifacts scope =
      let selected = indexed_artifacts std config (enumerate 0 artifacts) in
      let checked = map (λ e. e.1) selected in
      let results =
        accept_results (λ results artifacts'. codes "OSV batch result cardinality mismatch") checked
          (check_many checked) in
      evaluate_answered std config now
        (map (λ e. (e.1, result_at (λ name. name) results selected e)) (enumerate 0 artifacts))
        scope

  -- `filtered_infos`: `arrange` is the order in which the requests for the infos end.
  unfoldable pub filtered_infos :
      GoProxyProvider
      → (List (Outcome GoInfo) → List (Outcome GoInfo))
      → (List Artifact → Batched F)
      → Text
      → ℕ
      → Scope
      → Option (Outcome (List GoInfo) × Scope)
  unfolding gather decide_infos
  filtered_infos upstream arrange check_many m now scope = elim (upstream.list m) [
    | err e ↦ some (err e, scope)
    | ok versions ↦
        if ltb list_info_limit (length versions)
        then some (err (list_too_large (length versions)), scope)
        else (let (infos, failed) = gather (arrange (map (upstream.info m) versions)) in
            elim failed [
              | some e ↦ some (err e, scope)
              | none ↦
                  decide_infos check_many now (map (artifact m) infos) scope
                  >>= (λ r. some (ok (keep_allowed infos r.0), r.1))
            ])
  ]
