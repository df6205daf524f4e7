-- ===== src/Go/Responses/Served.antt =====
-- What the routes of src/go.rs serve.
use osv_proxy.Common.{
  ℕ, codes, ◌≤◌, ltb, sort_by, ◌≡◌, refl, ◌⊎◌, ◌↔◌, inl, inr, true, false, Bool-cases, Option-cases,
  none, some, List, [], ◌∷◌, In, map, length, arith, ok, err, Text, text_eq, text_eq_iff, bind-ok,
  guard-ok, ok-injective, err-ne-ok, if◌then◌else◌, Result-cases, In-sort_by, In-dedup, sym, ap,
  ◌∙◌, not,
}
use osv_proxy.Common.Equality.{bind-some, some-pair}
use osv_proxy.Finding.{OsvFinding}
use osv_proxy.Artifact.{Artifact}
use osv_proxy.Policy.Decisions.{Decision, Scope}
use osv_proxy.Policy.{evaluate, found}
use osv_proxy.Policy.Batch.{
  listed, Cardinality, enumerate, accept_results, evaluate_each, indexed_artifacts,
}
use osv_proxy.Policy.Batch.Answers.{answers-single}
use osv_proxy.Policy.Batch.Agreement.{asked, map-map, length-map, evaluate_answered-single}
use osv_proxy.Response.{RegistryResponse, json}
use osv_proxy.Go.Escape.{Outcome, invalid_response}
use osv_proxy.Go.Routes.{list_route, content_route}
use osv_proxy.Go.{
  GoInfo, artifact, keep_allowed, gather, decide_infos, filtered_infos, order_versions,
  list_info_limit,
}
use osv_proxy.Go.Responses.{
  Handler, guarded, requested, deliver_content, list_response, listed_versions,
  list_versions_response, route_response,
}

module _ {F V : Type 0} (h : Handler F V) where
  -- The info of the version that was asked for, and its decision.
  abbrev pub Decided : Text → Text → ℕ → Scope → Scope → GoInfo → Decision F → Type 0
  Decided m version now scope scope' info d =
      (h.upstream.info m version ≡ ok info)
      × (info.version ≡ version)
      × (evaluate h.std h.config h.check (artifact h.std h.config m info) now scope
          ≡ some (d, scope'))

  -- The answer comes from the delivery, which was given the URL of the file.
  abbrev pub Delivered : Text → Text → Text → RegistryResponse → Type 0
  Delivered m version extension r =
      (deliver : Text → Outcome RegistryResponse) × (u : Text) × (h.deliver ≡ some deliver)
      × (h.upstream.resource_url m version extension ≡ ok u)
      × (deliver u ≡ ok r)

  guarded-ok :
      (m : Text) (info : GoInfo) (served : Outcome RegistryResponse) (now : ℕ)
      (scope scope' : Scope) (r : RegistryResponse)
      → guarded h m info served now scope ≡ some (ok r, scope')
      → (d : Decision F) × (evaluate h.std h.config h.check
            (artifact h.std h.config m info)
            now
            scope
          ≡ some (d, scope'))
        × (((d.allowed ≡ true) × (served ≡ ok r))
            ⊎ ((d.allowed ≡ false) × (json 403 (h.decision_json d) ≡ ok r)))
  unfolding guarded
  guarded-ok m info served now scope scope' r e =
      let (x, e₁, e₂) =
        bind-some (evaluate h.std h.config h.check (artifact h.std h.config m info) now scope) _
          (ok r, scope') e in
      let (e₃, e₄) = some-pair _ _ x.1 scope' e₂ in
      (
        x.0,
        e₁ ∙ ap (λ s. some (x.0, s)) e₄,
        elim (Bool-cases x.0.allowed) [
          | inl a ↦
              inl
                (a, sym (ap (λ b. if not b then json 403 (h.decision_json x.0) else served) a) ∙ e₃)
          | inr a ↦
              inr
                (a, sym (ap (λ b. if not b then json 403 (h.decision_json x.0) else served) a) ∙ e₃)
        ],
      )

  requested-ok :
      (m version : Text) (info : GoInfo)
      → requested h m version ≡ ok info
      → (h.upstream.info m version ≡ ok info) × (info.version ≡ version)
  unfolding requested
  requested-ok m version info e =
      let (i, e₁, e₂) = bind-ok (h.upstream.info m version) _ info e in
      let (t, e₃) = guard-ok _ _ _ info e₂ in
      let same = ok-injective i info e₃ in
      (
        e₁ ∙ ap ok same,
        sym (ap (λ j. j.version) same) ∙ (text_eq_iff i.version version).0 (ground arith),
      )

  deliver_content-Delivered :
      (m version extension : Text) (r : RegistryResponse)
      → deliver_content h m version extension ≡ ok r
      → Delivered m version extension r
  unfolding deliver_content
  deliver_content-Delivered m version extension r e = elim (Option-cases h.deliver) [
    | inl e₁ ↦
        absurd (err-ne-ok (invalid_response (codes "missing artifact delivery")) r (rw e₁ at e))
    | inr (f, e₁) ↦
        let (u, e₂, e₃) = bind-ok (h.upstream.resource_url m version extension) f r (rw e₁ at e) in
        (f, u, e₁, e₂, e₃)
  ]

  -- A response to a request for a file of a version comes after the policy has decided on the info of
  -- that very version: where it allows, the response is what the delivery made of the URL of that file,
  -- and where it denies, the decision with the status 403.
  pub route_response-content :
      (m version extension : Text) (now : ℕ) (scope scope' : Scope) (r : RegistryResponse)
      → route_response h m (content_route version extension) now scope ≡ some (ok r, scope')
      → (info : GoInfo) × (d : Decision F) × Decided m version now scope scope' info d
        × (((d.allowed ≡ true) × Delivered m version extension r)
            ⊎ ((d.allowed ≡ false) × (json 403 (h.decision_json d) ≡ ok r)))
  unfolding route_response
  route_response-content m version extension now scope scope' r e =
      elim (Result-cases (requested h m version)) [
        | inr (x, e₁) ↦
            absurd (
              err-ne-ok x r
                (some-pair (err x) (ok r) scope scope' (rw (e₁, route_response) at e)).0)
        | inl (info, e₁) ↦
            let (e₂, e₃) = requested-ok m version info e₁ in
            let (d, e₄, answer) =
              guarded-ok m info (deliver_content h m version extension) now scope scope' r
                (rw (e₁, route_response) at e) in
            (
              info,
              d,
              (e₂, e₃, e₄),
              elim answer [
                | inl (a, e₅) ↦ inl (a, deliver_content-Delivered m version extension r e₅)
                | inr denied ↦ inr denied
              ],
            )
      ]

  accept_results-all :
      (message : Cardinality) (hits : Artifact → List (OsvFinding F)) (xs : List Artifact)
      → h.check_many xs ≡ listed (map hits xs)
      → accept_results message xs (h.check_many xs) ≡ listed (map hits xs)
  unfolding accept_results
  accept_results-all message hits xs e = ground (arith, length-map h.std h.config hits xs)

  decide_infos-each :
      (hits : Artifact → List (OsvFinding F)) (now : ℕ) (artifacts : List Artifact) (scope : Scope)
      → h.check_many (asked h.std h.config artifacts)
        ≡ listed (map hits (asked h.std h.config artifacts))
      → decide_infos h.std h.config h.check_many now artifacts scope
        ≡ evaluate_each h.std h.config (λ a. found (hits a)) now artifacts scope
  unfolding decide_infos
  decide_infos-each hits now artifacts scope e =
      let indexed = indexed_artifacts h.std h.config (enumerate 0 artifacts) in
      rw
        (
          accept_results-all _ hits (asked h.std h.config artifacts) e,
          map-map h.std h.config hits indexed,
          answers-single h.std h.config (λ name. name) hits 0 artifacts,
        )
        (evaluate_answered-single h.std h.config (λ a. found (hits a)) now artifacts scope)

  -- The info is among the first, and the decision at its place allows it.
  abbrev pub AllowedAt : GoInfo → List GoInfo → List (Decision F) → Type 0
  AllowedAt info (i ∷ infos) (d ∷ ds) = ((info ≡ i) × (d.allowed ≡ true)) ⊎ AllowedAt info infos ds
  AllowedAt info _ _ = ⊥

  In-keep_allowed :
      (infos : List GoInfo) (ds : List (Decision F)) (info : GoInfo)
      → In info (keep_allowed h.std h.config infos ds) ↔ AllowedAt info infos ds
  In-keep_allowed [] ds info = ground arith
  In-keep_allowed (i ∷ infos) [] info = ground arith
  In-keep_allowed (i ∷ infos) (d ∷ ds) info = elim (Bool-cases d.allowed) [
    | inl e ↦ ground (arith, In-keep_allowed infos ds info)
    | inr e ↦ ground (arith, In-keep_allowed infos ds info)
  ]

  In-versions :
      (infos : List GoInfo) (v : Text)
      → In v (map (λ i. i.version) infos) ↔ ((i : GoInfo) × In i infos × (i.version ≡ v))
  In-versions [] v = ((λ e. absurd e), (λ e. absurd e.1))
  In-versions (i ∷ infos) v = (
    (λ e. elim e [
      | inl k ↦ (i, inl refl, sym k)
      | inr k ↦ let (j, a, b) = (In-versions infos v).0 k in (j, inr a, b)
    ]),
    (λ (j, a, b). elim a [
      | inl k ↦ inl (sym b ∙ ap (λ x. x.version) k)
      | inr k ↦ inr ((In-versions infos v).1 (j, k, b))
    ]),
  )

  In-listed_versions :
      (infos : List GoInfo) (ds : List (Decision F)) (v : Text)
      → In v (listed_versions h (keep_allowed h.std h.config infos ds))
        ↔ ((info : GoInfo) × AllowedAt info infos ds × (info.version ≡ v))
  unfolding listed_versions
  In-listed_versions infos ds v =
      let kept = keep_allowed h.std h.config infos ds in
      let versions = map (λ i. i.version) kept in
      let sorted = sort_by (order_versions h.semver) versions in
      let distinct = In-dedup text_eq (λ a b. (text_eq_iff a b).0) sorted v in
      let present = In-sort_by (order_versions h.semver) versions v in
      (
        (λ e.
            let (i, a, b) = (In-versions kept v).0 (present.0 (distinct.0 e)) in
            (i, (In-keep_allowed infos ds i).0 a, b)),
        (λ (i, a, b).
            distinct.1
              (present.1 ((In-versions kept v).1 (i, (In-keep_allowed infos ds i).1 a, b)))),
      )

  -- The version list of a module, where it has no more than 256 versions, every info is fetched and the
  -- OSV database answers for the infos that are checked: the response is made of texts which are
  -- exactly the versions of the infos that the policy allows, each decided as on its own.
  pub route_response-list :
      (hits : Artifact → List (OsvFinding F)) (m : Text) (now : ℕ) (scope scope' : Scope)
      (versions : List Text) (infos : List GoInfo) (ds : List (Decision F))
      → h.upstream.list m ≡ ok versions
      → length versions ≤ list_info_limit
      → gather (h.arrange (map (h.upstream.info m) versions)) ≡ (infos, none)
      → h.check_many (asked h.std h.config (map (artifact h.std h.config m) infos))
        ≡ listed (map hits (asked h.std h.config (map (artifact h.std h.config m) infos)))
      → evaluate_each h.std h.config
          (λ a. found (hits a))
          now
          (map (artifact h.std h.config m) infos)
          scope
        ≡ some (ds, scope')
      → (vs : List Text) × (route_response h m list_route now scope
          ≡ some (ok (list_response vs), scope'))
        × ((v : Text) → In v vs ↔ ((info : GoInfo) × AllowedAt info infos ds × (info.version ≡ v)))
  unfolding route_response list_versions_response filtered_infos
  route_response-list hits m now scope scope' versions infos ds e₁ e₂ e₃ e₄ e₅ =
      let within : ltb list_info_limit (length versions) ≡ false = ground arith in
      (
        listed_versions h (keep_allowed h.std h.config infos ds),
        rw
            (
              e₁,
              within,
              e₃,
              e₃,
              decide_infos-each hits now (map (artifact h.std h.config m) infos) scope e₄,
              e₅,
              route_response,
              list_versions_response,
              filtered_infos,
            )
            refl,
        In-listed_versions infos ds,
      )
