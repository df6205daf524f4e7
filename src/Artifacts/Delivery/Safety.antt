-- ===== src/Artifacts/Delivery/Safety.antt =====
-- Where a delivery of src/artifacts.rs goes to.
use osv_proxy.Common.{
  ◌≡◌, ◌<◌, ◌≤◌, refl, sym, ◌⊎◌, inl, inr, Bool, false, Option, arith, Text, Result, ok, err,
  bind-ok, guard-ok, ok-injective, err-ne-ok, subst, Result-cases,
}
use osv_proxy.Artifact.{Ecosystem}
use osv_proxy.Config.{ArtifactBehavior}
use osv_proxy.Config.Net.{Url, UrlParse}
use osv_proxy.Response.{redirect}
use osv_proxy.Runtime.{Wait, Flag, install_egress}
use osv_proxy.Artifacts.Egress.{validate_url}
use osv_proxy.Artifacts.Delivery.{
  ArtifactDeliveryClient, ArtifactDeliveryResponse, buffered, streaming, Upstream, Headers,
  validated_url, request, deliver_url, deliver, is_forbidden_redirect, is_error, checked,
  granted_or, forwarded, forbidden_destination, upstream,
}
use osv_proxy.Artifacts.Permitted.{IsPermitted, UrlParse-cases, validate_url-IsPermitted}

module _ (client : ArtifactDeliveryClient) where
  -- A response with a status below 300, the status 304, or none that HTTP defines.
  abbrev pub IsAnswer : Upstream → Type 0
  IsAnswer r = (r.status < 300) ⊎ (r.status ≡ 304) ⊎ (600 ≤ r.status)

  answers :
      (r : Upstream)
      → is_forbidden_redirect r.status ≡ false
      → is_error r.status ≡ false
      → IsAnswer r
  unfolding is_forbidden_redirect
  answers r h k = ground arith

  request-streaming :
      (head : Bool) (u : Url) (headers : Headers) (response : ArtifactDeliveryResponse)
      → request client head u headers ≡ ok response
      → (r : Upstream) × (client.send head u headers ≡ ok r) × (response ≡ streaming r) × IsAnswer r
  unfolding request
  request-streaming head u headers response h = elim (Result-cases (client.send head u headers)) [
    | inr (e, k) ↦ absurd (err-ne-ok (upstream e) response (rw (k, request) at h))
    | inl (r, k) ↦
        let (redirects, h₁) = guard-ok _ _ _ response (rw (k, request) at h) in
        let (errs, h₂) = guard-ok _ _ _ response h₁ in
        (r, k, sym (ok-injective (streaming r) response h₂), answers r redirects errs)
  ]

  checked-ok :
      (u v : Url) (r : Result Text (Unit {0})) → checked client u r ≡ ok v → (r ≡ ok tt) × (u ≡ v)
  checked-ok u v (ok t) h = (refl, ok-injective u v h)
  checked-ok u v (err e) h = absurd (err-ne-ok (forbidden_destination e) v h)

  validated_url-IsPermitted :
      (e : Ecosystem) (value : Text) (u : Url)
      → validated_url client e value ≡ ok u
      → (client.network.parse_url value ≡ UrlParse.url u)
        × IsPermitted client.network client.egress e u
  unfolding validated_url
  validated_url-IsPermitted e value u h = elim (UrlParse-cases (client.network.parse_url value)) [
    | inr (message, k) ↦ absurd (err-ne-ok _ u (rw (k, validated_url) at h))
    | inl (v, k) ↦
        let (valid, same) =
          checked-ok v u (validate_url client.network client.egress e v)
            (rw (k, validated_url) at h) in
        subst
          (λ u.
            (client.network.parse_url value ≡ UrlParse.url u)
            × IsPermitted client.network client.egress e u)
          same (k, validate_url-IsPermitted client.network client.egress e v valid)
  ]

  -- Where the answer comes from.
  abbrev pub IsServed : ArtifactBehavior → Bool → Url → ArtifactDeliveryResponse → Type 0
  IsServed ArtifactBehavior.redirect head u response =
      response ≡ buffered (redirect (client.show_url u))
  IsServed ArtifactBehavior.proxy head u response =
      (headers : Headers) × (r : Upstream) × (client.send head u headers ≡ ok r)
      × (response ≡ streaming r)
      × IsAnswer r
  IsServed ArtifactBehavior.proxy_cache_s3 head u response = ⊥

  deliver_url-IsServed :
      (behavior : ArtifactBehavior) (head : Bool) (u : Url) (headers : Headers) (wait : Wait)
      (flag : Flag) (response : ArtifactDeliveryResponse)
      → (deliver_url client behavior head u headers wait flag).0 ≡ ok response
      → IsServed behavior head u response
  unfolding deliver_url
  deliver_url-IsServed ArtifactBehavior.redirect head u headers wait flag response h =
      sym (ok-injective (buffered (redirect (client.show_url u))) response h)
  deliver_url-IsServed ArtifactBehavior.proxy head u headers wait flag response h =
      let (granted, e, h₁) =
        bind-ok (granted_or client (install_egress wait flag).0) _ response h in
      let (r, sent, made, answer) = request-streaming head u headers response h₁ in
      (headers, r, sent, made, answer)
  deliver_url-IsServed ArtifactBehavior.proxy_cache_s3 head u headers wait flag response h =
      absurd (err-ne-ok _ response h)

  -- A delivery that succeeds goes to a URL over http or https without credentials and fragment, whose
  -- origin is configured for the ecosystem or for all, or which is public: over https, to a host that
  -- is not configured, not localhost, and no address in a block for special purposes. It redirects
  -- there, or passes on an answer whose status is no redirect but 304, and no error.
  pub deliver-IsPermitted :
      (behavior : ArtifactBehavior) (head : Bool) (ecosystem : Ecosystem) (upstream_url : Text)
      (request_headers : Option Headers) (wait : Wait) (flag : Flag)
      (response : ArtifactDeliveryResponse)
      → (deliver client behavior head ecosystem upstream_url request_headers wait flag).0
        ≡ ok response
      → (u : Url) × (client.network.parse_url upstream_url ≡ UrlParse.url u)
        × IsPermitted client.network client.egress ecosystem u
        × IsServed behavior head u response
  unfolding deliver
  deliver-IsPermitted behavior head ecosystem upstream_url request_headers wait flag response h =
      elim (Result-cases (validated_url client ecosystem upstream_url)) [
        | inr (e, k) ↦ absurd (err-ne-ok e response (rw (k, deliver) at h))
        | inl (u, k) ↦
            let (parsed, permitted) = validated_url-IsPermitted ecosystem upstream_url u k in
            (
              u,
              parsed,
              permitted,
              deliver_url-IsServed behavior head u (forwarded request_headers) wait flag response
                  (rw (k, deliver) at h),
            )
      ]
