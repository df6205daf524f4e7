-- ===== src/Config/Validity.antt =====
-- Which configurations `Config::validate` of src/config.rs accepts, field by field.
use osv_proxy.Common.{◌≤◌, ◌≡◌, ◌≢◌, ◌↔◌, refl, arith, true, false, is_some, Text, codes, In}
use osv_proxy.Platform.{Platform, score_ge, delta_from_std}
use osv_proxy.Config.{Config, OsvConfig, AllowlistEntry, BlocklistEntry, ArtifactBehavior}
use osv_proxy.Config.Net.{Net}
use osv_proxy.Config.Validate.{
  ok, for_each, validate_local, validate_osv, validate_allowed, validate_blocked,
  validate_threshold,
}
use osv_proxy.Config.Places.{IsBind, IsHttpUrl, IsOrigin, HasUpstreams, validate_bind-ok_iff}
use osv_proxy.Config.Urls.{
  validate_http_url-ok_iff, validate_trusted_origin-ok_iff, validate_upstreams-ok_iff,
}
use osv_proxy.Config.Addresses.{validate, validate_trusted_origin, is_proxy_cache}
use osv_proxy.Config.Entries.{
  HasLimits, HasCache, HasLocal, IsExact, NamesVersions, and_then-ok, refuse_if-ok, for_each-ok,
  for_each-all, validate_limits-ok_iff, validate_metadata_cache-ok_iff, validate_local-ok_iff,
  validate_allowed-ok_iff, validate_blocked-ok_iff,
}

module _ {F : Type 0} (net : Net) (std : Platform F) where
  -- A threshold that `minimum_cvss_score` may be.
  abbrev pub IsThreshold : F → Type 0
  IsThreshold score =
      (std.is_finite score ≡ true)
      × (score_ge std score std.zero_score ≡ true)
      × (score_ge std std.ten_score score ≡ true)

  -- The configurations that a server may run with.
  pub record IsValid (c : Config F) : Type 0 where
    pub bind : IsBind net c.server.bind
    pub public_base_url : IsHttpUrl net c.server.public_base_url
    pub limits : HasLimits c.limits
    pub metadata_cache : HasCache c.metadata_cache
    pub upstreams : HasUpstreams net c.upstreams
    pub minimum_age : c.policy.minimum_age ≤ std.max_delta
    pub behavior : c.artifacts.behavior ≢ ArtifactBehavior.proxy_cache_s3
    pub origins : (o : Text) → In o c.artifacts.trusted_origins → IsOrigin net o
    pub threshold : IsThreshold c.policy.osv.minimum_cvss_score
    pub local : HasLocal c.policy.osv.local
    pub allowlist : (e : AllowlistEntry) → In e c.allowlist → IsExact e
    pub blocklist : (e : BlocklistEntry) → In e c.blocklist → NamesVersions e

  validate_osv-ok_iff :
      (c : OsvConfig F)
      → (validate_osv std c ≡ ok) ↔ (IsThreshold c.minimum_cvss_score × HasLocal c.local)
  unfolding validate_osv
  validate_osv-ok_iff c = (
    (λ h.
        let (t, l) =
          and_then-ok (validate_threshold std c.minimum_cvss_score) (validate_local c.local) h in
        (
          (ground (arith, t), ground (arith, t), ground (arith, t)),
          (validate_local-ok_iff c.local).0 l,
        )),
    (λ h. ground (arith, h.0, (validate_local-ok_iff c.local).1 h.1)),
  )

  not_proxy_cache :
      (b : ArtifactBehavior) → is_proxy_cache b ≡ false → b ≢ ArtifactBehavior.proxy_cache_s3
  not_proxy_cache b h e = ground (arith, e, h)

  is_served :
      (b : ArtifactBehavior) → b ≢ ArtifactBehavior.proxy_cache_s3 → is_proxy_cache b ≡ false
  is_served ArtifactBehavior.redirect h = refl
  is_served ArtifactBehavior.proxy h = refl
  is_served ArtifactBehavior.proxy_cache_s3 h = absurd (h refl)

  IsValid-of_ok : (c : Config F) → validate net std c ≡ ok → IsValid c
  unfolding validate
  IsValid-of_ok c h =
      let (a, h₁) = and_then-ok _ _ h in
      let (b, h₂) = and_then-ok _ _ h₁ in
      let (l, h₃) = and_then-ok _ _ h₂ in
      let (m, h₄) = and_then-ok _ _ h₃ in
      let (u, h₅) = and_then-ok _ _ h₄ in
      let (age, h₆) = and_then-ok _ _ h₅ in
      let (p, h₇) = and_then-ok _ _ h₆ in
      let (o, h₈) = and_then-ok _ _ h₇ in
      let (v, h₉) = and_then-ok _ _ h₈ in
      let (al, bl) =
        and_then-ok (for_each validate_allowed c.allowlist) (for_each validate_blocked c.blocklist)
          h₉ in
      let osv = (validate_osv-ok_iff c.policy.osv).0 v in
      record {
        bind = (validate_bind-ok_iff net c.server.bind).0 a;
        public_base_url = (validate_http_url-ok_iff net _ c.server.public_base_url).0 b;
        limits = (validate_limits-ok_iff c.limits).0 l;
        metadata_cache = (validate_metadata_cache-ok_iff c.metadata_cache).0 m;
        upstreams = (validate_upstreams-ok_iff net c.upstreams).0 u;
        minimum_age = ground (arith, refuse_if-ok _ _ age);
        behavior = not_proxy_cache c.artifacts.behavior (refuse_if-ok _ _ p);
        origins = λ x i.
            (validate_trusted_origin-ok_iff net x).0
              (for_each-ok (validate_trusted_origin net) c.artifacts.trusted_origins o x i);
        threshold = osv.0;
        local = osv.1;
        allowlist =
            λ e i. (validate_allowed-ok_iff e).0 (for_each-ok validate_allowed c.allowlist al e i);
        blocklist =
            λ e i. (validate_blocked-ok_iff e).0 (for_each-ok validate_blocked c.blocklist bl e i);
      }

  ok_of_valid : (c : Config F) → IsValid c → validate net std c ≡ ok
  unfolding validate
  ok_of_valid c h =
      let bind = (validate_bind-ok_iff net c.server.bind).1 h.bind in
      let base =
        (validate_http_url-ok_iff net (codes "server.public_base_url") c.server.public_base_url).1
          h.public_base_url in
      let u = (validate_upstreams-ok_iff net c.upstreams).1 h.upstreams in
      let l = (validate_limits-ok_iff c.limits).1 h.limits in
      let m = (validate_metadata_cache-ok_iff c.metadata_cache).1 h.metadata_cache in
      let age : is_some (delta_from_std std c.policy.minimum_age) ≡ true =
        ground (arith, h.minimum_age) in
      let p = is_served c.artifacts.behavior h.behavior in
      let o =
        for_each-all (validate_trusted_origin net) c.artifacts.trusted_origins
          (λ x i. (validate_trusted_origin-ok_iff net x).1 (h.origins x i)) in
      let v = (validate_osv-ok_iff c.policy.osv).1 (h.threshold, h.local) in
      let al =
        for_each-all validate_allowed c.allowlist
          (λ e i. (validate_allowed-ok_iff e).1 (h.allowlist e i)) in
      let bl =
        for_each-all validate_blocked c.blocklist
          (λ e i. (validate_blocked-ok_iff e).1 (h.blocklist e i)) in
      rw (bind, base, l, m, u, age, p, o, v, al, bl) refl

  pub validate-ok_iff : (c : Config F) → (validate net std c ≡ ok) ↔ IsValid c
  validate-ok_iff c = (IsValid-of_ok c, ok_of_valid c)
