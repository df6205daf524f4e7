-- ===== src/Artifacts/Resolved.antt =====
-- Which addresses `SafeResolver` of src/artifacts.rs hands on.
use osv_proxy.Common.{
  ◌≡◌, ◌≢◌, refl, ◌⊎◌, inl, inr, Bool, true, false, Bool-cases, none, List, [], ◌∷◌, In, find,
  arith, Text, ascii_lowercase, ok, err-ne-ok, ok-injective, bind-ok, Option-cases, subst, sym,
}
use osv_proxy.Artifacts.Addresses.{IpAddr, is_forbidden_ip}
use osv_proxy.Artifacts.Public.{IsPublicIp, is_forbidden_ip-public}
use osv_proxy.Artifacts.Egress.{
  Network, ArtifactEgressPolicy, host_is_trusted, check_addresses, resolve,
}
use osv_proxy.Artifacts.Permitted.{holds-In}

find-none :
    {A : Type 0} (p : A → Bool) (xs : List A) → find p xs ≡ none → (x : A) → In x xs → p x ≡ false
find-none p [] h x i = elim i [ ]
find-none p (y ∷ xs) h x i = elim (Bool-cases (p y)) [
  | inl e ↦ absurd (ground arith)
  | inr e ↦ elim i [ inl q ↦ ground (arith, q) | inr j ↦ find-none p xs (ground arith) x j ]
]

module _ (net : Network) (policy : ArtifactEgressPolicy) where
  host_is_trusted-In :
      (host : Text)
      → host_is_trusted net policy host ≡ true
      → In (ascii_lowercase host) policy.trusted_hosts
  unfolding host_is_trusted
  host_is_trusted-In host h = (holds-In policy.trusted_hosts (ascii_lowercase host)).0 h

  -- Every address, unless the host is configured.
  abbrev pub AreSafe : Text → List IpAddr → Type 0
  AreSafe host addresses =
      In (ascii_lowercase host) policy.trusted_hosts
      ⊎ ((ip : IpAddr) → In ip addresses → IsPublicIp ip)

  check_addresses-AreSafe :
      (host : Text) (addresses found : List IpAddr)
      → check_addresses net policy host addresses ≡ ok found
      → (found ≡ addresses) × (found ≢ []) × AreSafe host found
  unfolding check_addresses
  check_addresses-AreSafe host [] found h = absurd (ground (arith, h))
  check_addresses-AreSafe host (a ∷ addresses) found h =
      elim (Bool-cases (host_is_trusted net policy host)) [
        | inl t ↦
            let same = ok-injective (a ∷ addresses) found (rw (t, check_addresses) at h) in
            subst (λ f. (f ≡ a ∷ addresses) × (f ≢ []) × AreSafe host f) same
              (refl, (λ e. ground arith), inl (host_is_trusted-In host t))
        | inr t ↦ elim (Option-cases (find is_forbidden_ip (a ∷ addresses))) [
          | inr (ip, k) ↦ absurd (err-ne-ok _ found (rw (t, k, check_addresses) at h))
          | inl k ↦
              let same = ok-injective (a ∷ addresses) found (rw (t, k, check_addresses) at h) in
              subst (λ f. (f ≡ a ∷ addresses) × (f ≢ []) × AreSafe host f) same
                (
                  refl,
                  (λ e. ground arith),
                  inr (λ ip i.
                      is_forbidden_ip-public ip (find-none is_forbidden_ip (a ∷ addresses) k ip i)),
                )
        ]
      ]

  -- What the resolver hands on is what DNS returns for the name in lower case, at least one address,
  -- and every one of them public unless the host is configured.
  pub resolve-AreSafe :
      (name : Text) (addresses : List IpAddr)
      → resolve net policy name ≡ ok addresses
      → (net.lookup_host (ascii_lowercase name) ≡ ok addresses)
        × (addresses ≢ [])
        × AreSafe (ascii_lowercase name) addresses
  unfolding resolve
  resolve-AreSafe name addresses h =
      let (found, e, k) = bind-ok (net.lookup_host (ascii_lowercase name)) _ addresses h in
      let (same, nonempty, safe) =
        check_addresses-AreSafe (ascii_lowercase name) found addresses k in
      (subst (λ f. net.lookup_host (ascii_lowercase name) ≡ ok f) (sym same) e, nonempty, safe)
