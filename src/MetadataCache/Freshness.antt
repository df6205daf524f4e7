-- ===== src/MetadataCache/Freshness.antt =====
-- How long `expiration` of src/metadata_cache.rs lets a response live, and which responses of a fill
-- are stored.
use osv_proxy.Common.{
  ℕ, ◌+◌, ◌-◌, ◌≤◌, ◌<◌, ◌≡◌, ◌≢◌, ◌↔◌, ◌⊎◌, true, false, Option, none, some, arith, inl, inr,
  Option-cases, Bool-cases, leb, min, length,
}
use osv_proxy.MetadataCache.Response.{CachedResponse, MetadataFill, from_fill}
use osv_proxy.MetadataCache.Store.{MetadataCache, expiration, fill_outcome}

module _ (max_instant : ℕ) (cache : MetadataCache) (now utc_now : ℕ) where
  -- `expiration` gives no expiry where the policy's decision has run out, or the platform has no
  -- instant for it.
  abbrev pub IsExpired : Option ℕ → Type 0
  IsExpired none = max_instant < now + cache.ttl
  IsExpired (some valid_until) =
      (valid_until ≤ utc_now) ⊎ (max_instant < now + min cache.ttl (valid_until - utc_now))

  -- An expiry is later than now unless `ttl` is 0, at most `ttl` away, and no later than the policy's
  -- decision is valid.
  abbrev pub IsExpiry : Option ℕ → ℕ → Type 0
  IsExpiry none e = (e ≡ now + cache.ttl) × (e ≤ max_instant)
  IsExpiry (some valid_until) e =
      (utc_now < valid_until)
      × (now ≤ e)
      × (e ≤ now + cache.ttl)
      × (e + utc_now ≤ valid_until + now)
      × (0 < cache.ttl → now < e)
      × (e ≤ max_instant)

  expiration-IsExpiry :
      (v : Option ℕ) (e : ℕ) → expiration max_instant cache now utc_now v ≡ some e → IsExpiry v e
  unfolding expiration
  expiration-IsExpiry none e h = (ground arith, ground arith)
  expiration-IsExpiry (some v) e h =
      (ground arith, ground arith, ground arith, ground arith, (λ p. ground arith), ground arith)

  expiration-none_iff :
      (v : Option ℕ) → (expiration max_instant cache now utc_now v ≡ none) ↔ IsExpired v
  unfolding expiration
  expiration-none_iff none = ((λ h. ground arith), (λ h. ground arith))
  expiration-none_iff (some v) = (
    (λ h. elim (Bool-cases (leb v utc_now)) [
      | inl e ↦ inl (ground arith)
      | inr e ↦ inr (ground arith)
    ]),
    (λ h. ground arith),
  )

  -- The panic of the fill: a buffered response that has no expiry, also where nothing else would
  -- let it be stored.
  pub fill_outcome-panics_iff :
      (m : MetadataFill)
      → (fill_outcome max_instant cache now utc_now m ≡ none)
        ↔ ((from_fill m ≢ none) × IsExpired m.valid_until)
  unfolding fill_outcome
  fill_outcome-panics_iff m = (
    (λ h. ground (arith, expiration-none_iff m.valid_until)),
    (λ h. ground (arith, expiration-none_iff m.valid_until)),
  )

  -- What a fill stores: a response with status 200, not overloaded, under a policy result that may
  -- be cached, with a body that fits, and with an expiry as `expiration` gives it.
  pub fill_outcome-stores :
      (m : MetadataFill) (r : Option CachedResponse) (e : ℕ)
      → fill_outcome max_instant cache now utc_now m ≡ some (r, some e)
      → (response : CachedResponse) × (r ≡ some response)
        × (from_fill m ≡ some response)
        × (response.status ≡ 200)
        × (response.overloaded ≡ false)
        × (m.policy_cacheable ≡ true)
        × (length response.body ≤ cache.max_entry_bytes)
        × IsExpiry m.valid_until e
  unfolding fill_outcome
  fill_outcome-stores m r e h = elim (Option-cases (from_fill m)) [
    | inl q ↦ absurd (ground (arith, q))
    | inr (response, q) ↦
        elim (Option-cases (expiration max_instant cache now utc_now m.valid_until)) [
          | inl p ↦ absurd (ground (arith, q, p))
          | inr (x, p) ↦ (
            response,
            ground arith,
            q,
            ground arith,
            ground arith,
            ground arith,
            ground arith,
            ground (arith, expiration-IsExpiry m.valid_until x p),
          )
        ]
  ]
