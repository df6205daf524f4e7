-- ===== src/MetadataCache/System.antt =====
-- The metadata cache of src/metadata_cache.rs under any number of requests, in any order: the cache,
-- and the leaders (`FillLeader`) that are alive. A step is one call under the cache's lock.
use osv_proxy.Common.{
  subst, ℕ, suc, ◌≤◌, ◌<◌, ◌≡◌, refl, sym, ◌∙◌, ap, Option, none, some, [], ◌∷◌, ◌++◌, arith, inl,
  inr, Option-cases, leb, In, Bool-cases,
}
use osv_proxy.Common.Equality.{map_get, map_insert, usize_max}
use osv_proxy.Config.{MetadataCacheConfig}
use osv_proxy.MetadataCache.Segments.{Cell}
use osv_proxy.MetadataCache.Invariant.{total, total-append, index_of, split_at, NotKey-of_index}
use osv_proxy.MetadataCache.Response.{MetadataCacheKey, CachedResponse, key_equality}
use osv_proxy.MetadataCache.StoreLaws.{Cells, Holds, lookup-fresh, lookup-expired, lookup-absent}
use osv_proxy.MetadataCache.Fills.{with_inflight-Holds}
use osv_proxy.MetadataCache.Flights.{
  Leaders, ArePending, LeadsNone-of_get, map_remove-LeadsNone, In-of_get, new-ArePending,
}
use osv_proxy.MetadataCache.Store.{
  MetadataCache, Lookup, hit, wait, fill, pending, join_or_lead, lookup, complete, abandon,
  set_flight, new_cache,
}

pub record System : Type 0 where
  pub cache : MetadataCache
  pub leaders : Leaders

-- Who leads after a `lookup`.
abbrev pub leaders_after : MetadataCacheKey → Lookup → Leaders → Leaders
leaders_after key (hit response) leaders = leaders
leaders_after key (wait flight) leaders = leaders
leaders_after key (fill flight) leaders = (key, flight) ∷ leaders

module _ (key_size response_size : ℕ) where
  pub data Step : System → System → Type 0 where
    looks_up :
        (cache cache' : MetadataCache) (leaders : Leaders) (key : MetadataCacheKey) (now : ℕ)
        (look : Lookup)
        → lookup key now cache ≡ some (look, cache')
        → Step
            (record { cache = cache; leaders = leaders })
            (record { cache = cache'; leaders = leaders_after key look leaders })
    finishes :
        (cache cache' : MetadataCache) (a : Leaders) (key : MetadataCacheKey) (flight : ℕ)
        (b : Leaders) (response : Option CachedResponse) (expires_at : Option ℕ)
        → complete key_size response_size key flight response expires_at cache ≡ some cache'
        → Step
            (record { cache = cache; leaders = a ++ (key, flight) ∷ b })
            (record { cache = cache'; leaders = a ++ b })
    drops :
        (cache : MetadataCache) (a : Leaders) (key : MetadataCacheKey) (flight : ℕ) (b : Leaders)
        → Step
            (record { cache = cache; leaders = a ++ (key, flight) ∷ b })
            (record { cache = abandon key flight cache; leaders = a ++ b })

  pub data Reachable (config : MetadataCacheConfig) : System → Type 0 where
    starts : Reachable config (record { cache = new_cache config; leaders = [] })
    steps : (s s' : System) → Reachable config s → Step s s' → Reachable config s'

-- The cache holds the cells, within its capacity.
pub record IsBounded (cache : MetadataCache) (l : Cells) : Type 0 where
  pub holds : Holds cache.state l
  pub fits : cache.state.total_weight ≤ cache.capacity_bytes
  pub bounded : cache.capacity_bytes < usize_max

-- The requests in flight are those of the leaders, and every flight is pending.
pub record HasLeaders (cache : MetadataCache) (leaders : Leaders) : Type 0 where
  pub inflight : cache.state.inflight ≡ leaders
  pub are_pending : ArePending cache.flights cache.next_flight leaders

-- What a lookup tells the request: a fresh entry of the cache, or a pending flight with a leader.
abbrev pub Tells : MetadataCacheKey → ℕ → Cells → Leaders → MetadataCache → Lookup → Type 0
Tells key now l leaders cache' (hit response) =
    (c : Cell MetadataCacheKey CachedResponse) × In c l
    × (c.key ≡ key)
    × (c.response ≡ response)
    × (now < c.expires_at)
Tells key now l leaders cache' (wait flight) = In (key, flight) leaders
Tells key now l leaders cache' (fill flight) =
    (map_get key_equality key leaders ≡ none) × (cache'.flights flight ≡ pending)

module _ (cache : MetadataCache) (leaders : Leaders) (key : MetadataCacheKey)
    (h : HasLeaders cache leaders) where
  -- A request that is not answered joins the flight of its key's leader, or leads.
  joins :
      (now : ℕ) (l l₀ : Cells)
      → IsBounded cache l
      → (look : Lookup) × (cache' : MetadataCache) × (join_or_lead key cache ≡ (look, cache'))
        × IsBounded cache' l
        × HasLeaders cache' (leaders_after key look leaders)
        × Tells key now l₀ leaders cache' look
        × (cache'.capacity_bytes ≡ cache.capacity_bytes)
  unfolding join_or_lead map_insert
  joins now l l₀ b = elim (Option-cases (map_get key_equality key leaders)) [
    | inr (f, e) ↦ (
      wait f,
      cache,
      rw (ap (map_get key_equality key) h.inflight ∙ e, join_or_lead) refl,
      b,
      h,
      In-of_get key leaders f e,
      refl,
    )
    | inl e ↦
        let (old, new) = new-ArePending cache.flights cache.next_flight leaders h.are_pending in
        (
          fill cache.next_flight,
          record cache {
            state = record cache.state {
              inflight = map_insert key_equality key cache.next_flight cache.state.inflight;
            };
            next_flight = suc cache.next_flight;
            flights = set_flight cache.next_flight pending cache.flights;
          },
          rw (ap (map_get key_equality key) h.inflight ∙ e, join_or_lead) refl,
          record {
            holds =
                with_inflight-Holds cache.state l
                  (map_insert key_equality key cache.next_flight cache.state.inflight) b.holds;
            fits = b.fits;
            bounded = b.bounded;
          },
          record {
            inflight = rw h.inflight (
                ap (λ m. (key, cache.next_flight) ∷ m)
                  (map_remove-LeadsNone key leaders (LeadsNone-of_get key leaders e)));
            are_pending = (ground arith, omega arith, LeadsNone-of_get key leaders e, new, old);
          },
          (e, ground arith),
          refl,
        )
  ]

total-moved :
    (a : Cells) (c : Cell MetadataCacheKey CachedResponse) (b : Cells)
    → total ((a ++ b) ++ c ∷ []) ≡ total (a ++ c ∷ b)
total-moved a c b =
    omega (arith, total-append (a ++ b) (c ∷ []), total-append a b, total-append a (c ∷ b))

In-middle : (a : Cells) (c : Cell MetadataCacheKey CachedResponse) (b : Cells) → In c (a ++ c ∷ b)
In-middle [] c b = inl refl
In-middle (d ∷ a) c b = inr (In-middle a c b)

-- What a lookup leaves.
abbrev pub Looked : MetadataCacheKey → ℕ → Cells → Leaders → MetadataCache → Type 0
Looked key now l leaders cache =
    (look : Lookup) × (cache' : MetadataCache) × (l' : Cells) × (lookup key now cache
      ≡ some (look, cache'))
    × IsBounded cache' l'
    × HasLeaders cache' (leaders_after key look leaders)
    × Tells key now l leaders cache' look
    × (cache'.capacity_bytes ≡ cache.capacity_bytes)

module _ (cache : MetadataCache) (leaders : Leaders) (now : ℕ) (h : HasLeaders cache leaders) where
  looks_at :
      (a : Cells) (c : Cell MetadataCacheKey CachedResponse) (b : Cells)
      → IsBounded cache (a ++ c ∷ b)
      → Looked c.key now (a ++ c ∷ b) leaders cache
  looks_at a c b k = elim (Bool-cases (leb c.expires_at now)) [
    | inr e ↦
        let (s, r, held, i) = lookup-fresh cache now a c b k.holds (ground arith) in
        (
          hit c.response,
          record cache { state = s },
          (a ++ b) ++ c ∷ [],
          r,
          record {
            holds = held;
            fits = omega (arith, held.weights, k.holds.weights, k.fits, total-moved a c b);
            bounded = k.bounded;
          },
          record { inflight = i ∙ h.inflight; are_pending = h.are_pending },
          (c, In-middle a c b, refl, refl, ground arith),
          refl,
        )
    | inl e ↦
        let (s, r, held, i) = lookup-expired cache now a c b k.holds (ground arith) in
        let bound : IsBounded (record cache { state = s }) (a ++ b) = record {
          holds = held;
          fits = omega (
            arith,
            held.weights,
            k.holds.weights,
            k.fits,
            total-append a b,
            total-append a (c ∷ b),
          );
          bounded = k.bounded;
        } in
        let (look, cache', q, b', h', t, x) =
          joins (record cache { state = s }) leaders c.key
            (record { inflight = i ∙ h.inflight; are_pending = h.are_pending }) now (a ++ b)
            (a ++ c ∷ b) bound in
        (look, cache', a ++ b, r ∙ ap some q, b', h', t, x)
  ]

  -- A lookup never panics. It keeps the bound on the weights, the order of the entries, and that
  -- the requests in flight are those of the leaders. It tells the request a response of an entry
  -- with its key that is fresh, a pending flight that a leader with its key is filling, or, where
  -- there is no such leader, to lead a flight of its own.
  pub lookup-Looked :
      (key : MetadataCacheKey) (l : Cells) → IsBounded cache l → Looked key now l leaders cache
  lookup-Looked key l k = elim (Option-cases (index_of key_equality key l)) [
    | inl e ↦
        let (look, cache', q, b', h', t, x) = joins cache leaders key h now l l k in
        (
          look,
          cache',
          l,
          lookup-absent cache now key l k.holds (NotKey-of_index key_equality key l e) ∙ ap some q,
          b',
          h',
          t,
          x,
        )
    | inr (i, e) ↦
        let (a, c, b, same, at, owns) = split_at key_equality key l i e in
        subst (λ j. Looked j now l leaders cache) owns
          (subst (λ m. Looked c.key now m leaders cache) (sym same)
            (looks_at a c b (subst (IsBounded cache) same k)))
  ]
