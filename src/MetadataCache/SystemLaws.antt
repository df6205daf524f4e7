-- ===== src/MetadataCache/SystemLaws.antt =====
-- Every reachable state of the metadata cache of src/metadata_cache.rs is sound: the weights fit, and
-- the requests in flight are exactly those that a leader is filling.
use osv_proxy.Common.{
  subst, ℕ, ◌≤◌, ◌<◌, ◌≡◌, ◌≢◌, refl, ◌∙◌, ap, Option, none, some, [], ◌∷◌, ◌++◌, arith, inl, inr,
  In,
}
use osv_proxy.Common.Equality.{map_get, usize_max}
use osv_proxy.Config.{MetadataCacheConfig}
use osv_proxy.MetadataCache.Response.{MetadataCacheKey, CachedResponse}
use osv_proxy.MetadataCache.StoreLaws.{Cells, Holds}
use osv_proxy.MetadataCache.Fills.{clear_inflight-Holds, complete-IsCache}
use osv_proxy.MetadataCache.Flights.{
  Leaders, ArePending, LeadsNone, ArePending-Leads, other-ArePending,
}
use osv_proxy.MetadataCache.System.{
  System, Step, looks_up, finishes, drops, Reachable, starts, steps, IsBounded, HasLeaders,
  leaders_after, Looked, lookup-Looked,
}
use osv_proxy.MetadataCache.State.{node_at}
use osv_proxy.Common.Equality.{get_elem?}
use osv_proxy.MetadataCache.Store.{
  InflightState, join_or_lead, lookup, MetadataCache, Lookup, pending, finished, complete, abandon,
  clear_inflight, set_flight, new_cache,
}

pub record IsSound (s : System) : Type 0 where
  pub cells : Cells
  pub bounded : IsBounded s.cache cells
  pub led : HasLeaders s.cache s.leaders

-- A leader's flight is off its key, and only that.
clear_inflight-others :
    (cache : MetadataCache) (key : MetadataCacheKey) (flight : ℕ) (a b : Leaders)
    → HasLeaders cache (a ++ (key, flight) ∷ b)
    → (clear_inflight key flight cache.state).inflight ≡ a ++ b
unfolding clear_inflight
clear_inflight-others cache key flight a b h =
    let r = ArePending-Leads cache.flights cache.next_flight key flight a b h.are_pending in
    ground (arith, h.inflight, r.gets, r.removes)

join_or_lead-capacity :
    (key : MetadataCacheKey) (cache : MetadataCache)
    → (join_or_lead key cache).1.capacity_bytes ≡ cache.capacity_bytes
unfolding join_or_lead
join_or_lead-capacity key cache = ground arith

module _ (key_size response_size : ℕ) where
  -- The result of a `complete` keeps the counters.
  complete-keeps :
      (key : MetadataCacheKey) (flight : ℕ) (response : Option CachedResponse)
      (expires_at : Option ℕ) (cache cache' : MetadataCache)
      → complete key_size response_size key flight response expires_at cache ≡ some cache'
      → (cache'.flights ≡ set_flight flight (finished response) cache.flights)
        × (cache'.next_flight ≡ cache.next_flight)
        × (cache'.capacity_bytes ≡ cache.capacity_bytes)
  unfolding complete
  complete-keeps key flight response expires_at cache cache' e =
      (ground arith, ground arith, ground arith)

  finish-IsSound :
      (cache cache' : MetadataCache) (a : Leaders) (key : MetadataCacheKey) (flight : ℕ)
      (b : Leaders) (response : Option CachedResponse) (expires_at : Option ℕ)
      → IsSound (record { cache = cache; leaders = a ++ (key, flight) ∷ b })
      → complete key_size response_size key flight response expires_at cache ≡ some cache'
      → IsSound (record { cache = cache'; leaders = a ++ b })
  finish-IsSound cache cache' a key flight b response expires_at h e =
      let (kept, l', e', held, stored, fits, done, flying) =
        complete-IsCache key_size response_size key flight response expires_at cache h.cells
          h.bounded.holds h.bounded.fits h.bounded.bounded in
      let same : kept ≡ cache' = cc in
      let (f, n, c) = complete-keeps key flight response expires_at cache cache' e in
      let r = ArePending-Leads cache.flights cache.next_flight key flight a b h.led.are_pending in
      record {
        cells = l';
        bounded = record {
          holds = subst (λ (x : MetadataCache). Holds x.state l') same held;
          fits = omega (
            arith,
            c,
            subst (λ (x : MetadataCache). x.state.total_weight ≤ cache.capacity_bytes) same fits,
          );
          bounded = omega (arith, c, h.bounded.bounded);
        };
        led = record {
          inflight =
              subst (λ (x : MetadataCache). x.state.inflight ≡ a ++ b) same
                (flying ∙ clear_inflight-others cache key flight a b h.led);
          are_pending =
              rw (f, n)
                (other-ArePending cache.flights cache.next_flight flight (finished response)
                  (a ++ b) r.alone r.others);
        };
      }

  drop-IsSound :
      (cache : MetadataCache) (a : Leaders) (key : MetadataCacheKey) (flight : ℕ) (b : Leaders)
      → IsSound (record { cache = cache; leaders = a ++ (key, flight) ∷ b })
      → IsSound (record { cache = abandon key flight cache; leaders = a ++ b })
  unfolding abandon
  drop-IsSound cache a key flight b h =
      let r = ArePending-Leads cache.flights cache.next_flight key flight a b h.led.are_pending in
      let held = clear_inflight-Holds key flight cache.state h.cells h.bounded.holds in
      record {
        cells = h.cells;
        bounded = record {
          holds = held;
          fits = omega (arith, held.weights, h.bounded.holds.weights, h.bounded.fits);
          bounded = h.bounded.bounded;
        };
        led = record {
          inflight = clear_inflight-others cache key flight a b h.led;
          are_pending =
              other-ArePending cache.flights cache.next_flight flight (finished none) (a ++ b)
                r.alone r.others;
        };
      }

  Step-IsSound : (s s' : System) → Step key_size response_size s s' → IsSound s → IsSound s'
  Step-IsSound s s' (looks_up cache cache' leaders key now look e) h =
      let (look', c, l, e', b, k, t, x) =
        lookup-Looked cache leaders now h.led key h.cells h.bounded in
      let same : (look', c) ≡ (look, cache') = cc in
      subst
        (λ (p : Lookup × MetadataCache).
          IsSound (record { cache = p.1; leaders = leaders_after key p.0 leaders }))
        same (record { cells = l; bounded = b; led = k })
  Step-IsSound s s' (finishes cache cache' a key flight b response expires_at e) h =
      finish-IsSound cache cache' a key flight b response expires_at h e
  Step-IsSound s s' (drops cache a key flight b) h = drop-IsSound cache a key flight b h

  new_cache-IsSound :
      (config : MetadataCacheConfig)
      → config.capacity_bytes < usize_max
      → IsSound (record { cache = new_cache config; leaders = [] })
  unfolding new_cache map_get node_at get_elem?
  new_cache-IsSound config max = record {
    cells = [];
    bounded = record {
      holds = record {
        segments = tt;
        head = refl;
        tail = refl;
        distinct = tt;
        keys = tt;
        lookup = λ k. refl;
        weights = refl;
        weights_fit = omega arith;
        free = tt;
        free_once = tt;
        no_leak = refl;
      };
      fits = omega arith;
      bounded = max;
    };
    led = record { inflight = refl; are_pending = tt };
  }

  lookup-capacity :
      (key : MetadataCacheKey) (now : ℕ) (cache cache' : MetadataCache) (look : Lookup)
      → lookup key now cache ≡ some (look, cache')
      → cache'.capacity_bytes ≡ cache.capacity_bytes
  unfolding lookup
  lookup-capacity key now cache cache' look e = ground (arith, join_or_lead-capacity key)

  Step-capacity :
      (s s' : System)
      → Step key_size response_size s s'
      → s'.cache.capacity_bytes ≡ s.cache.capacity_bytes
  unfolding abandon
  Step-capacity s s' (looks_up cache cache' leaders key now look e) =
      lookup-capacity key now cache cache' look e
  Step-capacity s s' (finishes cache cache' a key flight b response expires_at e) =
      (complete-keeps key flight response expires_at cache cache' e).2
  Step-capacity s s' (drops cache a key flight b) = refl

  Reachable-capacity :
      (config : MetadataCacheConfig) (s : System)
      → Reachable key_size response_size config s
      → s.cache.capacity_bytes ≡ config.capacity_bytes
  unfolding new_cache
  Reachable-capacity config s starts = refl
  Reachable-capacity config s (steps s₀ s' r e) =
      Step-capacity s₀ s e ∙ Reachable-capacity config s₀ r

  pub Reachable-IsSound :
      (config : MetadataCacheConfig) (s : System)
      → config.capacity_bytes < usize_max
      → Reachable key_size response_size config s
      → IsSound s
  Reachable-IsSound config s max starts = new_cache-IsSound config max
  Reachable-IsSound config s max (steps s₀ s' r e) =
      Step-IsSound s₀ s e (Reachable-IsSound config s₀ max r)

  -- However the requests interleave, from a new cache whose capacity is below `usize::MAX`: the
  -- weights fit the capacity, and a lookup never panics and tells the request a fresh response of
  -- its key, a pending flight that a leader is filling, or to lead where no other request does.
  pub Reachable-Looked :
      (config : MetadataCacheConfig) (s : System) (key : MetadataCacheKey) (now : ℕ)
      → config.capacity_bytes < usize_max
      → Reachable key_size response_size config s
      → (l : Cells) × Holds s.cache.state l
        × (s.cache.state.total_weight ≤ config.capacity_bytes)
        × Looked key now l s.leaders s.cache
  Reachable-Looked config s key now max r =
      let h = Reachable-IsSound config s max r in
      (
        h.cells,
        h.bounded.holds,
        omega (arith, h.bounded.fits, Reachable-capacity config s r),
        lookup-Looked s.cache s.leaders now h.led key h.cells h.bounded,
      )

LeadsNone-In :
    (k key : MetadataCacheKey) (f : ℕ) (m : Leaders) → LeadsNone k m → In (key, f) m → key ≢ k
LeadsNone-In k key f [] n i = elim i [ ]
LeadsNone-In k key f ((j, g) ∷ m) n (inl i) = λ e. n.0 (cc)
LeadsNone-In k key f ((j, g) ∷ m) n (inr i) = LeadsNone-In k key f m n.1 i

-- A leader among the others is the only one with its key and the only one with its flight.
alone-In :
    (flights : ℕ → InflightState) (next : ℕ) (m : Leaders) (key : MetadataCacheKey) (f g : ℕ)
    → ArePending flights next m
    → In (key, f) m
    → In (key, g) m
    → f ≡ g
alone-In flights next [] key f g h i j = elim i [ ]
alone-In flights next ((k, e) ∷ m) key f g (p, lt, n, d, h) (inl i) (inl j) = cc
alone-In flights next ((k, e) ∷ m) key f g (p, lt, n, d, h) (inl i) (inr j) =
    absurd (LeadsNone-In k key g m n j (cc))
alone-In flights next ((k, e) ∷ m) key f g (p, lt, n, d, h) (inr i) (inl j) =
    absurd (LeadsNone-In k key f m n i (cc))
alone-In flights next ((k, e) ∷ m) key f g (p, lt, n, d, h) (inr i) (inr j) =
    alone-In flights next m key f g h i j

pending-In :
    (flights : ℕ → InflightState) (next : ℕ) (m : Leaders) (key : MetadataCacheKey) (f : ℕ)
    → ArePending flights next m
    → In (key, f) m
    → flights f ≡ pending
pending-In flights next [] key f h i = elim i [ ]
pending-In flights next ((k, e) ∷ m) key f h (inl i) =
    rw (ap (λ (p : MetadataCacheKey × ℕ). p.1) i) h.0
pending-In flights next ((k, e) ∷ m) key f h (inr i) = pending-In flights next m key f h.4 i

-- However the requests interleave, a key has one leader at most: two leaders of a key have the same
-- flight, and what is sent to its waiters is still pending.
pub Reachable-single_flight :
    (key_size response_size : ℕ) (config : MetadataCacheConfig) (s : System)
    (key : MetadataCacheKey) (f g : ℕ)
    → config.capacity_bytes < usize_max
    → Reachable key_size response_size config s
    → In (key, f) s.leaders
    → In (key, g) s.leaders
    → (f ≡ g) × (s.cache.flights f ≡ pending)
Reachable-single_flight key_size response_size config s key f g max r i j =
    let h = Reachable-IsSound key_size response_size config s max r in
    (
      alone-In s.cache.flights s.cache.next_flight s.leaders key f g h.led.are_pending i j,
      pending-In s.cache.flights s.cache.next_flight s.leaders key f h.led.are_pending i,
    )
