-- ===== src/MetadataCache/Fills.antt =====
-- What `complete` of src/metadata_cache.rs stores, and that `lookup` finds it.
use osv_proxy.Common.{
  ℕ, ◌≤◌, ◌<◌, ◌≡◌, ◌⊎◌, refl, sym, ap, ◌∙◌, Option, none, some, List, [], ◌∷◌, ◌++◌, arith, inl,
  inr, Bool-cases, leb,
}
use osv_proxy.Common.Equality.{map_get, map_remove, usize_max}
use osv_proxy.MetadataCache.Segments.{Cell}
use osv_proxy.MetadataCache.Invariant.{without}
use osv_proxy.MetadataCache.InsertLaws.{insert-IsCache}
use osv_proxy.MetadataCache.Insert.{evicted}
use osv_proxy.MetadataCache.Response.{MetadataCacheKey, CachedResponse, key_equality}
use osv_proxy.MetadataCache.StoreLaws.{Cells, Holds, lookup-fresh}
use osv_proxy.MetadataCache.Store.{
  MetadataCache, State, finished, lookup, hit, store, complete, clear_inflight, entry_weight,
  set_flight, is_flight,
}

-- A state with other requests in flight holds the same cells.
pub with_inflight-Holds :
    (s : State) (l : Cells) (m : List (MetadataCacheKey × ℕ))
    → Holds s l
    → Holds (record s { inflight = m }) l
with_inflight-Holds s l m h = record {
  segments = h.segments;
  head = h.head;
  tail = h.tail;
  distinct = h.distinct;
  keys = h.keys;
  lookup = h.lookup;
  weights = h.weights;
  weights_fit = h.weights_fit;
  free = h.free;
  free_once = h.free_once;
  no_leak = h.no_leak;
}

pub clear_inflight-Holds :
    (key : MetadataCacheKey) (flight : ℕ) (s : State) (l : Cells)
    → Holds s l
    → Holds (clear_inflight key flight s) l
unfolding clear_inflight
clear_inflight-Holds key flight s l h =
    elim (Bool-cases (is_flight (map_get key_equality key s.inflight) flight)) [
      | inl e ↦ rw e (with_inflight-Holds s l (map_remove key_equality key s.inflight) h)
      | inr e ↦ rw e h
    ]

clear_inflight-weight :
    (key : MetadataCacheKey) (flight : ℕ) (s : State)
    → (clear_inflight key flight s).total_weight ≡ s.total_weight
unfolding clear_inflight
clear_inflight-weight key flight s = ground arith

module _ (key_size response_size : ℕ) (key : MetadataCacheKey) where
  -- The cells after a `complete`.
  abbrev pub StoredCells : Option CachedResponse → Option ℕ → ℕ → Cells → Cells → Type 0
  StoredCells none e capacity l l' = l' ≡ l
  StoredCells (some r) none capacity l l' = l' ≡ l
  StoredCells (some r) (some e) capacity l l' =
      ((capacity < entry_weight key_size response_size key r) × (l' ≡ l))
      ⊎ ((c : Cell MetadataCacheKey CachedResponse) × (l'
            ≡ evicted (entry_weight key_size response_size key r) capacity
                (without key_equality key l)
              ++ c ∷ [])
          × (c.key ≡ key)
          × (c.response ≡ r)
          × (c.expires_at ≡ e))

  store-Holds :
      (response : Option CachedResponse) (expires_at : Option ℕ) (capacity : ℕ) (s : State)
      (l : Cells)
      → Holds s l
      → s.total_weight ≤ capacity
      → capacity < usize_max
      → (s' : State) × (l' : Cells) × (store key_size response_size key response expires_at capacity
            s
          ≡ some s')
        × Holds s' l'
        × StoredCells response expires_at capacity l l'
        × (s'.total_weight ≤ capacity)
        × (s'.inflight ≡ s.inflight)
  unfolding store
  store-Holds none e capacity s l h w max = (s, l, refl, h, refl, w, refl)
  store-Holds (some r) none capacity s l h w max = (s, l, refl, h, refl, w, refl)
  store-Holds (some r) (some e) capacity s l h w max =
      elim (Bool-cases (leb (entry_weight key_size response_size key r) capacity)) [
        | inr big ↦ (s, l, ground arith, h, inl (ground arith, refl), w, refl)
        | inl small ↦
            let (s', c, q, h', k, p, x, v, fits, i) =
              insert-IsCache key_equality s l key r e (entry_weight key_size response_size key r)
                capacity h (ground arith) max in
            (
              s',
              evicted (entry_weight key_size response_size key r) capacity
                    (without key_equality key l)
                  ++ c ∷ [],
              ground arith,
              h',
              inr (c, refl, k, p, x),
              fits,
              i,
            )
      ]

  -- `complete` returns whatever the leader hands over. A response with an expiry that fits the
  -- capacity becomes the most recently used entry of its key, and the least recently used entries
  -- that are in its way go; any other changes no entry. The weights stay within the capacity, and
  -- every waiter of the flight is handed the response.
  pub complete-IsCache :
      (flight : ℕ) (response : Option CachedResponse) (expires_at : Option ℕ)
      (cache : MetadataCache) (l : Cells)
      → Holds cache.state l
      → cache.state.total_weight ≤ cache.capacity_bytes
      → cache.capacity_bytes < usize_max
      → (cache' : MetadataCache) × (l' : Cells) × (complete key_size response_size key flight
            response expires_at cache
          ≡ some cache')
        × Holds cache'.state l'
        × StoredCells response expires_at cache.capacity_bytes l l'
        × (cache'.state.total_weight ≤ cache.capacity_bytes)
        × (cache'.flights flight ≡ finished response)
        × (cache'.state.inflight ≡ (clear_inflight key flight cache.state).inflight)
  unfolding complete clear_inflight
  complete-IsCache flight response expires_at cache l h w max =
      let (s, l', e, h', c, fits, i) =
        store-Holds response expires_at cache.capacity_bytes cache.state l h w max in
      (
        record cache {
          state = clear_inflight key flight s;
          flights = set_flight flight (finished response) cache.flights;
        },
        l',
        rw e refl,
        clear_inflight-Holds key flight s l' h',
        c,
        omega (arith, clear_inflight-weight key flight s, fits),
        ground arith,
        ground (arith, i),
      )

  -- A response that `complete` is given with an expiry, and that fits the capacity, is what the next
  -- `lookup` of its key returns before that expiry.
  pub complete-lookup :
      (flight : ℕ) (response : CachedResponse) (expires_at now : ℕ) (cache : MetadataCache)
      (l : Cells)
      → Holds cache.state l
      → cache.state.total_weight ≤ cache.capacity_bytes
      → cache.capacity_bytes < usize_max
      → entry_weight key_size response_size key response ≤ cache.capacity_bytes
      → now < expires_at
      → (cache' : MetadataCache) × (s : State) × (complete key_size response_size key flight
            (some response)
            (some expires_at)
            cache
          ≡ some cache')
        × (lookup key now cache' ≡ some (hit response, record cache' { state = s }))
  complete-lookup flight response expires_at now cache l h w max fits fresh =
      let (cache', l', e, h', stored, room, done, flying) =
        complete-IsCache flight (some response) (some expires_at) cache l h w max in
      elim stored [
        | inl (big, same) ↦ absurd (omega arith)
        | inr (c, same, k, p, x) ↦
            let left : Cells =
              evicted (entry_weight key_size response_size key response) cache.capacity_bytes
                (without key_equality key l) in
            let (s, found, held, flying') =
              lookup-fresh cache' now left c [] (rw (← same) h') (rw x fresh) in
            (
              cache',
              s,
              e,
              ap (λ j. lookup j now cache') (sym k)
                  ∙ (found ∙ ap (λ o. some (hit o, record cache' { state = s })) p),
            )
      ]
