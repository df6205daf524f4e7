-- ===== src/MetadataCache/Store.antt =====
-- `MetadataCache` of src/metadata_cache.rs, one step at a time under its lock: `lookup`,
-- `expiration`, `complete`, `abandon`, and what `execute` does with a fill. An `Inflight` is known by
-- its number (the identity of its `Arc`), and `flights` holds its channel's state. `none` as the
-- result of a step is a panic. An `Instant` is a number of nanoseconds; `max_instant` is the last one
-- that the platform represents.
use osv_proxy.Common.{
  ℕ, suc, ◌+◌, ◌-◌, ◌==◌, leb, min, Bool, false, not, ◌&&◌, Option, none, some, if◌then◌else◌,
  length,
}
use osv_proxy.Common.Equality.{◌>>=◌, map_get, map_remove, map_insert, saturating_add}
use osv_proxy.MetadataCache.State.{CacheState, empty_state, node_at, remove_index, touch, insert}
use osv_proxy.MetadataCache.Response.{
  MetadataCacheKey, CachedResponse, MetadataFill, key_equality, key_weight, response_weight,
  from_fill,
}
use osv_proxy.Config.{MetadataCacheConfig}

pub data InflightState : Type 0 where
  pending : InflightState
  finished : Option CachedResponse → InflightState

abbrev pub State : Type 0
State = CacheState MetadataCacheKey CachedResponse ℕ

pub record MetadataCache : Type 0 where
  pub enabled : Bool
  pub capacity_bytes : ℕ
  pub max_entry_bytes : ℕ
  pub ttl : ℕ
  pub state : State
  pub flights : ℕ → InflightState
  pub next_flight : ℕ

-- `MetadataCache::new`.
unfoldable pub new_cache : MetadataCacheConfig → MetadataCache
new_cache config = record {
  enabled = config.enabled;
  capacity_bytes = config.capacity_bytes;
  max_entry_bytes = config.max_entry_bytes;
  ttl = config.ttl;
  state = empty_state;
  flights = λ _. pending;
  next_flight = 0;
}

pub data Lookup : Type 0 where
  hit : CachedResponse → Lookup
  wait fill : ℕ → Lookup

-- The channel of one flight gets a new state.
abbrev pub set_flight : ℕ → InflightState → (ℕ → InflightState) → ℕ → InflightState
set_flight flight value flights i = if i == flight then value else flights i

-- `lookup`, from the search of `inflight` on.
unfoldable pub join_or_lead : MetadataCacheKey → MetadataCache → Lookup × MetadataCache
join_or_lead key cache = elim (map_get key_equality key cache.state.inflight) [
  | some flight ↦ (wait flight, cache)
  | none ↦ (
    fill cache.next_flight,
    record cache {
      state = record cache.state {
        inflight = map_insert key_equality key cache.next_flight cache.state.inflight;
      };
      flights = set_flight cache.next_flight pending cache.flights;
      next_flight = suc cache.next_flight;
    },
  )
]

unfoldable pub lookup : MetadataCacheKey → ℕ → MetadataCache → Option (Lookup × MetadataCache)
unfolding join_or_lead
lookup key now cache = elim (map_get key_equality key cache.state.entries) [
  | none ↦ some (join_or_lead key cache)
  | some index ↦ do
    entry ← node_at cache.state.nodes index
    if leb entry.expires_at now
        then (do
          state ← remove_index key_equality index cache.state
          some (join_or_lead key (record cache { state = state })))
        else (do
          state ← touch index cache.state
          some (hit entry.response, record cache { state = state }))
]

-- `expiration`, at the instant `now` and the time `utc_now`.
unfoldable pub expiration : ℕ → MetadataCache → ℕ → ℕ → Option ℕ → Option ℕ
expiration max_instant cache now utc_now none =
    if leb (now + cache.ttl) max_instant then some (now + cache.ttl) else none
expiration max_instant cache now utc_now (some valid_until) =
    if leb valid_until utc_now
    then none
    else (if leb (now + min cache.ttl (valid_until - utc_now)) max_instant
        then some (now + min cache.ttl (valid_until - utc_now))
        else none)

abbrev pub is_flight : Option ℕ → ℕ → Bool
is_flight none flight = false
is_flight (some current) flight = current == flight

-- The end of `complete` and `abandon`: the key's flight is taken off, if it is this one.
unfoldable pub clear_inflight : MetadataCacheKey → ℕ → State → State
clear_inflight key flight s =
    if is_flight (map_get key_equality key s.inflight) flight
    then record s { inflight = map_remove key_equality key s.inflight }
    else s

module _ (key_size response_size : ℕ) where
  abbrev pub entry_weight : MetadataCacheKey → CachedResponse → ℕ
  entry_weight key response =
      saturating_add (key_weight key_size key) (response_weight response_size response)

  -- The `if let (Some(response), Some(expires_at))` of `complete`.
  unfoldable pub store :
      MetadataCacheKey → Option CachedResponse → Option ℕ → ℕ → State → Option State
  store key (some response) (some expires_at) capacity s =
      if leb (entry_weight key response) capacity
      then insert key_equality key response expires_at (entry_weight key response) capacity s
      else some s
  store key none _ capacity s = some s
  store key (some response) none capacity s = some s

  unfoldable pub complete :
      MetadataCacheKey → ℕ → Option CachedResponse → Option ℕ → MetadataCache → Option MetadataCache
  unfolding store clear_inflight
  complete key flight response expires_at cache = do
    state ← store key response expires_at cache.capacity_bytes cache.state
    some (record cache {
      state = clear_inflight key flight state;
      flights = set_flight flight (finished response) cache.flights;
    })

-- `abandon`: the leader is dropped before it finishes.
unfoldable pub abandon : MetadataCacheKey → ℕ → MetadataCache → MetadataCache
unfolding clear_inflight
abandon key flight cache = record cache {
  state = clear_inflight key flight cache.state;
  flights = set_flight flight (finished none) cache.flights;
}

-- What the leader's branch of `execute` hands to `finish`: the response, and its expiry if it may be
-- stored. `then_some` takes `expires_at.expect(…)` as its argument, which is evaluated, and panics
-- where there is no expiry, whatever `cacheable` is.
unfoldable pub fill_outcome :
    ℕ → MetadataCache → ℕ → ℕ → MetadataFill → Option (Option CachedResponse × Option ℕ)
unfolding expiration from_fill
fill_outcome max_instant cache now utc_now completed = elim (from_fill completed) [
  | none ↦ some (none, none)
  | some response ↦ elim (expiration max_instant cache now utc_now completed.valid_until) [
    | none ↦ none
    | some expires_at ↦
        let cacheable =
          response.status == 200
          && not response.overloaded
          && completed.policy_cacheable
          && leb (length response.body) cache.max_entry_bytes in
        some (some response, if cacheable then some expires_at else none)
  ]
]
