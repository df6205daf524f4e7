-- ===== src/MetadataCache/Tests.antt =====
-- Runs of the metadata cache of src/metadata_cache.rs, and its theorems at concrete inputs.
use osv_proxy.Common.{
  ℕ, ◌≤◌, ◌≡◌, ◌≢◌, refl, ap, true, false, none, some, [], ◌∷◌, ◌++◌, arith, inl, codes, text_eq,
  ◌↔◌, length,
}
use osv_proxy.Common.Equality.{map_get, map_insert, map_remove, get_elem?, set}
use osv_proxy.Artifact.{npm, ecosystem_eq}
use osv_proxy.Config.{MetadataCacheConfig}
use osv_proxy.MetadataCache.State.{
  CacheEntry, node_at, touch, remove, insert, write_at, write_next, write_previous,
}
use osv_proxy.MetadataCache.Segments.{Cell}
use osv_proxy.MetadataCache.Invariant.{without}
use osv_proxy.MetadataCache.Remove.{remove-IsCache}
use osv_proxy.MetadataCache.Touch.{touch-IsCache}
use osv_proxy.MetadataCache.Insert.{evicted}
use osv_proxy.MetadataCache.InsertLaws.{insert-IsCache}
use osv_proxy.MetadataCache.Response.{
  MetadataCacheKey, CachedResponse, MetadataFill, HttpResponse, key_equality, key_eq, from_fill,
  key_weight, response_weight, option_len,
}
use osv_proxy.MetadataCache.Store.{
  MetadataCache, State, hit, fill, lookup, join_or_lead, complete, new_cache, finished, pending,
  entry_weight, clear_inflight, fill_outcome,
}
use osv_proxy.MetadataCache.StoreLaws.{Cells, Holds, lookup-expired}
use osv_proxy.MetadataCache.Fills.{complete-IsCache, complete-lookup, StoredCells}
use osv_proxy.MetadataCache.Freshness.{
  fill_outcome-panics_iff, fill_outcome-stores, IsExpired, IsExpiry,
}
use osv_proxy.MetadataCache.System.{System, Reachable, starts, steps, looks_up, Looked}
use osv_proxy.MetadataCache.SystemLaws.{Reachable-Looked, Reachable-single_flight}

abbrev pub key_a : MetadataCacheKey
key_a = record {
  ecosystem = npm;
  revision = some 1;
  path = codes "/npm/left-pad";
  accept = none;
  if_none_match = none;
  if_modified_since = none;
  range = none;
  if_range = none;
}

abbrev key_b : MetadataCacheKey
key_b = record key_a { revision = some 2 }

abbrev key_c : MetadataCacheKey
key_c = record key_a { revision = some 3 }

abbrev page : CachedResponse
page = record {
  status = 200;
  version = 11;
  headers = [];
  body = 123 ∷ 125 ∷ [];
  overloaded = false;
}

abbrev cell_a : Cell MetadataCacheKey CachedResponse
cell_a = record { index = 0; key = key_a; response = page; expires_at = 50; weight = 40 }

abbrev cell_b : Cell MetadataCacheKey CachedResponse
cell_b = record { index = 1; key = key_b; response = page; expires_at = 90; weight = 40 }

abbrev node_a : CacheEntry MetadataCacheKey CachedResponse
node_a = record {
  key = key_a;
  response = page;
  expires_at = 50;
  weight = 40;
  previous = none;
  next = some 1;
}

abbrev node_b : CacheEntry MetadataCacheKey CachedResponse
node_b = record {
  key = key_b;
  response = page;
  expires_at = 90;
  weight = 40;
  previous = some 0;
  next = none;
}

-- Two entries, `a` before `b`, with a slot that is free.
abbrev two : State
two = record {
  entries = (key_a, 0) ∷ (key_b, 1) ∷ [];
  nodes = some node_a ∷ some node_b ∷ none ∷ [];
  free_nodes = 2 ∷ [];
  lru_head = some 0;
  lru_tail = some 1;
  inflight = [];
  total_weight = 80;
}

abbrev two_cells : Cells
two_cells = cell_a ∷ cell_b ∷ []

distinct_keys : key_b ≢ key_a
distinct_keys e = absurd (ground (arith, ap (λ (k : MetadataCacheKey). k.revision) e))

two-IsCache : Holds two two_cells
unfolding node_at get_elem? map_get
two-IsCache = record {
  segments = (refl, (refl, tt));
  head = refl;
  tail = refl;
  distinct = ((ground arith, tt), (tt, tt));
  keys = ((distinct_keys, tt), (tt, tt));
  lookup = λ k. refl;
  weights = refl;
  weights_fit = omega arith;
  free = (refl, tt);
  free_once = (tt, tt);
  no_leak = refl;
}

abbrev pub config : MetadataCacheConfig
config = record {
  enabled = true;
  capacity_bytes = 100;
  max_entry_bytes = 64;
  ttl = 30;
  fill_concurrency = 4;
}

abbrev cache : MetadataCache
cache = record {
  enabled = true;
  capacity_bytes = 100;
  max_entry_bytes = 64;
  ttl = 30;
  state = two;
  flights = λ _. pending;
  next_flight = 0;
}

-- A third entry does not fit beside the two: the oldest goes.
insert_third :
    map_get key_equality key_a
      (elim (insert key_equality key_c page 70 40 100 two) [ some s ↦ s.entries | none ↦ [] ])
    ≡ none
unfolding insert map_get map_insert map_remove node_at get_elem? set write_at write_next
    write_previous key_eq ecosystem_eq text_eq
insert_third = refl

touch-IsCache_example :
    (s : State) × (touch 0 two ≡ some s) × Holds s (cell_b ∷ cell_a ∷ []) × (s.inflight ≡ [])
touch-IsCache_example = touch-IsCache key_equality two [] cell_a (cell_b ∷ []) two-IsCache

remove-IsCache_example :
    (s : State) × (remove key_equality key_a two ≡ some s)
    × Holds s (without key_equality key_a two_cells)
    × (s.inflight ≡ [])
remove-IsCache_example = remove-IsCache key_equality two two_cells key_a two-IsCache

insert-IsCache_example :
    (s : State) × (c : Cell MetadataCacheKey CachedResponse) × (insert key_equality key_c page 70 40
        100 two
      ≡ some s)
    × Holds s (evicted 40 100 (without key_equality key_c two_cells) ++ c ∷ [])
    × (c.key ≡ key_c)
    × (c.response ≡ page)
    × (c.expires_at ≡ 70)
    × (c.weight ≡ 40)
    × (s.total_weight ≤ 100)
    × (s.inflight ≡ [])
insert-IsCache_example =
    insert-IsCache key_equality two two_cells key_c page 70 40 100 two-IsCache (omega arith)
      (omega arith)

lookup-expired_example :
    (s : State) × (lookup key_a 50 cache ≡ some (join_or_lead key_a (record cache { state = s })))
    × Holds s (cell_b ∷ [])
    × (s.inflight ≡ [])
lookup-expired_example = lookup-expired cache 50 [] cell_a (cell_b ∷ []) two-IsCache (omega arith)

complete-IsCache_example :
    (cache' : MetadataCache) × (l : Cells) × (complete 10 10 key_c 7 (some page) (some 70) cache
      ≡ some cache')
    × Holds cache'.state l
    × StoredCells 10 10 key_c (some page) (some 70) 100 two_cells l
    × (cache'.state.total_weight ≤ 100)
    × (cache'.flights 7 ≡ finished (some page))
    × (cache'.state.inflight ≡ (clear_inflight key_c 7 two).inflight)
complete-IsCache_example =
    complete-IsCache 10 10 key_c 7 (some page) (some 70) cache two_cells two-IsCache (omega arith)
      (omega arith)

page_fits : entry_weight 10 10 key_c page ≤ 100
unfolding key_weight response_weight option_len
page_fits = omega arith

complete-lookup_example :
    (cache' : MetadataCache) × (s : State) × (complete 10 10 key_c 7 (some page) (some 70) cache
      ≡ some cache')
    × (lookup key_c 60 cache' ≡ some (hit page, record cache' { state = s }))
complete-lookup_example =
    complete-lookup 10 10 key_c 7 page 70 60 cache two_cells two-IsCache (omega arith) (omega arith)
      page_fits (omega arith)

abbrev made : HttpResponse
made = record {
  status = 200;
  version = 11;
  headers = [];
  body = page.body;
  buffered = some page.body;
}

-- The policy's decision was valid until 40, and it is 45.
abbrev late : MetadataFill
late = record {
  response = made;
  overloaded = false;
  valid_until = some 40;
  policy_cacheable = true;
}

abbrev timely : MetadataFill
timely = record late { valid_until = some 60 }

fill_outcome-panics_iff_example :
    (fill_outcome 1000 cache 10 45 late ≡ none)
    ↔ ((from_fill late ≢ none) × IsExpired 1000 cache 10 45 (some 40))
fill_outcome-panics_iff_example = fill_outcome-panics_iff 1000 cache 10 45 late

timely_outcome : fill_outcome 1000 cache 10 45 timely ≡ some (some page, some 25)
unfolding fill_outcome
timely_outcome = refl

late_outcome : fill_outcome 1000 cache 10 45 late ≡ none
unfolding fill_outcome
late_outcome = refl

fill_outcome-stores_example :
    (response : CachedResponse) × (some page ≡ some response)
    × (from_fill timely ≡ some response)
    × (response.status ≡ 200)
    × (response.overloaded ≡ false)
    × (true ≡ true)
    × (length response.body ≤ 64)
    × IsExpiry 1000 cache 10 45 (some 60) 25
fill_outcome-stores_example =
    fill_outcome-stores 1000 cache 10 45 timely (some page) 25 timely_outcome

-- The first request of a key leads.
abbrev pub led_cache : MetadataCache
led_cache = (join_or_lead key_a (new_cache config)).1

first_lookup : lookup key_a 5 (new_cache config) ≡ some (fill 0, led_cache)
unfolding lookup map_get new_cache
first_lookup = refl

abbrev pub one_leader : System
one_leader = record { cache = led_cache; leaders = (key_a, 0) ∷ [] }

pub one_leader-Reachable : Reachable 10 10 config one_leader
one_leader-Reachable =
    steps (record { cache = new_cache config; leaders = [] }) one_leader starts
      (looks_up (new_cache config) led_cache [] key_a 5 (fill 0) first_lookup)

Reachable-Looked_example :
    (l : Cells) × Holds led_cache.state l
    × (led_cache.state.total_weight ≤ 100)
    × Looked key_a 6 l ((key_a, 0) ∷ []) led_cache
Reachable-Looked_example =
    Reachable-Looked 10 10 config one_leader key_a 6 (omega arith) one_leader-Reachable

abbrev flight : ℕ
flight = 0

Reachable-single_flight_example : (flight ≡ flight) × (led_cache.flights 0 ≡ pending)
Reachable-single_flight_example =
    Reachable-single_flight 10 10 config one_leader key_a 0 0 (omega arith) one_leader-Reachable
      (inl refl) (inl refl)
