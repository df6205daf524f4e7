-- ===== src/MetadataCache/StoreLaws.antt =====
-- `lookup`, `complete` and `abandon` of src/metadata_cache.rs keep the cache's order, bound and
-- freshness.
use osv_proxy.Common.{ℕ, ◌≤◌, ◌<◌, ◌≡◌, ◌∙◌, none, some, List, [], ◌∷◌, ◌++◌, arith}
use osv_proxy.Common.Equality.{beq_refl, map_get}
use osv_proxy.MetadataCache.State.{node_at}
use osv_proxy.MetadataCache.Segments.{Cell, Seg-split, last_or, entry_of, head_or}
use osv_proxy.MetadataCache.Invariant.{IsCache, NotKey, index_of-NotKey, index_of-found}
use osv_proxy.MetadataCache.Remove.{remove_index-IsCache}
use osv_proxy.MetadataCache.Touch.{touch-IsCache}
use osv_proxy.MetadataCache.Response.{MetadataCacheKey, CachedResponse, key_equality}
use osv_proxy.MetadataCache.Store.{MetadataCache, State, hit, join_or_lead, lookup}

abbrev pub Cells : Type 0
Cells = List (Cell MetadataCacheKey CachedResponse)

abbrev pub Holds : State → Cells → Type 0
Holds = IsCache key_equality

module _ (cache : MetadataCache) (now : ℕ) where
  module _ (a : Cells) (c : Cell MetadataCacheKey CachedResponse) (b : Cells)
      (h : Holds cache.state (a ++ c ∷ b)) where
    found : map_get key_equality c.key cache.state.entries ≡ some c.index
    found =
        h.lookup c.key
        ∙ index_of-found key_equality c.key a c b h.keys (beq_refl key_equality c.key)

    node : node_at cache.state.nodes c.index ≡ some (entry_of c (last_or none a) (head_or b none))
    node = (Seg-split cache.state.nodes none a (c ∷ b) none h.segments).1.0

    -- A fresh entry is returned, and becomes the most recently used.
    pub lookup-fresh :
        now < c.expires_at
        → (s : State) × (lookup c.key now cache ≡ some (hit c.response, record cache { state = s }))
          × Holds s ((a ++ b) ++ c ∷ [])
          × (s.inflight ≡ cache.state.inflight)
    unfolding lookup
    lookup-fresh fresh =
        let (s, e, k, i) = touch-IsCache key_equality cache.state a c b h in
        (s, ground (arith, found, node, e), k, i)

    -- An expired entry goes, and the request joins the key's flight or leads one.
    pub lookup-expired :
        c.expires_at ≤ now
        → (s : State) × (lookup c.key now cache
            ≡ some (join_or_lead c.key (record cache { state = s })))
          × Holds s (a ++ b)
          × (s.inflight ≡ cache.state.inflight)
    unfolding lookup
    lookup-expired old =
        let (s, e, k, i) = remove_index-IsCache key_equality cache.state a c b h in
        (s, ground (arith, found, node, e), k, i)

  pub lookup-absent :
      (key : MetadataCacheKey) (l : Cells)
      → Holds cache.state l
      → NotKey key l
      → lookup key now cache ≡ some (join_or_lead key cache)
  unfolding lookup
  lookup-absent key l h n = ground (arith, h.lookup key, index_of-NotKey key_equality key l n)
