-- ===== src/MetadataCache/Insert.antt =====
-- `insert` of src/metadata_cache.rs: the least recently used cells go until the new one fits, and
-- it stands at the most recently used end.
use osv_proxy.Common.{
  ℕ, zero, suc, ◌+◌, ◌≤◌, ◌<◌, ◌≡◌, ◌≢◌, refl, sym, ◌∙◌, ap, none, some, List, [], ◌∷◌, ◌++◌, arith,
  length, length-append, inl, inr, if◌then◌else◌, ltb, lt→ltb, Bool-cases,
}
use osv_proxy.Common.Equality.{
  Eq, map_get, map_insert, map_get-insert, get_elem?, get_elem?-lt, usize_max, saturating_add,
}
use osv_proxy.MetadataCache.State.{CacheState, node_at, link_next, evict, append_node, write_at}
use osv_proxy.MetadataCache.Segments.{Cell, NotIn, AreDistinct-append}
use osv_proxy.MetadataCache.Links.{AreApart-sym, Attached, attach_tail, with_node}
use osv_proxy.MetadataCache.Invariant.{
  total, total-append, NotKey, HasDistinctKeys-snoc, NotIn_of_free, AbsentFrom, AreFree, index_of,
  index_of-snoc, IsCache,
}
use osv_proxy.MetadataCache.Allocate.{IsReady}
use osv_proxy.MetadataCache.Remove.{remove_index-IsCache}

-- What eviction leaves of the cells for a new one of the weight.
unfoldable pub evicted : {K R : Type 0} → ℕ → ℕ → List (Cell K R) → List (Cell K R)
evicted weight capacity [] = []
evicted weight capacity (c ∷ l) =
    if ltb capacity (saturating_add (total (c ∷ l)) weight)
    then evicted weight capacity l
    else c ∷ l

module _ {K R I : Type 0} (eq : Eq K) where
  pub evict-IsCache :
      (fuel weight capacity : ℕ) (s : CacheState K R I) (l : List (Cell K R))
      → length l < fuel
      → IsCache eq s l
      → (s' : CacheState K R I) × (evict eq fuel weight capacity s ≡ some s')
        × IsCache eq s' (evicted weight capacity l)
        × (s'.inflight ≡ s.inflight)
  unfolding evict evicted
  evict-IsCache zero weight capacity s l lt h = elim lt [ ]
  evict-IsCache (suc fuel) weight capacity s [] lt h = (s, ground (arith, h.head), h, refl)
  evict-IsCache (suc fuel) weight capacity s (c ∷ l) lt h =
      elim (Bool-cases (ltb capacity (saturating_add s.total_weight weight))) [
        | inr fits ↦ (s, ground (arith, fits), rw (← h.weights, fits) h, refl)
        | inl over ↦
            let (s₁, r, h₁, i) = remove_index-IsCache eq s [] c l h in
            let (s', e, h', i') = evict-IsCache fuel weight capacity s₁ l (omega arith) h₁ in
            (s', ground (arith, over, h.head, r, e), rw (← h.weights, over) h', i' ∙ i)
      ]

  -- The new cell, behind the others.
  module _ (s₀ s : CacheState K R I) (l : List (Cell K R)) (c : Cell K R) (h : IsCache eq s₀ l)
      (r : IsReady s₀ s l c.index) (n : NotKey c.key l) (fit : total l + c.weight ≤ usize_max) where
    new : NotIn c.index l
    unfolding node_at
    new = NotIn_of_free s.nodes none l none c.index (rw r.vacant refl) r.segments

    in_range : c.index < length s.nodes
    in_range = get_elem?-lt s.nodes c.index none r.vacant

    pub attached :
        (s₁ : CacheState K R I) × (link_next s.lru_tail (some c.index) (with_node c s) ≡ some s₁)
        × Attached l c s s₁
    attached = attach_tail l c s r.segments r.head r.tail h.distinct new in_range

    abbrev pub s₁ : CacheState K R I
    s₁ = attached.0

    abbrev pub appended : CacheState K R I
    appended = record s₁ {
      lru_tail = some c.index;
      total_weight = saturating_add s₁.total_weight c.weight;
      entries = map_insert eq c.key c.index s₁.entries;
    }

    pub append_node-appended :
        append_node eq c.index c.key c.response c.expires_at c.weight s ≡ some appended
    unfolding append_node write_at
    append_node-appended = rw (lt→ltb c.index (length s.nodes) in_range) (rw attached.1 refl)

    entries_same : s₁.entries ≡ s₀.entries
    entries_same = attached.2.rest.entries ∙ r.same_entries

    weight_same : s₁.total_weight ≡ total l
    weight_same = attached.2.rest.total_weight ∙ (r.same_weight ∙ h.weights)

    lookup_appended :
        (k : K)
        → map_get eq k (map_insert eq c.key c.index s₁.entries) ≡ index_of eq k (l ++ c ∷ [])
    lookup_appended k =
        map_get-insert eq c.key k c.index s₁.entries
        ∙ (rw (entries_same, h.lookup k) refl ∙ sym (index_of-snoc eq k l c n))

    free_elsewhere :
        (j : ℕ) → j ≢ c.index → get_elem? s.nodes j ≡ some none → get_elem? s₁.nodes j ≡ some none
    unfolding node_at
    free_elsewhere j ne e =
        attached.2.outside j
          ((λ q. ne (sym q)), NotIn_of_free s.nodes none l none j (rw e refl) r.segments)
        ∙ e

    still_free : (f : List ℕ) → AbsentFrom c.index f → AreFree s.nodes f → AreFree s₁.nodes f
    still_free [] a k = tt
    still_free (j ∷ f) (a, as') (e, k) = (free_elsewhere j a e, still_free f as' k)

    free_same : s₁.free_nodes ≡ s.free_nodes
    free_same = attached.2.rest.free_nodes

    pub appended-IsCache : IsCache eq appended (l ++ c ∷ [])
    appended-IsCache = record {
      segments = attached.2.segments;
      head = attached.2.head;
      tail = sym attached.2.tail;
      distinct =
          AreDistinct-append l (c ∷ []) h.distinct (tt, tt) (AreApart-sym (c ∷ []) l (new, tt));
      keys = HasDistinctKeys-snoc l c h.keys n;
      lookup = lookup_appended;
      weights = omega (arith, weight_same, total-append l (c ∷ []), fit);
      weights_fit = omega (arith, total-append l (c ∷ []), fit);
      free = rw free_same (still_free s.free_nodes r.unlisted r.free);
      free_once = rw free_same r.free_once;
      no_leak =
          omega
            (arith, ap length free_same, length-append l (c ∷ []), attached.2.rest.size, r.no_leak);
    }

    pub inflight_same : appended.inflight ≡ s₀.inflight
    inflight_same = attached.2.rest.inflight ∙ r.same_inflight
