-- ===== src/MetadataCache/Remove.antt =====
-- `remove_index` and `remove` of src/metadata_cache.rs: the cell goes, the others stay in order.
use osv_proxy.Common.{
  ℕ, suc, ◌+◌, ◌-◌, ◌≡◌, ◌≢◌, refl, sym, ◌∙◌, ap, none, some, List, [], ◌∷◌, ◌++◌, arith, length,
  length-append, Option-cases, inl, inr,
}
use osv_proxy.Common.Equality.{
  Eq, map_get, map_remove, map_get-remove, get_elem?, set, length-set, get_elem?-set_ne,
  get_elem?-set_self,
}
use osv_proxy.MetadataCache.State.{
  CacheEntry, CacheState, node_at, link_next, link_previous, unlink, remove_index, remove,
}
use osv_proxy.MetadataCache.Segments.{
  Cell, Seg, Seg-split, Seg-append, Seg-set, NotIn, NotIn-split, AreDistinct, AreDistinct-split,
  AreDistinct-append, AreApart, AreApart-cons, entry_of, head_or-append, last_or-append, head_or,
  last_or, node_at-lt,
}
use osv_proxy.MetadataCache.Links.{
  Seg-frame, AreApart-sym, NextLinked, PreviousLinked, link_next-last, link_previous-first,
}
use osv_proxy.MetadataCache.Invariant.{
  total, total-append, HasDistinctKeys-remove, NotKey-of_index, NotIn_of_free, AbsentFrom, AreFree,
  index_of, index_of-remove, split_at, without, without-NotKey, without-split, IsCache,
}

module _ {K R I : Type 0} (eq : Eq K) where
  module _ (s : CacheState K R I) (a : List (Cell K R)) (c : Cell K R) (b : List (Cell K R))
      (h : IsCache eq s (a ++ c ∷ b)) where
    abbrev entry : CacheEntry K R
    entry = entry_of c (last_or none a) (head_or b none)

    -- The state after the node is taken and the key is removed from the map.
    abbrev taken : CacheState K R I
    taken = record s { nodes = set s.nodes c.index none; entries = map_remove eq c.key s.entries }

    abbrev parts : AreDistinct a × AreDistinct (c ∷ b) × AreApart a (c ∷ b)
    parts = AreDistinct-split a (c ∷ b) h.distinct

    abbrev apart : NotIn c.index a × AreApart a b
    apart = AreApart-cons a c b parts.2

    abbrev segments : Seg s.nodes none a (some c.index) × Seg s.nodes (last_or none a) (c ∷ b) none
    segments = Seg-split s.nodes none a (c ∷ b) none h.segments

    node_at-cell : node_at s.nodes c.index ≡ some entry
    node_at-cell = segments.1.0

    first :
        (s₁ : CacheState K R I) × (link_next (last_or none a) (head_or b none) taken ≡ some s₁)
        × NextLinked a (head_or b none) taken s₁
    first =
        link_next-last a (some c.index) (head_or b none) (some c.index) taken parts.0
          (Seg-set s.nodes none a (some c.index) c.index none apart.0 segments.0)
          (h.head ∙ head_or-append a (c ∷ b) none)

    second :
        (s₂ : CacheState K R I) × (link_previous (head_or b none) (last_or none a) first.0
          ≡ some s₂)
        × PreviousLinked (some c.index) b (last_or none a) first.0 s₂
    second =
        link_previous-first (some c.index) b (last_or none a) first.0 parts.1.1
          (Seg-frame a taken.nodes first.0.nodes (some c.index) b none first.2.outside
            (AreApart-sym a b apart.1)
            (Seg-set s.nodes (some c.index) b none c.index none parts.1.0 segments.1.1))
          (first.2.tail ∙ (h.tail ∙ last_or-append none a (c ∷ b)))

    abbrev s₂ : CacheState K R I
    s₂ = second.0

    abbrev removed : CacheState K R I
    removed = record s₂ {
      total_weight = s₂.total_weight - c.weight;
      free_nodes = c.index ∷ s₂.free_nodes;
    }

    unlink-removed : unlink eq c.index entry s ≡ some removed
    unfolding unlink
    unlink-removed = rw first.1 (rw second.1 refl)

    -- The nodes that are no cell of the list are as they were, but the one that is taken.
    outside : (j : ℕ) → NotIn j a → NotIn j b → get_elem? s₂.nodes j ≡ get_elem? taken.nodes j
    outside j na nb = second.2.outside j nb ∙ first.2.outside j na

    linked : Seg s₂.nodes none (a ++ b) none
    linked =
        Seg-append s₂.nodes none a b none
          (Seg-frame b first.0.nodes s₂.nodes none a (head_or b none) second.2.outside apart.1
            first.2.segment)
          second.2.segment

    size : length s₂.nodes ≡ length s.nodes
    size = second.2.rest.size ∙ (first.2.rest.size ∙ length-set s.nodes c.index none)

    freed : get_elem? s₂.nodes c.index ≡ some none
    freed =
        outside c.index apart.0 parts.1.0
        ∙ get_elem?-set_self s.nodes c.index none (node_at-lt s.nodes c.index entry node_at-cell)

    free_elsewhere :
        (j : ℕ)
        → get_elem? s.nodes j ≡ some none
        → (j ≢ c.index) × (get_elem? s₂.nodes j ≡ some none)
    unfolding node_at
    free_elsewhere j e =
        let n : NotIn j (a ++ c ∷ b) =
          NotIn_of_free s.nodes none (a ++ c ∷ b) none j (rw e refl) h.segments in
        let (na, nc) = NotIn-split j a (c ∷ b) n in
        (
          (λ q. nc.0 (sym q)),
          outside j na nc.1 ∙ (get_elem?-set_ne s.nodes c.index j none nc.0 ∙ e),
        )

    still_free : (l : List ℕ) → AreFree s.nodes l → AreFree s₂.nodes l × AbsentFrom c.index l
    still_free [] k = (tt, tt)
    still_free (j ∷ l) (e, k) =
        let (n, f) = free_elsewhere j e in let (g, m) = still_free l k in ((f, g), (n, m))

    free_same : s₂.free_nodes ≡ s.free_nodes
    free_same = second.2.rest.free_nodes ∙ first.2.rest.free_nodes

    total_split : total (a ++ c ∷ b) ≡ c.weight + total (a ++ b)
    total_split = omega (arith, total-append a (c ∷ b), total-append a b)

    length_split : length (a ++ c ∷ b) ≡ suc (length (a ++ b))
    length_split = omega (arith, length-append a (c ∷ b), length-append a b)

    weight_same : s₂.total_weight ≡ s.total_weight
    weight_same = second.2.rest.total_weight ∙ first.2.rest.total_weight

    entries_same : s₂.entries ≡ map_remove eq c.key s.entries
    entries_same = second.2.rest.entries ∙ first.2.rest.entries

    inflight_same : removed.inflight ≡ s.inflight
    inflight_same = second.2.rest.inflight ∙ first.2.rest.inflight

    lookup_removed : (k : K) → map_get eq k s₂.entries ≡ index_of eq k (a ++ b)
    lookup_removed k =
        rw (entries_same, map_get-remove eq c.key k s.entries, h.lookup k)
          (index_of-remove eq k a c b h.keys)

    removed-IsCache : IsCache eq removed (a ++ b)
    removed-IsCache = record {
      segments = linked;
      head = second.2.head ∙ (first.2.head ∙ sym (head_or-append a b none));
      tail = second.2.tail ∙ sym (last_or-append none a b);
      distinct = AreDistinct-append a b parts.0 parts.1.1 apart.1;
      keys = (HasDistinctKeys-remove a c b h.keys).0;
      lookup = lookup_removed;
      weights = omega (arith, weight_same, h.weights, total_split);
      weights_fit = omega (arith, h.weights_fit, total_split);
      free = (freed, (still_free s₂.free_nodes (rw free_same h.free)).0);
      free_once = ((still_free s₂.free_nodes (rw free_same h.free)).1, rw free_same h.free_once);
      no_leak = omega (arith, ap length free_same, h.no_leak, length_split, size);
    }

    remove_index-removed : remove_index eq c.index s ≡ some removed
    unfolding remove_index
    remove_index-removed = rw (node_at-cell, remove_index) unlink-removed

  -- `remove` of a key in the cache succeeds: its cell goes and the others stay, in their order.
  pub remove_index-IsCache :
      (s : CacheState K R I) (a : List (Cell K R)) (c : Cell K R) (b : List (Cell K R))
      → IsCache eq s (a ++ c ∷ b)
      → (s' : CacheState K R I) × (remove_index eq c.index s ≡ some s')
        × IsCache eq s' (a ++ b)
        × (s'.inflight ≡ s.inflight)
  remove_index-IsCache s a c b h = (
    removed s a c b h,
    remove_index-removed s a c b h,
    removed-IsCache s a c b h,
    inflight_same s a c b h,
  )

  -- `remove` succeeds; exactly the cell with the key is gone.
  pub remove-IsCache :
      (s : CacheState K R I) (l : List (Cell K R)) (k : K)
      → IsCache eq s l
      → (s' : CacheState K R I) × (remove eq k s ≡ some s')
        × IsCache eq s' (without eq k l)
        × (s'.inflight ≡ s.inflight)
  unfolding remove
  remove-IsCache s l k h = elim (Option-cases (index_of eq k l)) [
    | inl e ↦ (
      s,
      rw (h.lookup k ∙ e, remove) refl,
      rw (without-NotKey eq k l (NotKey-of_index eq k l e)) h,
      refl,
    )
    | inr (i, e) ↦
        let (a, c, b, q, j, m) = split_at eq k l i e in
        let (s', r, g, f) = remove_index-IsCache s a c b (rw q at h) in
        (
          s',
          rw (h.lookup k ∙ e, remove) (rw (← j) r),
          rw q (rw (without-split eq k a c b (rw q at h.keys) m) g),
          f,
        )
  ]
