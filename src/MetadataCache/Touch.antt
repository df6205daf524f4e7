-- ===== src/MetadataCache/Touch.antt =====
-- `touch` of src/metadata_cache.rs: the cell moves to the most recently used end.
use osv_proxy.Common.{
  ℕ, ◌≡◌, refl, sym, ◌∙◌, ap, false, none, some, List, [], ◌∷◌, ◌++◌, arith, length, length-append,
}
use osv_proxy.Common.Equality.{Eq, map_get, get_elem?}
use osv_proxy.MetadataCache.State.{
  CacheState, node_at, link_next, link_previous, is_index, move_to_tail, touch,
}
use osv_proxy.MetadataCache.Segments.{
  last_index, last_or-cons, NotIn-last, Cell, Seg, Seg-split, Seg-append, NotIn, NotIn-split,
  NotIn-append, AreDistinct, AreDistinct-split, AreDistinct-append, AreApart, AreApart-cons,
  entry_of, head_or-append, last_or-append, last_or, node_at-lt,
}
use osv_proxy.MetadataCache.Links.{
  Seg-frame, AreApart-sym, NextLinked, PreviousLinked, link_next-last, link_previous-first,
  relink_previous-first, Attached, attach_tail, with_node,
}
use osv_proxy.MetadataCache.Invariant.{
  total, total-append, HasDistinctKeys, HasDistinctKeys-remove, HasDistinctKeys-snoc, NotIn_of_free,
  AreFree, index_of, index_of-move, NotKey, IsCache,
}
use mathlib.Core.List.{append-nil}

module _ {K R I : Type 0} (eq : Eq K) where
  -- A cell with another one, `d`, behind it.
  module _ (s : CacheState K R I) (a : List (Cell K R)) (c d : Cell K R) (b : List (Cell K R))
      (h : IsCache eq s (a ++ c ∷ d ∷ b)) where
    abbrev rest : List (Cell K R)
    rest = d ∷ b

    abbrev parts : AreDistinct a × AreDistinct (c ∷ rest) × AreApart a (c ∷ rest)
    parts = AreDistinct-split a (c ∷ rest) h.distinct

    abbrev apart : NotIn c.index a × AreApart a rest
    apart = AreApart-cons a c rest parts.2

    abbrev segments :
        Seg s.nodes none a (some c.index) × Seg s.nodes (last_or none a) (c ∷ rest) none
    segments = Seg-split s.nodes none a (c ∷ rest) none h.segments

    first :
        (s₁ : CacheState K R I) × (link_next (last_or none a) (some d.index) s ≡ some s₁)
        × NextLinked a (some d.index) s s₁
    first =
        link_next-last a (some c.index) (some d.index) (some c.index) s parts.0 segments.0
          (h.head ∙ head_or-append a (c ∷ rest) none)

    second :
        (s₂ : CacheState K R I) × (link_previous (some d.index) (last_or none a) first.0 ≡ some s₂)
        × PreviousLinked (some c.index) rest (last_or none a) first.0 s₂
    second =
        link_previous-first (some c.index) rest (last_or none a) first.0 parts.1.1
          (Seg-frame a s.nodes first.0.nodes (some c.index) rest none first.2.outside
            (AreApart-sym a rest apart.1) segments.1.1)
          (first.2.tail ∙ (h.tail ∙ last_or-append none a (c ∷ rest)))

    abbrev s₂ : CacheState K R I
    s₂ = second.0

    outside : (j : ℕ) → NotIn j a → NotIn j rest → get_elem? s₂.nodes j ≡ get_elem? s.nodes j
    outside j na nb = second.2.outside j nb ∙ first.2.outside j na

    -- The list without the cell, and the cell still as it was.
    linked : Seg s₂.nodes none (a ++ rest) none
    linked =
        Seg-append s₂.nodes none a rest none
          (Seg-frame rest first.0.nodes s₂.nodes none a (some d.index) second.2.outside apart.1
            first.2.segment)
          second.2.segment

    cell_kept : node_at s₂.nodes c.index ≡ some (entry_of c (last_or none a) (some d.index))
    unfolding node_at
    cell_kept = rw (outside c.index apart.0 parts.1.0) segments.1.0

    abbrev order : List (Cell K R)
    order = a ++ rest

    order-NotIn : NotIn c.index order
    order-NotIn = NotIn-append c.index a rest apart.0 parts.1.0

    size : length s₂.nodes ≡ length s.nodes
    size = second.2.rest.size ∙ first.2.rest.size

    third :
        (s₄ : CacheState K R I) × (link_next s₂.lru_tail (some c.index) (with_node c s₂) ≡ some s₄)
        × Attached order c s₂ s₄
    third =
        attach_tail order c s₂ linked
          (second.2.head ∙ (first.2.head ∙ sym (head_or-append a rest none)))
          (second.2.tail ∙ sym (last_or-append none a rest))
          (AreDistinct-append a rest parts.0 parts.1.1 apart.1) order-NotIn
          (node_at-lt s₂.nodes c.index _ cell_kept)

    abbrev moved : CacheState K R I
    moved = record third.0 { lru_tail = some c.index }

    move_to_tail-moved : move_to_tail c.index s ≡ some moved
    unfolding move_to_tail
    move_to_tail-moved = rw segments.1.0 (
        rw first.1 (
          rw (relink_previous-first d b (last_or none a) first.0)
            (rw second.1 (rw cell_kept (rw third.1 refl)))))

    free_elsewhere :
        (j : ℕ) → get_elem? s.nodes j ≡ some none → get_elem? third.0.nodes j ≡ some none
    unfolding node_at
    free_elsewhere j e =
        let n : NotIn j (a ++ c ∷ rest) =
          NotIn_of_free s.nodes none (a ++ c ∷ rest) none j (rw e refl) h.segments in
        let (na, nc) = NotIn-split j a (c ∷ rest) n in
        third.2.outside j (nc.0, NotIn-append j a rest na nc.1) ∙ (outside j na nc.1 ∙ e)

    still_free : (l : List ℕ) → AreFree s.nodes l → AreFree third.0.nodes l
    still_free [] k = tt
    still_free (j ∷ l) (e, k) = (free_elsewhere j e, still_free l k)

    free_same : third.0.free_nodes ≡ s.free_nodes
    free_same = third.2.rest.free_nodes ∙ (second.2.rest.free_nodes ∙ first.2.rest.free_nodes)

    entries_same : third.0.entries ≡ s.entries
    entries_same = third.2.rest.entries ∙ (second.2.rest.entries ∙ first.2.rest.entries)

    weight_same : third.0.total_weight ≡ s.total_weight
    weight_same =
        third.2.rest.total_weight ∙ (second.2.rest.total_weight ∙ first.2.rest.total_weight)

    inflight_same : moved.inflight ≡ s.inflight
    inflight_same = third.2.rest.inflight ∙ (second.2.rest.inflight ∙ first.2.rest.inflight)

    total_same : total (order ++ c ∷ []) ≡ total (a ++ c ∷ rest)
    total_same =
        omega (arith, total-append order (c ∷ []), total-append a rest, total-append a (c ∷ rest))

    length_same : length (order ++ c ∷ []) ≡ length (a ++ c ∷ rest)
    length_same =
        omega
          (arith, length-append order (c ∷ []), length-append a rest, length-append a (c ∷ rest))

    keys_kept : HasDistinctKeys order × NotKey c.key order
    keys_kept = HasDistinctKeys-remove a c rest h.keys

    lookup_moved : (k : K) → map_get eq k third.0.entries ≡ index_of eq k (order ++ c ∷ [])
    lookup_moved k = rw (entries_same, h.lookup k) (index_of-move eq k a c rest h.keys)

    moved-IsCache : IsCache eq moved (order ++ c ∷ [])
    moved-IsCache = record {
      segments = third.2.segments;
      head = third.2.head;
      tail = sym third.2.tail;
      distinct =
          AreDistinct-append order (c ∷ []) (AreDistinct-append a rest parts.0 parts.1.1 apart.1)
            (tt, tt) (AreApart-sym (c ∷ []) order (order-NotIn, tt));
      keys = HasDistinctKeys-snoc order c keys_kept.0 keys_kept.1;
      lookup = lookup_moved;
      weights = weight_same ∙ (h.weights ∙ sym total_same);
      weights_fit = omega (arith, total_same, h.weights_fit);
      free = still_free third.0.free_nodes (rw free_same h.free);
      free_once = rw free_same h.free_once;
      no_leak = omega (arith, length_same, ap length free_same, h.no_leak, size, third.2.rest.size);
    }

    not_last : is_index s.lru_tail c.index ≡ false
    not_last =
        let last : s.lru_tail ≡ some (last_index d b) =
          h.tail ∙ (last_or-append none a (c ∷ rest) ∙ last_or-cons (some c.index) d b) in
        rw last (ground (arith, NotIn-last c.index d b parts.1.0))

  -- `touch` of a cell succeeds: the cell moves to the most recently used end, and the others stay in
  -- their order.
  pub touch-IsCache :
      (s : CacheState K R I) (a : List (Cell K R)) (c : Cell K R) (b : List (Cell K R))
      → IsCache eq s (a ++ c ∷ b)
      → (s' : CacheState K R I) × (touch c.index s ≡ some s')
        × IsCache eq s' ((a ++ b) ++ c ∷ [])
        × (s'.inflight ≡ s.inflight)
  unfolding touch
  touch-IsCache s a c [] h =
      let last : s.lru_tail ≡ some c.index = h.tail ∙ last_or-append none a (c ∷ []) in
      (s, ground (arith, last), rw (append-nil a) h, refl)
  touch-IsCache s a c (d ∷ b) h = (
    moved s a c d b h,
    rw (not_last s a c d b h, touch) (move_to_tail-moved s a c d b h),
    moved-IsCache s a c d b h,
    inflight_same s a c d b h,
  )
