-- ===== src/MetadataCache/InsertLaws.antt =====
-- `insert` of src/metadata_cache.rs as a whole: the cells afterwards, and the capacity.
use osv_proxy.Common.{
  ℕ, suc, ◌+◌, ◌≤◌, ◌<◌, ◌≡◌, refl, ◌∙◌, some, List, [], ◌∷◌, ◌++◌, arith, length,
}
use osv_proxy.Common.Equality.{Eq, usize_max}
use osv_proxy.MetadataCache.State.{CacheState, remove, evict, allocate, append_node, insert}
use osv_proxy.MetadataCache.Segments.{Cell}
use osv_proxy.MetadataCache.Invariant.{total, total-append, NotKey, IsCache, without, without_lem}
use osv_proxy.MetadataCache.Remove.{remove-IsCache}
use osv_proxy.MetadataCache.Allocate.{allocate-IsReady}
use osv_proxy.MetadataCache.Insert.{
  evicted, evict-IsCache, appended, append_node-appended, appended-IsCache, inflight_same,
}

evicted-fits :
    {K R : Type 0} (weight capacity : ℕ) (l : List (Cell K R))
    → weight ≤ capacity
    → capacity < usize_max
    → total (evicted weight capacity l) + weight ≤ capacity
unfolding evicted
evicted-fits weight capacity [] h k = omega arith
evicted-fits weight capacity (c ∷ l) h k = ground (arith, evicted-fits weight capacity l h k)

evicted-NotKey :
    {K R : Type 0} (weight capacity : ℕ) (key : K) (l : List (Cell K R))
    → NotKey key l
    → NotKey key (evicted weight capacity l)
unfolding evicted
evicted-NotKey weight capacity key [] n = tt
evicted-NotKey weight capacity key (c ∷ l) n =
    ground (arith, evicted-NotKey weight capacity key l n.1)

module _ {K R I : Type 0} (eq : Eq K) where
  insert_steps :
      (s s₁ s₂ s' : CacheState K R I) (key : K) (response : R) (expires_at weight capacity : ℕ)
      → remove eq key s ≡ some s₁
      → evict eq (suc (length s₁.nodes)) weight capacity s₁ ≡ some s₂
      → append_node eq (allocate eq s₂).0 key response expires_at weight (allocate eq s₂).1
        ≡ some s'
      → insert eq key response expires_at weight capacity s ≡ some s'
  unfolding insert
  insert_steps s s₁ s₂ s' key response expires_at weight capacity e₁ e₂ e₃ = rw e₁ (rw e₂ e₃)

  -- `insert` of an entry that fits the capacity neither panics nor runs out of the eviction's
  -- rounds: the older entry of the key goes, then the least recently used cells that are in the way,
  -- and the new entry stands last. The weights fit the capacity, and what is in flight stays.
  pub insert-IsCache :
      (s : CacheState K R I) (l : List (Cell K R)) (key : K) (response : R)
      (expires_at weight capacity : ℕ)
      → IsCache eq s l
      → weight ≤ capacity
      → capacity < usize_max
      → (s' : CacheState K R I) × (c : Cell K R) × (insert eq key response expires_at weight
            capacity s
          ≡ some s')
        × IsCache eq s' (evicted weight capacity (without eq key l) ++ c ∷ [])
        × (c.key ≡ key)
        × (c.response ≡ response)
        × (c.expires_at ≡ expires_at)
        × (c.weight ≡ weight)
        × (s'.total_weight ≤ capacity)
        × (s'.inflight ≡ s.inflight)
  insert-IsCache s l key response expires_at weight capacity h fits max =
      let (s₁, e₁, h₁, i₁) = remove-IsCache eq s l key h in
      let (s₂, e₂, h₂, i₂) =
        evict-IsCache eq (suc (length s₁.nodes)) weight capacity s₁ (without eq key l)
          (omega (arith, h₁.no_leak)) h₁ in
      let left : List (Cell K R) = evicted weight capacity (without eq key l) in
      let room : total left + weight ≤ capacity =
        evicted-fits weight capacity (without eq key l) fits max in
      let n : NotKey key left =
        evicted-NotKey weight capacity key (without eq key l) (without_lem eq key l) in
      let r = allocate-IsReady eq s₂ left h₂ in
      let c : Cell K R = record {
        index = (allocate eq s₂).0;
        key = key;
        response = response;
        expires_at = expires_at;
        weight = weight;
      } in
      let fit : total left + weight ≤ usize_max = omega arith in
      let h₃ = appended-IsCache eq s₂ (allocate eq s₂).1 left c h₂ r n fit in
      (
        appended eq s₂ (allocate eq s₂).1 left c h₂ r n fit,
        c,
        insert_steps s s₁ s₂ (appended eq s₂ (allocate eq s₂).1 left c h₂ r n fit) key response
            expires_at weight capacity e₁ e₂
            (append_node-appended eq s₂ (allocate eq s₂).1 left c h₂ r n fit),
        h₃,
        refl,
        refl,
        refl,
        refl,
        omega (arith, h₃.weights, total-append left (c ∷ []), room),
        inflight_same eq s₂ (allocate eq s₂).1 left c h₂ r n fit ∙ (i₂ ∙ i₁),
      )
