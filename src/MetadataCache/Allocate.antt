-- ===== src/MetadataCache/Allocate.antt =====
-- The slot for a new node in `insert` of src/metadata_cache.rs: one that is free, or a new one at
-- the end of the nodes.
use osv_proxy.Common.{
  ℕ, zero, suc, ◌+◌, ◌≡◌, refl, ap, Option, none, some, List, [], ◌∷◌, ◌++◌, arith, length,
  length-append, inl, inr, Option-cases,
}
use osv_proxy.Common.Equality.{Eq, get_elem?, get_elem?-lt}
use osv_proxy.MetadataCache.State.{CacheEntry, CacheState, node_at, allocate}
use osv_proxy.MetadataCache.Segments.{Cell, Seg, head_or, last_or}
use osv_proxy.MetadataCache.Invariant.{AbsentFrom, HasNoRepeats, AreFree, IsCache}

get_elem?-append :
    {A : Type 0} (xs ys : List A) (i : ℕ) (v : A)
    → get_elem? xs i ≡ some v
    → get_elem? (xs ++ ys) i ≡ some v
unfolding get_elem?
get_elem?-append [] ys i v e = absurd (ground arith)
get_elem?-append (x ∷ xs) ys zero v e = e
get_elem?-append (x ∷ xs) ys (suc i) v e = get_elem?-append xs ys i v e

get_elem?-last : {A : Type 0} (xs : List A) (v : A) → get_elem? (xs ++ v ∷ []) (length xs) ≡ some v
unfolding get_elem?
get_elem?-last [] v = refl
get_elem?-last (x ∷ xs) v = get_elem?-last xs v

node_at-append :
    {K R : Type 0} (xs ys : List (Option (CacheEntry K R))) (i : ℕ) (v : CacheEntry K R)
    → node_at xs i ≡ some v
    → node_at (xs ++ ys) i ≡ some v
unfolding node_at
node_at-append xs ys i v e = elim (Option-cases (get_elem? xs i)) [
  | inl q ↦ absurd (ground arith)
  | inr (slot, q) ↦ rw (get_elem?-append xs ys i slot q) (rw q at e)
]

module _ {K R : Type 0} where
  Seg-extend :
      (nodes more : List (Option (CacheEntry K R))) (previous : Option ℕ) (l : List (Cell K R))
      (next : Option ℕ)
      → Seg nodes previous l next
      → Seg (nodes ++ more) previous l next
  Seg-extend nodes more previous [] next h = tt
  Seg-extend nodes more previous (c ∷ l) next (h, hs) =
      (node_at-append nodes more c.index _ h, Seg-extend nodes more (some c.index) l next hs)

  AreFree-extend :
      (nodes more : List (Option (CacheEntry K R))) (l : List ℕ)
      → AreFree nodes l
      → AreFree (nodes ++ more) l
  AreFree-extend nodes more [] h = tt
  AreFree-extend nodes more (i ∷ l) (h, hs) =
      (get_elem?-append nodes more i none h, AreFree-extend nodes more l hs)

  -- A slot at the end is new.
  AbsentFrom-end :
      (nodes : List (Option (CacheEntry K R))) (l : List ℕ)
      → AreFree nodes l
      → AbsentFrom (length nodes) l
  AbsentFrom-end nodes [] h = tt
  AbsentFrom-end nodes (i ∷ l) (h, hs) =
      (omega (arith, get_elem?-lt nodes i none h), AbsentFrom-end nodes l hs)

module _ {K R I : Type 0} where
  -- A state of the cache whose slot `i` is in range, holds no node and is not listed as free.
  pub record IsReady (before s : CacheState K R I) (l : List (Cell K R)) (i : ℕ) : Type 0 where
    pub segments : Seg s.nodes none l none
    pub head : s.lru_head ≡ head_or l none
    pub tail : s.lru_tail ≡ last_or none l
    pub free : AreFree s.nodes s.free_nodes
    pub free_once : HasNoRepeats s.free_nodes
    pub vacant : get_elem? s.nodes i ≡ some none
    pub unlisted : AbsentFrom i s.free_nodes
    pub no_leak : suc (length l) + length s.free_nodes ≡ length s.nodes
    pub same_entries : s.entries ≡ before.entries
    pub same_inflight : s.inflight ≡ before.inflight
    pub same_weight : s.total_weight ≡ before.total_weight

module _ {K R I : Type 0} (eq : Eq K) where
  pub allocate-IsReady :
      (s : CacheState K R I) (l : List (Cell K R))
      → IsCache eq s l
      → IsReady s (allocate eq s).1 l (allocate eq s).0
  unfolding allocate
  allocate-IsReady s l h = go s.free_nodes refl
    where
      go : (f : List ℕ) → s.free_nodes ≡ f → IsReady s (allocate eq s).1 l (allocate eq s).0
      go [] e =
          rw (e, allocate)
            (record {
              segments = Seg-extend s.nodes (none ∷ []) none l none h.segments;
              head = h.head;
              tail = h.tail;
              free = AreFree-extend s.nodes (none ∷ []) s.free_nodes h.free;
              free_once = h.free_once;
              vacant = get_elem?-last s.nodes none;
              unlisted = AbsentFrom-end s.nodes s.free_nodes h.free;
              no_leak = omega (arith, length-append s.nodes (none ∷ []), h.no_leak);
              same_entries = refl;
              same_inflight = refl;
              same_weight = refl;
            })
      go (i ∷ f) e =
          let free : AreFree s.nodes (i ∷ f) = rw e at h.free in
          let once : HasNoRepeats (i ∷ f) = rw e at h.free_once in
          rw (e, allocate)
            (record {
              segments = h.segments;
              head = h.head;
              tail = h.tail;
              free = free.1;
              free_once = once.1;
              vacant = free.0;
              unlisted = once.0;
              no_leak = omega (arith, ap length e, h.no_leak);
              same_entries = refl;
              same_inflight = refl;
              same_weight = refl;
            })
