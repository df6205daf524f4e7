-- ===== src/MetadataCache/Segments.antt =====
-- Segments of the doubly linked list of src/metadata_cache.rs: what the nodes hold for a list of
-- cells, from the least to the most recently used.
use osv_proxy.Common.{
  ℕ, ◌<◌, ◌≡◌, ◌≢◌, refl, sym, ◌∙◌, Option, some, List, [], ◌∷◌, ◌++◌, arith, length, inl, inr,
  Option-cases,
}
use osv_proxy.Common.Equality.{get_elem?, set, get_elem?-set_self, get_elem?-set_ne, get_elem?-lt}
use osv_proxy.MetadataCache.State.{CacheEntry, node_at, write_next, write_previous}

-- A cell is an entry without its links, at its index.
pub record Cell (K R : Type 0) : Type 0 where
  pub index : ℕ
  pub key : K
  pub response : R
  pub expires_at : ℕ
  pub weight : ℕ

module _ {K R : Type 0} where
  abbrev pub entry_of : Cell K R → Option ℕ → Option ℕ → CacheEntry K R
  entry_of c previous next = record {
    key = c.key;
    response = c.response;
    expires_at = c.expires_at;
    weight = c.weight;
    previous = previous;
    next = next;
  }

  abbrev pub head_or : List (Cell K R) → Option ℕ → Option ℕ
  head_or [] next = next
  head_or (c ∷ l) next = some c.index

  abbrev pub last_or : Option ℕ → List (Cell K R) → Option ℕ
  last_or previous [] = previous
  last_or previous (c ∷ l) = last_or (some c.index) l

  abbrev pub NotIn : ℕ → List (Cell K R) → Type 0
  NotIn i [] = Unit
  NotIn i (c ∷ l) = (c.index ≢ i) × NotIn i l

  abbrev pub AreDistinct : List (Cell K R) → Type 0
  AreDistinct [] = Unit
  AreDistinct (c ∷ l) = NotIn c.index l × AreDistinct l

  -- The nodes hold the cells, linked to one another, to `previous` in front and to `next` behind.
  abbrev pub Seg : List (Option (CacheEntry K R)) → Option ℕ → List (Cell K R) → Option ℕ → Type 0
  Seg nodes previous [] next = Unit
  Seg nodes previous (c ∷ l) next =
      (node_at nodes c.index ≡ some (entry_of c previous (head_or l next)))
      × Seg nodes (some c.index) l next

  pub node_at-set_self :
      (nodes : List (Option (CacheEntry K R))) (i : ℕ) (v : Option (CacheEntry K R))
      → i < length nodes
      → node_at (set nodes i v) i ≡ v
  unfolding node_at
  node_at-set_self nodes i v h = rw (get_elem?-set_self nodes i v h)

  pub node_at-set_ne :
      (nodes : List (Option (CacheEntry K R))) (i j : ℕ) (v : Option (CacheEntry K R))
      → j ≢ i
      → node_at (set nodes i v) j ≡ node_at nodes j
  unfolding node_at
  node_at-set_ne nodes i j v h = rw (get_elem?-set_ne nodes i j v (λ e. h (sym e)))

  pub node_at-lt :
      (nodes : List (Option (CacheEntry K R))) (i : ℕ) (e : CacheEntry K R)
      → node_at nodes i ≡ some e
      → i < length nodes
  unfolding node_at
  node_at-lt nodes i e h = elim (Option-cases (get_elem? nodes i)) [
    | inl q ↦ absurd (ground arith)
    | inr (slot, q) ↦ get_elem?-lt nodes i slot q
  ]

  -- A write at an index outside a segment leaves the segment.
  pub Seg-set :
      (nodes : List (Option (CacheEntry K R))) (previous : Option ℕ) (l : List (Cell K R))
      (next : Option ℕ) (i : ℕ) (v : Option (CacheEntry K R))
      → NotIn i l
      → Seg nodes previous l next
      → Seg (set nodes i v) previous l next
  Seg-set nodes previous [] next i v n h = tt
  Seg-set nodes previous (c ∷ l) next i v (n, ns) (h, hs) =
      (node_at-set_ne nodes i c.index v n ∙ h, Seg-set nodes (some c.index) l next i v ns hs)

  pub Seg-append :
      (nodes : List (Option (CacheEntry K R))) (previous : Option ℕ) (a b : List (Cell K R))
      (next : Option ℕ)
      → Seg nodes previous a (head_or b next)
      → Seg nodes (last_or previous a) b next
      → Seg nodes previous (a ++ b) next
  Seg-append nodes previous [] b next h k = k
  Seg-append nodes previous (c ∷ []) b next h k = (h.0, k)
  Seg-append nodes previous (c ∷ d ∷ a) b next (h, hs) k =
      (h, Seg-append nodes (some c.index) (d ∷ a) b next hs k)

  pub Seg-split :
      (nodes : List (Option (CacheEntry K R))) (previous : Option ℕ) (a b : List (Cell K R))
      (next : Option ℕ)
      → Seg nodes previous (a ++ b) next
      → Seg nodes previous a (head_or b next) × Seg nodes (last_or previous a) b next
  Seg-split nodes previous [] b next h = (tt, h)
  Seg-split nodes previous (c ∷ []) b next h = ((h.0, tt), h.1)
  Seg-split nodes previous (c ∷ d ∷ a) b next (h, hs) =
      let (k, k') = Seg-split nodes (some c.index) (d ∷ a) b next hs in ((h, k), k')

  abbrev pub last_index : Cell K R → List (Cell K R) → ℕ
  last_index c [] = c.index
  last_index c (d ∷ l) = last_index d l

  pub last_or-cons :
      (previous : Option ℕ) (c : Cell K R) (l : List (Cell K R))
      → last_or previous (c ∷ l) ≡ some (last_index c l)
  last_or-cons previous c [] = refl
  last_or-cons previous c (d ∷ l) = last_or-cons (some c.index) d l

  pub NotIn-last :
      (i : ℕ) (c : Cell K R) (l : List (Cell K R)) → NotIn i (c ∷ l) → last_index c l ≢ i
  NotIn-last i c [] n = n.0
  NotIn-last i c (d ∷ l) n = NotIn-last i d l n.1

  -- `node_mut(last).next = value` at the last cell of a segment: the segment's end changes.
  pub write_next-last :
      (nodes : List (Option (CacheEntry K R))) (previous : Option ℕ) (c : Cell K R)
      (l : List (Cell K R)) (next value : Option ℕ)
      → AreDistinct (c ∷ l)
      → Seg nodes previous (c ∷ l) next
      → (v : Option (CacheEntry K R)) × (write_next nodes (last_index c l) value
          ≡ some (set nodes (last_index c l) v))
        × Seg (set nodes (last_index c l) v) previous (c ∷ l) value
  unfolding write_next
  write_next-last nodes previous c [] next value d (h, _) = (
    some (entry_of c previous value),
    rw h refl,
    (node_at-set_self nodes c.index _ (node_at-lt nodes c.index _ h), tt),
  )
  write_next-last nodes previous c (e ∷ l) next value (n, d) (h, hs) =
      let (v, w, k) = write_next-last nodes (some c.index) e l next value d hs in
      (
        v,
        w,
        (
          node_at-set_ne nodes (last_index e l) c.index v (λ q. NotIn-last c.index e l n (sym q))
              ∙ h,
          k,
        ),
      )

  -- `node_mut(first).previous = value` at the first cell of a segment.
  pub write_previous-first :
      (nodes : List (Option (CacheEntry K R))) (previous : Option ℕ) (c : Cell K R)
      (l : List (Cell K R)) (next value : Option ℕ)
      → AreDistinct (c ∷ l)
      → Seg nodes previous (c ∷ l) next
      → (v : Option (CacheEntry K R)) × (write_previous nodes c.index value
          ≡ some (set nodes c.index v))
        × Seg (set nodes c.index v) value (c ∷ l) next
  unfolding write_previous
  write_previous-first nodes previous c l next value (n, d) (h, hs) = (
    some (entry_of c value (head_or l next)),
    rw h refl,
    (
      node_at-set_self nodes c.index _ (node_at-lt nodes c.index _ h),
      Seg-set nodes (some c.index) l next c.index _ n hs,
    ),
  )

  pub NotIn-append : (i : ℕ) (a b : List (Cell K R)) → NotIn i a → NotIn i b → NotIn i (a ++ b)
  NotIn-append i [] b h k = k
  NotIn-append i (c ∷ a) b h k = (h.0, NotIn-append i a b h.1 k)

  pub NotIn-split : (i : ℕ) (a b : List (Cell K R)) → NotIn i (a ++ b) → NotIn i a × NotIn i b
  NotIn-split i [] b h = (tt, h)
  NotIn-split i (c ∷ a) b h = let (k, k') = NotIn-split i a b h.1 in ((h.0, k), k')

  -- No index stands in both lists.
  abbrev pub AreApart : List (Cell K R) → List (Cell K R) → Type 0
  AreApart [] b = Unit
  AreApart (c ∷ a) b = NotIn c.index b × AreApart a b

  pub AreDistinct-split :
      (a b : List (Cell K R)) → AreDistinct (a ++ b) → AreDistinct a × AreDistinct b × AreApart a b
  AreDistinct-split [] b h = (tt, h, tt)
  AreDistinct-split (c ∷ a) b (n, h) =
      let (da, db, ap') = AreDistinct-split a b h in
      let (na, nb) = NotIn-split c.index a b n in ((na, da), db, (nb, ap'))

  pub AreDistinct-append :
      (a b : List (Cell K R)) → AreDistinct a → AreDistinct b → AreApart a b → AreDistinct (a ++ b)
  AreDistinct-append [] b h k ap' = k
  AreDistinct-append (c ∷ a) b (n, h) k (m, ap') =
      (NotIn-append c.index a b n m, AreDistinct-append a b h k ap')

  pub NotIn-ne : (i : ℕ) (c : Cell K R) → c.index ≢ i → NotIn i (c ∷ [])
  NotIn-ne i c h = (h, tt)

  -- The index of the last cell of `a` is not in what is apart from `a`.
  pub last_index-NotIn :
      (c : Cell K R) (a b : List (Cell K R)) → AreApart (c ∷ a) b → NotIn (last_index c a) b
  last_index-NotIn c [] b h = h.0
  last_index-NotIn c (d ∷ a) b h = last_index-NotIn d a b h.1

  pub AreApart-cons :
      (a : List (Cell K R)) (c : Cell K R) (b : List (Cell K R))
      → AreApart a (c ∷ b)
      → NotIn c.index a × AreApart a b
  AreApart-cons [] c b h = (tt, tt)
  AreApart-cons (d ∷ a) c b (n, h) =
      let (m, k) = AreApart-cons a c b h in (((λ e. n.0 (sym e)), m), (n.1, k))

  pub head_or-append :
      (a b : List (Cell K R)) (next : Option ℕ) → head_or (a ++ b) next ≡ head_or a (head_or b next)
  head_or-append [] b next = refl
  head_or-append (c ∷ a) b next = refl

  pub last_or-append :
      (previous : Option ℕ) (a b : List (Cell K R))
      → last_or previous (a ++ b) ≡ last_or (last_or previous a) b
  last_or-append previous [] b = refl
  last_or-append previous (c ∷ a) b = last_or-append (some c.index) a b
