-- ===== src/MetadataCache/Invariant.antt =====
-- When a `CacheState` of src/metadata_cache.rs holds a list of cells, from the least to the most
-- recently used.
use osv_proxy.Common.{
  ℕ, ◌+◌, ◌≤◌, ◌≡◌, ◌≢◌, refl, sym, ◌∙◌, ap, true, false, Option, none, some, List, [], ◌∷◌, ◌++◌,
  arith, length, inl, inr, if◌then◌else◌, Bool-cases,
}
use osv_proxy.Common.Equality.{Eq, map_get, get_elem?, usize_max}
use osv_proxy.MetadataCache.State.{CacheEntry, CacheState, node_at}
use osv_proxy.MetadataCache.Segments.{Cell, Seg, NotIn, AreDistinct, head_or, last_or}

module _ {K R : Type 0} where
  abbrev pub total : List (Cell K R) → ℕ
  total [] = 0
  total (c ∷ l) = c.weight + total l

  pub total-append : (a b : List (Cell K R)) → total (a ++ b) ≡ total a + total b
  total-append [] b = omega arith
  total-append (c ∷ a) b = omega (arith, total-append a b)

  abbrev pub NotKey : K → List (Cell K R) → Type 0
  NotKey k [] = Unit
  NotKey k (c ∷ l) = (c.key ≢ k) × NotKey k l

  abbrev pub HasDistinctKeys : List (Cell K R) → Type 0
  HasDistinctKeys [] = Unit
  HasDistinctKeys (c ∷ l) = NotKey c.key l × HasDistinctKeys l

  pub NotKey-split : (k : K) (a b : List (Cell K R)) → NotKey k (a ++ b) → NotKey k a × NotKey k b
  NotKey-split k [] b h = (tt, h)
  NotKey-split k (c ∷ a) b h = let (p, q) = NotKey-split k a b h.1 in ((h.0, p), q)

  pub NotKey-append : (k : K) (a b : List (Cell K R)) → NotKey k a → NotKey k b → NotKey k (a ++ b)
  NotKey-append k [] b h g = g
  NotKey-append k (c ∷ a) b h g = (h.0, NotKey-append k a b h.1 g)

  -- Without one of its cells, a list with distinct keys has no cell of that key.
  pub HasDistinctKeys-remove :
      (a : List (Cell K R)) (c : Cell K R) (b : List (Cell K R))
      → HasDistinctKeys (a ++ c ∷ b)
      → HasDistinctKeys (a ++ b) × NotKey c.key (a ++ b)
  HasDistinctKeys-remove [] c b h = (h.1, h.0)
  HasDistinctKeys-remove (d ∷ a) c b (n, h) =
      let (k, m) = HasDistinctKeys-remove a c b h in
      let (na, nb) = NotKey-split d.key a (c ∷ b) n in
      ((NotKey-append d.key a b na nb.1, k), ((λ e. nb.0 (sym e)), m))

  pub HasDistinctKeys-snoc :
      (l : List (Cell K R)) (c : Cell K R)
      → HasDistinctKeys l
      → NotKey c.key l
      → HasDistinctKeys (l ++ c ∷ [])
  HasDistinctKeys-snoc [] c h n = (tt, tt)
  HasDistinctKeys-snoc (d ∷ l) c (m, h) (n, ns) =
      (NotKey-append d.key l (c ∷ []) m ((λ e. n (sym e)), tt), HasDistinctKeys-snoc l c h ns)

  -- A slot with no node is no cell of a segment.
  pub NotIn_of_free :
      (nodes : List (Option (CacheEntry K R))) (previous : Option ℕ) (l : List (Cell K R))
      (next : Option ℕ) (j : ℕ)
      → node_at nodes j ≡ none
      → Seg nodes previous l next
      → NotIn j l
  NotIn_of_free nodes previous [] next j e h = tt
  NotIn_of_free nodes previous (c ∷ l) next j e (h, hs) =
      ((λ q. cc (rw q at h, e)), NotIn_of_free nodes (some c.index) l next j e hs)

-- No number stands in the list, or stands in it twice.
abbrev pub AbsentFrom : ℕ → List ℕ → Type 0
AbsentFrom i [] = Unit
AbsentFrom i (j ∷ l) = (j ≢ i) × AbsentFrom i l

abbrev pub HasNoRepeats : List ℕ → Type 0
HasNoRepeats [] = Unit
HasNoRepeats (i ∷ l) = AbsentFrom i l × HasNoRepeats l

-- Slots in range that hold no node.
abbrev pub AreFree : {K R : Type 0} → List (Option (CacheEntry K R)) → List ℕ → Type 0
AreFree nodes [] = Unit
AreFree nodes (i ∷ l) = (get_elem? nodes i ≡ some none) × AreFree nodes l

module _ {K R : Type 0} (eq : Eq K) where
  abbrev pub index_of : K → List (Cell K R) → Option ℕ
  index_of k [] = none
  index_of k (c ∷ l) = if eq.beq k c.key then some c.index else index_of k l

  pub index_of-NotKey : (k : K) (l : List (Cell K R)) → NotKey k l → index_of k l ≡ none
  index_of-NotKey k [] h = refl
  index_of-NotKey k (c ∷ l) (n, h) =
      ground (arith, index_of-NotKey k l h, eq.beq_iff k c.key, λ (e : k ≡ c.key). n (sym e))

  index_of-other :
      (k : K) (a : List (Cell K R)) (c : Cell K R) (b : List (Cell K R))
      → eq.beq k c.key ≡ false
      → index_of k (a ++ c ∷ b) ≡ index_of k (a ++ b)
  index_of-other k [] c b e = rw e refl
  index_of-other k (d ∷ a) c b e = rw (index_of-other k a c b e) refl

  pub index_of-remove :
      (k : K) (a : List (Cell K R)) (c : Cell K R) (b : List (Cell K R))
      → HasDistinctKeys (a ++ c ∷ b)
      → (if eq.beq k c.key then none else index_of k (a ++ c ∷ b)) ≡ index_of k (a ++ b)
  index_of-remove k a c b h = elim (Bool-cases (eq.beq k c.key)) [
    | inl e ↦
        let same : k ≡ c.key = (eq.beq_iff k c.key).0 e in
        rw e (sym (index_of-NotKey k (a ++ b) (rw same (HasDistinctKeys-remove a c b h).1)))
    | inr e ↦ rw e (index_of-other k a c b e)
  ]

  pub NotKey-of_index : (k : K) (l : List (Cell K R)) → index_of k l ≡ none → NotKey k l
  NotKey-of_index k [] h = tt
  NotKey-of_index k (c ∷ l) h = elim (Bool-cases (eq.beq k c.key)) [
    | inl e ↦ absurd (ground arith)
    | inr e ↦ ((λ q. ground (arith, eq.beq_iff k c.key, sym q)), NotKey-of_index k l (ground arith))
  ]

  -- A cell that is found, with what stands before and behind it.
  pub split_at :
      (k : K) (l : List (Cell K R)) (i : ℕ)
      → index_of k l ≡ some i
      → (a : List (Cell K R)) × (c : Cell K R) × (b : List (Cell K R)) × (l ≡ a ++ c ∷ b)
        × (c.index ≡ i)
        × (c.key ≡ k)
  split_at k [] i h = absurd (ground arith)
  split_at k (c ∷ l) i h = elim (Bool-cases (eq.beq k c.key)) [
    | inl e ↦ ([], c, l, refl, ground arith, sym ((eq.beq_iff k c.key).0 e))
    | inr e ↦
        let (a, d, b, q, j, m) = split_at k l i (ground arith) in (c ∷ a, d, b, ap (◌∷◌ c) q, j, m)
  ]

  -- The cells but those with the key.
  abbrev pub without : K → List (Cell K R) → List (Cell K R)
  without k [] = []
  without k (c ∷ l) = if eq.beq k c.key then without k l else c ∷ without k l

  pub without_lem : (k : K) (l : List (Cell K R)) → NotKey k (without k l)
  without_lem k [] = tt
  without_lem k (c ∷ l) = elim (Bool-cases (eq.beq k c.key)) [
    | inl e ↦ rw e (without_lem k l)
    | inr e ↦ rw e ((λ q. ground (arith, eq.beq_iff k c.key, sym q)), without_lem k l)
  ]

  pub without-NotKey : (k : K) (l : List (Cell K R)) → NotKey k l → without k l ≡ l
  without-NotKey k [] h = refl
  without-NotKey k (c ∷ l) (n, h) =
      ground (arith, without-NotKey k l h, eq.beq_iff k c.key, λ (e : k ≡ c.key). n (sym e))

  pub without-split :
      (k : K) (a : List (Cell K R)) (c : Cell K R) (b : List (Cell K R))
      → HasDistinctKeys (a ++ c ∷ b)
      → c.key ≡ k
      → without k (a ++ c ∷ b) ≡ a ++ b
  without-split k [] c b (n, h) e =
      let hit : eq.beq k c.key ≡ true = (eq.beq_iff k c.key).1 (sym e) in
      rw hit (without-NotKey k b (rw e at n))
  without-split k (d ∷ a) c b (n, h) e =
      let (na, nb) = NotKey-split d.key a (c ∷ b) n in
      ground (arith, without-split k a c b h e, eq.beq_iff k d.key, λ (q : k ≡ d.key). nb.0 (e ∙ q))

  pub index_of-found :
      (k : K) (a : List (Cell K R)) (c : Cell K R) (b : List (Cell K R))
      → HasDistinctKeys (a ++ c ∷ b)
      → eq.beq k c.key ≡ true
      → index_of k (a ++ c ∷ b) ≡ some c.index
  index_of-found k [] c b h e = rw e refl
  index_of-found k (d ∷ a) c b (n, h) e =
      let (na, nb) = NotKey-split d.key a (c ∷ b) n in
      ground (
        arith,
        index_of-found k a c b h e,
        eq.beq_iff k c.key,
        eq.beq_iff k d.key,
        λ (q : c.key ≡ d.key). nb.0 q,
      )

  pub index_of-snoc :
      (k : K) (l : List (Cell K R)) (c : Cell K R)
      → NotKey c.key l
      → index_of k (l ++ c ∷ []) ≡ (if eq.beq k c.key then some c.index else index_of k l)
  index_of-snoc k [] c n = refl
  index_of-snoc k (d ∷ l) c (n, ns) = ground (
    arith,
    index_of-snoc k l c ns,
    eq.beq_iff k c.key,
    eq.beq_iff k d.key,
    λ (e : d.key ≡ c.key). n e,
  )

  -- The order of the cells does not matter to a search by key.
  pub index_of-move :
      (k : K) (a : List (Cell K R)) (c : Cell K R) (b : List (Cell K R))
      → HasDistinctKeys (a ++ c ∷ b)
      → index_of k (a ++ c ∷ b) ≡ index_of k ((a ++ b) ++ c ∷ [])
  index_of-move k a c b h = elim (Bool-cases (eq.beq k c.key)) [
    | inl e ↦
        index_of-found k a c b h e
        ∙ sym (index_of-snoc k (a ++ b) c (HasDistinctKeys-remove a c b h).1 ∙ rw e refl)
    | inr e ↦
        index_of-other k a c b e
        ∙ sym (index_of-snoc k (a ++ b) c (HasDistinctKeys-remove a c b h).1 ∙ rw e refl)
  ]

module _ {K R I : Type 0} (eq : Eq K) where
  pub record IsCache (s : CacheState K R I) (l : List (Cell K R)) : Type 0 where
    pub segments : Seg s.nodes none l none
    pub head : s.lru_head ≡ head_or l none
    pub tail : s.lru_tail ≡ last_or none l
    pub distinct : AreDistinct l
    pub keys : HasDistinctKeys l
    pub lookup : (k : K) → map_get eq k s.entries ≡ index_of eq k l
    pub weights : s.total_weight ≡ total l
    pub weights_fit : total l ≤ usize_max
    pub free : AreFree s.nodes s.free_nodes
    pub free_once : HasNoRepeats s.free_nodes
    pub no_leak : length l + length s.free_nodes ≡ length s.nodes
