-- ===== src/MetadataCache/Links.antt =====
-- What `link_next`, `link_previous` and `relink_previous` of the cache state do at the ends of a
-- segment.
use osv_proxy.Common.{
  ℕ, ◌<◌, ◌≡◌, refl, sym, ap, ◌∙◌, Option, none, some, List, [], ◌∷◌, ◌++◌, length,
}
use osv_proxy.Common.Equality.{get_elem?, set, length-set, get_elem?-set_ne, get_elem?-set_self}
use osv_proxy.MetadataCache.State.{
  CacheEntry, CacheState, node_at, flatten_node, link_next, link_previous, relink_previous,
}
use osv_proxy.MetadataCache.Segments.{
  Cell, Seg, NotIn, AreDistinct, AreApart, entry_of, head_or, last_or, last_index, last_or-cons,
  NotIn-last, write_next-last, write_previous-first, Seg-set, Seg-append, head_or-append,
  last_or-append,
}

module _ {K R : Type 0} where
  -- The nodes outside of `a` are the same.
  abbrev pub SameOutside :
      List (Cell K R) → List (Option (CacheEntry K R)) → List (Option (CacheEntry K R)) → Type 0
  SameOutside a nodes nodes' = (i : ℕ) → NotIn i a → get_elem? nodes' i ≡ get_elem? nodes i

  pub Seg-frame :
      (a : List (Cell K R)) (nodes nodes' : List (Option (CacheEntry K R))) (previous : Option ℕ)
      (b : List (Cell K R)) (next : Option ℕ)
      → SameOutside a nodes nodes'
      → AreApart b a
      → Seg nodes previous b next
      → Seg nodes' previous b next
  unfolding node_at
  Seg-frame a nodes nodes' previous [] next same ap' h = tt
  Seg-frame a nodes nodes' previous (c ∷ b) next same (n, ap') (h, hs) =
      (rw (same c.index n) h, Seg-frame a nodes nodes' (some c.index) b next same ap' hs)

  pub AreApart-nil : (a : List (Cell K R)) → AreApart a []
  AreApart-nil [] = tt
  AreApart-nil (c ∷ a) = (tt, AreApart-nil a)

  pub AreApart-add :
      (b : List (Cell K R)) (c : Cell K R) (a : List (Cell K R))
      → NotIn c.index b
      → AreApart b a
      → AreApart b (c ∷ a)
  AreApart-add [] c a n h = tt
  AreApart-add (d ∷ b) c a (n, ns) (m, h) = (((λ e. n (sym e)), m), AreApart-add b c a ns h)

  pub AreApart-sym : (a b : List (Cell K R)) → AreApart a b → AreApart b a
  AreApart-sym [] b h = AreApart-nil b
  AreApart-sym (c ∷ a) b (n, h) = AreApart-add b c a n (AreApart-sym a b h)

module _ {K R I : Type 0} where
  -- The fields that the links do not touch.
  pub record SameRest (s s' : CacheState K R I) : Type 0 where
    pub entries : s'.entries ≡ s.entries
    pub free_nodes : s'.free_nodes ≡ s.free_nodes
    pub inflight : s'.inflight ≡ s.inflight
    pub total_weight : s'.total_weight ≡ s.total_weight
    pub size : length s'.nodes ≡ length s.nodes

  pub record NextLinked (a : List (Cell K R)) (value : Option ℕ) (s s' : CacheState K R I)
      : Type 0 where
    pub segment : Seg s'.nodes none a value
    pub head : s'.lru_head ≡ head_or a value
    pub tail : s'.lru_tail ≡ s.lru_tail
    pub outside : SameOutside a s.nodes s'.nodes
    pub rest : SameRest s s'

  -- To link a segment that begins the list to `value`: its last node, or the list's head.
  pub link_next-last :
      (a : List (Cell K R)) (next value other : Option ℕ) (s : CacheState K R I)
      → AreDistinct a
      → Seg s.nodes none a next
      → s.lru_head ≡ head_or a other
      → (s' : CacheState K R I) × (link_next (last_or none a) value s ≡ some s')
        × NextLinked a value s s'
  unfolding link_next
  link_next-last [] next value other s d h e = (
    record s { lru_head = value },
    refl,
    record {
      segment = tt;
      head = refl;
      tail = refl;
      outside = λ i n. refl;
      rest = record {
        entries = refl;
        free_nodes = refl;
        inflight = refl;
        total_weight = refl;
        size = refl;
      };
    },
  )
  link_next-last (c ∷ a) next value other s d h e =
      let (v, w, k) = write_next-last s.nodes none c a next value d h in
      (
        record s { nodes = set s.nodes (last_index c a) v },
        rw (last_or-cons none c a) (rw w refl),
        record {
          segment = k;
          head = e;
          tail = refl;
          outside = λ i n. get_elem?-set_ne s.nodes (last_index c a) i v (NotIn-last i c a n);
          rest = record {
            entries = refl;
            free_nodes = refl;
            inflight = refl;
            total_weight = refl;
            size = length-set s.nodes (last_index c a) v;
          };
        },
      )

  pub record PreviousLinked (previous : Option ℕ) (b : List (Cell K R)) (value : Option ℕ)
      (s s' : CacheState K R I) : Type 0 where
    pub segment : Seg s'.nodes value b none
    pub head : s'.lru_head ≡ s.lru_head
    pub tail : s'.lru_tail ≡ last_or value b
    pub outside : SameOutside b s.nodes s'.nodes
    pub rest : SameRest s s'

  -- To link a segment that ends the list back to `value`: its first node, or the list's tail.
  pub link_previous-first :
      (previous : Option ℕ) (b : List (Cell K R)) (value : Option ℕ) (s : CacheState K R I)
      → AreDistinct b
      → Seg s.nodes previous b none
      → s.lru_tail ≡ last_or previous b
      → (s' : CacheState K R I) × (link_previous (head_or b none) value s ≡ some s')
        × PreviousLinked previous b value s s'
  unfolding link_previous
  link_previous-first previous [] value s d h e = (
    record s { lru_tail = value },
    refl,
    record {
      segment = tt;
      head = refl;
      tail = refl;
      outside = λ i n. refl;
      rest = record {
        entries = refl;
        free_nodes = refl;
        inflight = refl;
        total_weight = refl;
        size = refl;
      };
    },
  )
  link_previous-first previous (c ∷ b) value s d h e =
      let (v, w, k) = write_previous-first s.nodes previous c b none value d h in
      (
        record s { nodes = set s.nodes c.index v },
        rw w refl,
        record {
          segment = k;
          head = refl;
          tail = e;
          outside = λ i n. get_elem?-set_ne s.nodes c.index i v n.0;
          rest = record {
            entries = refl;
            free_nodes = refl;
            inflight = refl;
            total_weight = refl;
            size = length-set s.nodes c.index v;
          };
        },
      )

  -- With a node behind, `relink_previous` is `link_previous`.
  pub relink_previous-first :
      (c : Cell K R) (b : List (Cell K R)) (value : Option ℕ) (s : CacheState K R I)
      → relink_previous (head_or (c ∷ b) none) value s
        ≡ link_previous (head_or (c ∷ b) none) value s
  unfolding relink_previous link_previous
  relink_previous-first c b value s = refl

  -- The node of `c`, written with the list's tail before it, and linked behind that tail.
  pub record Attached (l : List (Cell K R)) (c : Cell K R) (s s' : CacheState K R I) : Type 0 where
    pub segments : Seg s'.nodes none (l ++ c ∷ []) none
    pub head : s'.lru_head ≡ head_or (l ++ c ∷ []) none
    pub tail : last_or none (l ++ c ∷ []) ≡ some c.index
    pub outside : SameOutside (c ∷ l) s.nodes s'.nodes
    pub rest : SameRest s s'

  abbrev pub with_node : Cell K R → CacheState K R I → CacheState K R I
  with_node c s = record s { nodes = set s.nodes c.index (some (entry_of c s.lru_tail none)) }

  pub attach_tail :
      (l : List (Cell K R)) (c : Cell K R) (s : CacheState K R I)
      → Seg s.nodes none l none
      → s.lru_head ≡ head_or l none
      → s.lru_tail ≡ last_or none l
      → AreDistinct l
      → NotIn c.index l
      → c.index < length s.nodes
      → (s' : CacheState K R I) × (link_next s.lru_tail (some c.index) (with_node c s) ≡ some s')
        × Attached l c s s'
  unfolding node_at
  attach_tail l c s h head tail d n lt =
      let (s', e, k) =
        link_next-last l none (some c.index) none (with_node c s) d
          (Seg-set s.nodes none l none c.index _ n h) head in
      let here : get_elem? s'.nodes c.index ≡ some (some (entry_of c s.lru_tail none)) =
        k.outside c.index n ∙ get_elem?-set_self s.nodes c.index _ lt in
      (
        s',
        ap (λ t. link_next t (some c.index) (with_node c s)) tail ∙ e,
        record {
          segments =
              Seg-append s'.nodes none l (c ∷ []) none k.segment
                (ap flatten_node here ∙ ap (λ t. some (entry_of c t none)) tail, tt);
          head = k.head ∙ sym (head_or-append l (c ∷ []) none);
          tail = last_or-append none l (c ∷ []);
          outside = λ i m. k.outside i m.1 ∙ get_elem?-set_ne s.nodes c.index i _ m.0;
          rest = record {
            entries = k.rest.entries;
            free_nodes = k.rest.free_nodes;
            inflight = k.rest.inflight;
            total_weight = k.rest.total_weight;
            size = k.rest.size ∙ length-set s.nodes c.index _;
          };
        },
      )
