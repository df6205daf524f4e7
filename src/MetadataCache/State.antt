-- ===== src/MetadataCache/State.antt =====
-- `CacheState` and `CacheEntry` of src/metadata_cache.rs: entries in a slab of nodes, linked by
-- index from the least to the most recently used. The keys and responses are any types. A `Vec`
-- used as a stack has its top at the head of the list. `none` as a result is a panic, which
-- `node` and `node_mut` raise at an index with no live node.
use osv_proxy.Common.{
  ℕ, zero, suc, ◌-◌, ◌==◌, ltb, Bool, true, false, Option, none, some, List, [], ◌∷◌, ◌++◌,
  if◌then◌else◌, length,
}
use osv_proxy.Common.Equality.{
  Eq, ◌>>=◌, map_get, map_remove, map_insert, get_elem?, set, saturating_add,
}

pub record CacheEntry (K R : Type 0) : Type 0 where
  pub key : K
  pub response : R
  pub expires_at : ℕ
  pub weight : ℕ
  pub previous : Option ℕ
  pub next : Option ℕ

pub record CacheState (K R I : Type 0) : Type 0 where
  pub entries : List (K × ℕ)
  pub nodes : List (Option (CacheEntry K R))
  pub free_nodes : List ℕ
  pub lru_head : Option ℕ
  pub lru_tail : Option ℕ
  pub inflight : List (K × I)
  pub total_weight : ℕ

-- `CacheState::default()`.
abbrev pub empty_state : {K R I : Type 0} → CacheState K R I
empty_state = record {
  entries = [];
  nodes = [];
  free_nodes = [];
  lru_head = none;
  lru_tail = none;
  inflight = [];
  total_weight = 0;
}

-- `vector[index] = value`, with its panic out of bounds.
unfoldable pub write_at : {A : Type 0} → List A → ℕ → A → Option (List A)
write_at xs index value = if ltb index (length xs) then some (set xs index value) else none

module _ {K R : Type 0} where
  abbrev pub flatten_node : Option (Option (CacheEntry K R)) → Option (CacheEntry K R)
  flatten_node none = none
  flatten_node (some slot) = slot

  -- `self.nodes[index].as_ref()`: the live node, `none` also out of bounds.
  unfoldable pub node_at : List (Option (CacheEntry K R)) → ℕ → Option (CacheEntry K R)
  node_at nodes index = flatten_node (get_elem? nodes index)

  -- `self.node_mut(index).next = value`, and the same of `previous`.
  unfoldable pub write_next :
      List (Option (CacheEntry K R)) → ℕ → Option ℕ → Option (List (Option (CacheEntry K R)))
  write_next nodes index value = do
    entry ← node_at nodes index
    some (set nodes index (some (record entry { next = value })))

  unfoldable pub write_previous :
      List (Option (CacheEntry K R)) → ℕ → Option ℕ → Option (List (Option (CacheEntry K R)))
  write_previous nodes index value = do
    entry ← node_at nodes index
    some (set nodes index (some (record entry { previous = value })))

abbrev pub is_index : Option ℕ → ℕ → Bool
is_index none index = false
is_index (some i) index = i == index

module _ {K R I : Type 0} where
  -- `if let Some(previous) … { node_mut(previous).next = value } else { lru_head = value }`.
  unfoldable pub link_next : Option ℕ → Option ℕ → CacheState K R I → Option (CacheState K R I)
  link_next none value s = some (record s { lru_head = value })
  link_next (some index) value s = do
    nodes ← write_next s.nodes index value
    some (record s { nodes = nodes })

  -- `if let Some(next) … { node_mut(next).previous = value } else { lru_tail = value }`.
  unfoldable pub link_previous : Option ℕ → Option ℕ → CacheState K R I → Option (CacheState K R I)
  link_previous none value s = some (record s { lru_tail = value })
  link_previous (some index) value s = do
    nodes ← write_previous s.nodes index value
    some (record s { nodes = nodes })

  -- The same, with nothing to do where there is no next node (`touch`).
  unfoldable pub relink_previous :
      Option ℕ → Option ℕ → CacheState K R I → Option (CacheState K R I)
  relink_previous none value s = some s
  relink_previous (some index) value s = do
    nodes ← write_previous s.nodes index value
    some (record s { nodes = nodes })

  module _ (eq : Eq K) where
    -- `remove_index`, once `nodes[index]` holds the entry.
    unfoldable pub unlink : ℕ → CacheEntry K R → CacheState K R I → Option (CacheState K R I)
    unfolding link_next link_previous
    unlink index entry s = do
      s₁ ←
          link_next entry.previous entry.next (record s {
            nodes = set s.nodes index none;
            entries = map_remove eq entry.key s.entries;
          })
      s₂ ← link_previous entry.next entry.previous s₁
      some (record s₂ {
        total_weight = s₂.total_weight - entry.weight;
        free_nodes = index ∷ s₂.free_nodes;
      })

    unfoldable pub remove_index : ℕ → CacheState K R I → Option (CacheState K R I)
    unfolding unlink node_at
    remove_index index s = elim (node_at s.nodes index) [
      | none ↦ some s
      | some entry ↦ unlink index entry s
    ]

    unfoldable pub remove : K → CacheState K R I → Option (CacheState K R I)
    unfolding remove_index
    remove key s = elim (map_get eq key s.entries) [
      | none ↦ some s
      | some index ↦ remove_index index s
    ]

    -- The `while` of `insert`: `none` too where the fuel runs out.
    unfoldable pub evict : ℕ → ℕ → ℕ → CacheState K R I → Option (CacheState K R I)
    unfolding remove_index
    evict zero weight capacity s = none
    evict (suc fuel) weight capacity s =
        elim (ltb capacity (saturating_add s.total_weight weight)) [
          | false ↦ some s
          | true ↦ elim s.lru_head [
            | none ↦ some s
            | some oldest ↦ elim (remove_index oldest s) [
              | none ↦ none
              | some s' ↦ evict fuel weight capacity s'
            ]
          ]
        ]

    -- A slot for a new node: one that is free, or a new one at the end of `nodes`.
    unfoldable pub allocate : CacheState K R I → ℕ × CacheState K R I
    allocate s = elim s.free_nodes [
      | index ∷ free ↦ (index, record s { free_nodes = free })
      | [] ↦ (length s.nodes, record s { nodes = s.nodes ++ (none ∷ []) })
    ]

    -- The rest of `insert`, from `let previous = self.lru_tail` on.
    unfoldable pub append_node : ℕ → K → R → ℕ → ℕ → CacheState K R I → Option (CacheState K R I)
    unfolding link_next write_at
    append_node index key response expires_at weight s = do
      nodes ← write_at s.nodes index (
          some (record {
            key = key;
            response = response;
            expires_at = expires_at;
            weight = weight;
            previous = s.lru_tail;
            next = none;
          }))
      s₁ ← link_next s.lru_tail (some index) (record s { nodes = nodes })
      some (record s₁ {
        lru_tail = some index;
        total_weight = saturating_add s₁.total_weight weight;
        entries = map_insert eq key index s₁.entries;
      })

    unfoldable pub insert : K → R → ℕ → ℕ → ℕ → CacheState K R I → Option (CacheState K R I)
    unfolding remove evict allocate append_node
    insert key response expires_at weight capacity s = do
      s₁ ← remove key s
      s₂ ← evict (suc (length s₁.nodes)) weight capacity s₁
      append_node (allocate s₂).0 key response expires_at weight (allocate s₂).1

  -- `touch`, past its early return.
  unfoldable pub move_to_tail : ℕ → CacheState K R I → Option (CacheState K R I)
  unfolding link_next relink_previous node_at
  move_to_tail index s = do
    entry ← node_at s.nodes index
    s₁ ← link_next entry.previous entry.next s
    s₂ ← relink_previous entry.next entry.previous s₁
    e₂ ← node_at s₂.nodes index
    s₃ ← link_next s₂.lru_tail (some index) (record s₂ {
      nodes = set s₂.nodes index (some (record e₂ { previous = s₂.lru_tail; next = none }));
    })
    some (record s₃ { lru_tail = some index })

  unfoldable pub touch : ℕ → CacheState K R I → Option (CacheState K R I)
  unfolding move_to_tail
  touch index s = if is_index s.lru_tail index then some s else move_to_tail index s
