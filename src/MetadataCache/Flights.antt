-- ===== src/MetadataCache/Flights.antt =====
-- The requests that src/metadata_cache.rs has under way: a `FillLeader` is a key and a flight, and
-- `leaders` are the ones alive. The steps are those of any number of requests, in any order.
use osv_proxy.Common.{
  ℕ, suc, ◌<◌, ◌≡◌, ◌≢◌, refl, sym, none, some, List, [], ◌∷◌, ◌++◌, arith, inl, inr, Bool-cases,
  In,
}
use osv_proxy.Common.Equality.{beq_refl, map_get, map_remove}
use osv_proxy.MetadataCache.Response.{MetadataCacheKey, key_equality, key_eq, key_eq_iff}
use osv_proxy.MetadataCache.Store.{InflightState, pending, set_flight}

abbrev pub Leaders : Type 0
Leaders = List (MetadataCacheKey × ℕ)

abbrev pub LeadsNone : MetadataCacheKey → Leaders → Type 0
LeadsNone key [] = Unit
LeadsNone key ((k, f) ∷ m) = (k ≢ key) × LeadsNone key m

abbrev pub HasNoFlight : ℕ → Leaders → Type 0
HasNoFlight flight [] = Unit
HasNoFlight flight ((k, f) ∷ m) = (f ≢ flight) × HasNoFlight flight m

-- Every leader has a flight of its own, which is pending, and a key of its own.
abbrev pub ArePending : (ℕ → InflightState) → ℕ → Leaders → Type 0
ArePending flights next [] = Unit
ArePending flights next ((k, f) ∷ m) =
    (flights f ≡ pending) × (f < next) × LeadsNone k m × HasNoFlight f m × ArePending flights next m

module _ (key : MetadataCacheKey) where
  pub map_get-LeadsNone : (m : Leaders) → LeadsNone key m → map_get key_equality key m ≡ none
  unfolding map_get
  map_get-LeadsNone [] h = refl
  map_get-LeadsNone ((k, f) ∷ m) h = ground (arith, key_eq_iff key k, map_get-LeadsNone m h.1)

  pub LeadsNone-of_get : (m : Leaders) → map_get key_equality key m ≡ none → LeadsNone key m
  unfolding map_get
  LeadsNone-of_get [] h = tt
  LeadsNone-of_get ((k, f) ∷ m) h = elim (Bool-cases (key_eq key k)) [
    | inl e ↦ absurd (ground (arith, e))
    | inr e ↦ ((λ q. ground (arith, key_eq_iff key k, q)), LeadsNone-of_get m (ground (arith, e)))
  ]

  pub map_remove-LeadsNone : (m : Leaders) → LeadsNone key m → map_remove key_equality key m ≡ m
  unfolding map_remove
  map_remove-LeadsNone [] h = refl
  map_remove-LeadsNone ((k, f) ∷ m) h = ground (arith, key_eq_iff key k, map_remove-LeadsNone m h.1)

  pub In-of_get : (m : Leaders) (f : ℕ) → map_get key_equality key m ≡ some f → In (key, f) m
  unfolding map_get
  In-of_get [] f h = absurd (ground arith)
  In-of_get ((k, g) ∷ m) f h = elim (Bool-cases (key_eq key k)) [
    | inl e ↦ inl (ground (arith, key_eq_iff key k, e))
    | inr e ↦ inr (In-of_get m f (ground (arith, e)))
  ]

-- A new flight, and a flight that none of the leaders has, leave the leaders pending.
pub new-ArePending :
    (flights : ℕ → InflightState) (next : ℕ) (m : Leaders)
    → ArePending flights next m
    → ArePending (set_flight next pending flights) (suc next) m × HasNoFlight next m
new-ArePending flights next [] h = (tt, tt)
new-ArePending flights next ((k, f) ∷ m) (p, lt, n, d, h) =
    let (h', n') = new-ArePending flights next m h in
    ((ground arith, omega arith, n, d, h'), (omega arith, n'))

pub other-ArePending :
    (flights : ℕ → InflightState) (next flight : ℕ) (v : InflightState) (m : Leaders)
    → HasNoFlight flight m
    → ArePending flights next m
    → ArePending (set_flight flight v flights) next m
other-ArePending flights next flight v [] n h = tt
other-ArePending flights next flight v ((k, f) ∷ m) (ne, n) (p, lt, o, d, h) =
    (ground arith, lt, o, d, other-ArePending flights next flight v m n h)

LeadsNone-without :
    (key j : MetadataCacheKey) (f : ℕ) (a b : Leaders)
    → LeadsNone key (a ++ (j, f) ∷ b)
    → LeadsNone key (a ++ b) × (j ≢ key)
LeadsNone-without key j f [] b h = (h.1, h.0)
LeadsNone-without key j f (c ∷ a) b h =
    let (p, q) = LeadsNone-without key j f a b h.1 in ((h.0, p), q)

HasNoFlight-without :
    (flight : ℕ) (j : MetadataCacheKey) (f : ℕ) (a b : Leaders)
    → HasNoFlight flight (a ++ (j, f) ∷ b)
    → HasNoFlight flight (a ++ b) × (f ≢ flight)
HasNoFlight-without flight j f [] b h = (h.1, h.0)
HasNoFlight-without flight j f (c ∷ a) b h =
    let (p, q) = HasNoFlight-without flight j f a b h.1 in ((h.0, p), q)

-- What one leader among the others has: its key finds its flight and takes it off.
pub record Leads (flights : ℕ → InflightState) (next : ℕ) (key : MetadataCacheKey) (f : ℕ)
    (a b : Leaders) : Type 0 where
  pub gets : map_get key_equality key (a ++ (key, f) ∷ b) ≡ some f
  pub removes : map_remove key_equality key (a ++ (key, f) ∷ b) ≡ a ++ b
  pub others : ArePending flights next (a ++ b)
  pub alone : HasNoFlight f (a ++ b)

pub ArePending-Leads :
    (flights : ℕ → InflightState) (next : ℕ) (key : MetadataCacheKey) (f : ℕ) (a b : Leaders)
    → ArePending flights next (a ++ (key, f) ∷ b)
    → Leads flights next key f a b
unfolding map_get map_remove
ArePending-Leads flights next key f [] b (p, lt, n, d, h) = record {
  gets = ground (arith, beq_refl key_equality key);
  removes = ground (arith, beq_refl key_equality key, map_remove-LeadsNone key b n);
  others = h;
  alone = d;
}
ArePending-Leads flights next key f ((k, g) ∷ a) b (p, lt, n, d, h) =
    let r = ArePending-Leads flights next key f a b h in
    let (n', ne) = LeadsNone-without k key f a b n in
    let (d', nf) = HasNoFlight-without g key f a b d in
    record {
      gets = ground (arith, key_eq_iff key k, r.gets);
      removes = ground (arith, key_eq_iff key k, r.removes);
      others = (p, lt, n', d', r.others);
      alone = ((λ e. nf (sym e)), r.alone);
    }
