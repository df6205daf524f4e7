-- ===== src/Config/Entries.antt =====
-- Which numbers and entries of the lists `Config::validate` of src/config.rs accepts.
use osv_proxy.Common.{
  ℕ, contains, is_whitespace, ◌≤◌, ◌<◌, ◌≡◌, ◌≢◌, ◌↔◌, ◌⊎◌, refl, arith, inl, inr, Bool, true,
  false, List, [], ◌∷◌, all, Text, codes, text_eq, text_eq_iff, In, Bool-cases,
}
use osv_proxy.Config.{
  LimitsConfig, MetadataCacheConfig, LocalOsvConfig, AllowlistEntry, BlocklistEntry,
}
use osv_proxy.Config.Validate.{
  ConfigError, Validation, ok, err, ◌and_then◌, refuse_if, for_each, validate_limits,
  validate_metadata_cache, validate_local, validate_allowed, validate_blocked, refuse_no_version,
  refuse_range, looks_like_range, seconds, capacity_max, entry_max,
}

pub and_then-ok : (a b : Validation) → (a and_then b) ≡ ok → (a ≡ ok) × (b ≡ ok)
and_then-ok ok b h = (refl, h)
and_then-ok (err e) b h = absurd (ground arith)

pub refuse_if-ok : (b : Bool) (e : ConfigError) → refuse_if b e ≡ ok → b ≡ false
refuse_if-ok true e h = absurd (ground arith)
refuse_if-ok false e h = refl

pub for_each-ok :
    {A : Type 0} (check : A → Validation) (xs : List A)
    → for_each check xs ≡ ok
    → (x : A) → In x xs
    → check x ≡ ok
for_each-ok check [] h x i = elim i [ ]
for_each-ok check (y ∷ xs) h x (inl i) = rw i (and_then-ok (check y) (for_each check xs) h).0
for_each-ok check (y ∷ xs) h x (inr i) =
    for_each-ok check xs (and_then-ok (check y) (for_each check xs) h).1 x i

pub for_each-all :
    {A : Type 0} (check : A → Validation) (xs : List A)
    → ((x : A) → In x xs → check x ≡ ok)
    → for_each check xs ≡ ok
for_each-all check [] h = refl
for_each-all check (y ∷ xs) h = rw (h y (inl refl)) (for_each-all check xs (λ x i. h x (inr i)))

-- The bounds of the limits, and of the metadata cache.
pub record HasLimits (c : LimitsConfig) : Type 0 where
  pub ingress : 0 < c.ingress_requests
  pub egress : 0 < c.egress_requests
  pub background : 0 < c.background_sync_requests
  pub queue : 0 < c.queue_timeout

pub record HasCache (c : MetadataCacheConfig) : Type 0 where
  pub capacity : (0 < c.capacity_bytes) × (c.capacity_bytes ≤ capacity_max)
  pub entry : (0 < c.max_entry_bytes) × (c.max_entry_bytes ≤ entry_max)
  pub entry_fits : c.max_entry_bytes ≤ c.capacity_bytes
  pub ttl : (0 < c.ttl) × (c.ttl ≤ seconds 86400)
  pub fills : (0 < c.fill_concurrency) × (c.fill_concurrency ≤ 1024)

pub record HasLocal (c : LocalOsvConfig) : Type 0 where
  pub path : c.sqlite_path ≢ []
  pub staleness : 0 < c.max_staleness
  pub interval : (seconds 60 ≤ c.sync_interval) × (c.sync_interval ≤ seconds 604800)

pub validate_limits-ok_iff : (c : LimitsConfig) → (validate_limits c ≡ ok) ↔ HasLimits c
unfolding validate_limits
validate_limits-ok_iff c = (
  (λ h. record {
    ingress = ground arith;
    egress = ground arith;
    background = ground arith;
    queue = ground arith;
  }),
  (λ h. ground (arith, h.ingress, h.egress, h.background, h.queue)),
)

pub validate_metadata_cache-ok_iff :
    (c : MetadataCacheConfig) → (validate_metadata_cache c ≡ ok) ↔ HasCache c
unfolding validate_metadata_cache
validate_metadata_cache-ok_iff c = (
  (λ h. record {
    capacity = (ground arith, ground arith);
    entry = (ground arith, ground arith);
    entry_fits = ground arith;
    ttl = (ground arith, ground arith);
    fills = (ground arith, ground arith);
  }),
  (λ h. ground (arith, h.capacity, h.entry, h.entry_fits, h.ttl, h.fills)),
)

pub validate_local-ok_iff : (c : LocalOsvConfig) → (validate_local c ≡ ok) ↔ HasLocal c
unfolding validate_local
validate_local-ok_iff c = (
  (λ h. record {
    path = λ e. ground (arith, e);
    staleness = ground arith;
    interval = (ground arith, ground arith);
  }),
  (λ h. ground (arith, h.path, h.staleness, h.interval)),
)

-- An exact version, and a reason to pass the OSV check.
pub record IsExact (e : AllowlistEntry) : Type 0 where
  pub version : e.version ≢ codes "*"
  pub reason : e.bypass_osv ≡ true → all is_whitespace e.reason ≡ false

-- None of the characters that a range is written with.
abbrev pub IsExactVersion : Text → Type 0
IsExactVersion v = (c : ℕ) → In c (codes "<>=~^, ") → contains v c ≡ false

looks_like_range_iff : (v : Text) → (looks_like_range v ≡ false) ↔ IsExactVersion v
unfolding looks_like_range
looks_like_range_iff v = (
  (λ h c i. ground (arith, i)),
  (λ h. ground (
    arith,
    h b'<' (inl refl),
    h b'>' (inr (inl refl)),
    h b'=' (inr (inr (inl refl))),
    h b'~' (inr (inr (inr (inl refl)))),
    h b'^' (inr (inr (inr (inr (inl refl))))),
    h b',' (inr (inr (inr (inr (inr (inl refl)))))),
    h b' ' (inr (inr (inr (inr (inr (inr (inl refl))))))),
  )),
)

pub record NamesVersions (e : BlocklistEntry) : Type 0 where
  pub some_version : e.versions ≢ []
  pub no_range : (v : Text) → In v e.versions → (v ≡ codes "*") ⊎ IsExactVersion v

pub validate_allowed-ok_iff : (e : AllowlistEntry) → (validate_allowed e ≡ ok) ↔ IsExact e
unfolding validate_allowed
validate_allowed-ok_iff e = (
  (λ h. record {
    version = λ q. ground (arith, text_eq_iff e.version (codes "*"), q);
    reason = λ q. ground arith;
  }),
  (λ h. ground (arith, text_eq_iff e.version (codes "*"), h.version, h.reason)),
)

pub validate_blocked-ok_iff : (e : BlocklistEntry) → (validate_blocked e ≡ ok) ↔ NamesVersions e
unfolding validate_blocked
validate_blocked-ok_iff e = (
  (λ h.
      let (some_there, each) =
        and_then-ok (refuse_no_version e.versions) (for_each refuse_range e.versions) h in
      record {
        some_version = λ q. ground (arith, q, some_there);
        no_range = λ v i.
            let fine = for_each-ok refuse_range e.versions each v i in
            elim (Bool-cases (text_eq v (codes "*"))) [
              | inl s ↦ inl ((text_eq_iff v (codes "*")).0 s)
              | inr s ↦ inr ((looks_like_range_iff v).0 (ground (arith, fine)))
            ];
      }),
  (λ h.
      let each = for_each-all refuse_range e.versions (λ v i. elim (h.no_range v i) [
        | inl s ↦ ground (arith, (text_eq_iff v (codes "*")).1 s)
        | inr x ↦ ground (arith, (looks_like_range_iff v).1 x)
      ]) in
      ground (arith, h.some_version, each)),
)
