-- ===== src/Config/Validate.antt =====
-- The `validate` functions of src/config.rs. A `Duration` is a number of nanoseconds.
use osv_proxy.Common.{
  contains, is_whitespace, ℕ, ◌*◌, Bool, true, false, not, ◌&&◌, ◌||◌, ◌==◌, ltb, leb, List, [],
  ◌∷◌, ◌++◌, if◌then◌else◌, any, all, is_empty, Text, codes, text_eq, byte_len,
  is_ascii_alphanumeric, split,
}
use osv_proxy.Platform.{Platform, score_ge}
use osv_proxy.Config.{
  LimitsConfig, MetadataCacheConfig, OsvConfig, LocalOsvConfig, AllowlistEntry, BlocklistEntry,
}

pub data ConfigError : Type 0 where
  io yaml unsupported invalid : Text → ConfigError

-- `Result<(), ConfigError>`, and `?` on it.
pub data Validation : Type 0 where
  ok : Validation
  err : ConfigError → Validation

infixr 5 ◌and_then◌
abbrev pub ◌and_then◌ : Validation → Validation → Validation
ok and_then v = v
err e and_then v = err e

-- `if test { return Err(error) }`.
abbrev pub refuse_if : Bool → ConfigError → Validation
refuse_if true e = err e
refuse_if false e = ok

-- A `for` loop over checks.
abbrev pub for_each : {A : Type 0} → (A → Validation) → List A → Validation
for_each check [] = ok
for_each check (x ∷ xs) = check x and_then for_each check xs

abbrev pub not_one_to : ℕ → ℕ → Bool
not_one_to maximum value = value == 0 || ltb maximum value

abbrev pub seconds : ℕ → ℕ
seconds n = n * 1000000000

abbrev pub capacity_max : ℕ
capacity_max = 4294967296

abbrev pub entry_max : ℕ
entry_max = 134217728

unfoldable pub validate_metadata_cache : MetadataCacheConfig → Validation
validate_metadata_cache c =
    refuse_if (not_one_to capacity_max c.capacity_bytes)
      (invalid (codes "metadata_cache.capacity_bytes must be between 1 and 4294967296"))
    and_then refuse_if (not_one_to entry_max c.max_entry_bytes)
        (invalid (codes "metadata_cache.max_entry_bytes must be between 1 and 134217728"))
    and_then refuse_if (ltb c.capacity_bytes c.max_entry_bytes) (
        invalid
          (codes "metadata_cache.max_entry_bytes must not exceed metadata_cache.capacity_bytes"))
    and_then refuse_if (not_one_to (seconds 86400) c.ttl)
        (invalid (codes "metadata_cache.ttl must be greater than zero and at most 24h"))
    and_then refuse_if (not_one_to 1024 c.fill_concurrency)
        (invalid (codes "metadata_cache.fill_concurrency must be between 1 and 1024"))

unfoldable pub validate_limits : LimitsConfig → Validation
validate_limits c =
    for_each
      (λ (p : Text × ℕ). refuse_if (p.1 == 0) (invalid (p.0 ++ codes " must be greater than zero")))
      ((codes "limits.ingress_requests", c.ingress_requests)
        ∷ (codes "limits.egress_requests", c.egress_requests)
        ∷ (codes "limits.background_sync_requests", c.background_sync_requests)
        ∷ [])
    and_then refuse_if (c.queue_timeout == 0)
        (invalid (codes "limits.queue_timeout must be greater than zero"))

unfoldable pub validate_local : LocalOsvConfig → Validation
validate_local c =
    refuse_if (is_empty c.sqlite_path)
      (invalid (codes "policy.osv.local.sqlite_path must not be empty"))
    and_then refuse_if (c.max_staleness == 0)
        (invalid (codes "policy.osv.local.max_staleness must be greater than zero"))
    and_then refuse_if (c.sync_interval == 0)
        (invalid (codes "policy.osv.local.sync_interval must be greater than zero"))
    and_then refuse_if (ltb c.sync_interval (seconds 60))
        (invalid (codes "policy.osv.local.sync_interval must be at least 60s"))
    and_then refuse_if (ltb (seconds 604800) c.sync_interval)
        (invalid (codes "policy.osv.local.sync_interval must be at most 7d"))

abbrev pub validate_threshold : {F : Type 0} → Platform F → F → Validation
validate_threshold std score =
    refuse_if
      (not (std.is_finite score)
        || not (score_ge std score std.zero_score && score_ge std std.ten_score score))
      (invalid (codes "policy.osv.minimum_cvss_score must be a finite value from 0.0 through 10.0"))

unfoldable pub validate_osv : {F : Type 0} → Platform F → OsvConfig F → Validation
unfolding validate_local
validate_osv std c = validate_threshold std c.minimum_cvss_score and_then validate_local c.local

unfoldable pub validate_allowed : AllowlistEntry → Validation
validate_allowed entry =
    refuse_if (text_eq entry.version (codes "*"))
      (unsupported (codes "allowlist entries must use exact versions"))
    and_then refuse_if (entry.bypass_osv && all is_whitespace entry.reason)
        (invalid (codes "allowlist entries with bypass_osv=true require a reason"))

unfoldable pub looks_like_range : Text → Bool
looks_like_range version =
    contains version b'<'
    || contains version b'>'
    || contains version b'='
    || contains version b'~'
    || contains version b'^'
    || contains version b','
    || contains version b' '

abbrev pub refuse_no_version : List Text → Validation
refuse_no_version versions =
    refuse_if (is_empty versions)
      (invalid (codes "blocklist entries must include at least one version"))

abbrev pub refuse_range : Text → Validation
refuse_range version =
    refuse_if (not (text_eq version (codes "*")) && looks_like_range version)
      (unsupported (codes "blocklist entries support only exact versions and *"))

unfoldable pub validate_blocked : BlocklistEntry → Validation
validate_blocked entry =
    refuse_no_version entry.versions and_then for_each refuse_range entry.versions

-- `strip_suffix`, or the whole text.
abbrev pub without_last : ℕ → Text → Text
without_last c [] = []
without_last c (d ∷ []) = if d == c then [] else d ∷ []
without_last c (d ∷ e ∷ s) = d ∷ without_last c (e ∷ s)

abbrev pub last_is : ℕ → Text → Bool
last_is c [] = false
last_is c (d ∷ []) = d == c
last_is c (d ∷ e ∷ s) = last_is c (e ∷ s)

abbrev pub first_is : ℕ → Text → Bool
first_is c [] = false
first_is c (d ∷ s) = d == c

unfoldable pub is_valid_label : Text → Bool
is_valid_label label =
    not (is_empty label)
    && leb (byte_len label) 63
    && not (first_is b'-' label)
    && not (last_is b'-' label)
    && all (λ c. is_ascii_alphanumeric c || c == b'-') label

unfoldable pub is_valid_dns_hostname : Text → Bool
unfolding is_valid_label
is_valid_dns_hostname host =
    if is_empty host
      || ltb 253 (byte_len host)
      || any (λ c. c == b':' || c == b'/' || c == b'[' || c == b']') host
      || not (all (λ c. ltb c 128) host)
    then false
    else (let bare = without_last b'.' host in
        not (is_empty bare) && all is_valid_label (split b'.' bare))
