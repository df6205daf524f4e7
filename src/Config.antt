-- ===== src/Config.antt =====
-- The configuration types of src/config.rs. A `Duration` is a number of nanoseconds, a `PathBuf`
-- the text of the path.
pub mod Net
pub mod Validate
pub mod Addresses
pub mod Hosts
pub mod Places
pub mod Urls
pub mod Entries
pub mod Validity
use osv_proxy.Common.{ℕ, Bool, List, Text}
use osv_proxy.Artifact.{Ecosystem, normalize_name}

pub data MissingPublishTime : Type 0 where
  block allow : MissingPublishTime

pub data OsvErrorBehavior : Type 0 where
  block allow : OsvErrorBehavior

pub data LocalOsvStaleBehavior : Type 0 where
  block allow : LocalOsvStaleBehavior

pub data ArtifactBehavior : Type 0 where
  redirect proxy proxy_cache_s3 : ArtifactBehavior

pub record ServerConfig : Type 0 where
  pub bind : Text
  pub public_base_url : Text

pub record LimitsConfig : Type 0 where
  pub ingress_requests : ℕ
  pub egress_requests : ℕ
  pub background_sync_requests : ℕ
  pub queue_timeout : ℕ

pub record MetadataCacheConfig : Type 0 where
  pub enabled : Bool
  pub capacity_bytes : ℕ
  pub max_entry_bytes : ℕ
  pub ttl : ℕ
  pub fill_concurrency : ℕ

-- The fields of the seven upstream records, in one record.
pub record UpstreamsConfig : Type 0 where
  pub npm_registry_url : Text
  pub pypi_simple_url : Text
  pub go_proxy_url : Text
  pub cargo_sparse_index_url : Text
  pub cargo_download_url : Text
  pub nuget_service_index_url : Text
  pub rubygems_registry_url : Text
  pub maven_repository_url : Text

pub record LocalOsvConfig : Type 0 where
  pub sqlite_path : Text
  pub max_staleness : ℕ
  pub on_stale : LocalOsvStaleBehavior
  pub retain_raw_advisories : Bool
  pub background_sync : Bool
  pub sync_interval : ℕ

pub record OsvConfig (F : Type 0) : Type 0 where
  pub block_malicious : Bool
  pub block_vulnerabilities : Bool
  pub minimum_cvss_score : F
  pub on_error : OsvErrorBehavior
  pub local : LocalOsvConfig

pub record PolicyConfig (F : Type 0) : Type 0 where
  pub minimum_age : ℕ
  pub missing_publish_time : MissingPublishTime
  pub osv : OsvConfig F

pub record ArtifactsConfig : Type 0 where
  pub behavior : ArtifactBehavior
  pub trusted_origins : List Text

pub record AllowlistEntry : Type 0 where
  pub ecosystem : Ecosystem
  pub name : Text
  pub version : Text
  pub bypass_age_gate : Bool
  pub bypass_osv : Bool
  pub reason : Text

pub record BlocklistEntry : Type 0 where
  pub ecosystem : Ecosystem
  pub name : Text
  pub versions : List Text
  pub reason : Text

pub record Config (F : Type 0) : Type 0 where
  pub server : ServerConfig
  pub limits : LimitsConfig
  pub metadata_cache : MetadataCacheConfig
  pub upstreams : UpstreamsConfig
  pub policy : PolicyConfig F
  pub artifacts : ArtifactsConfig
  pub allowlist : List AllowlistEntry
  pub blocklist : List BlocklistEntry

-- `AllowlistEntry::normalized_name`, and `BlocklistEntry::normalized_name`.
unfoldable pub allowlist_name : (ℕ → Text) → AllowlistEntry → Text
allowlist_name lowercase entry = normalize_name lowercase entry.ecosystem entry.name

unfoldable pub blocklist_name : (ℕ → Text) → BlocklistEntry → Text
blocklist_name lowercase entry = normalize_name lowercase entry.ecosystem entry.name
