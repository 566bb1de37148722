-- ===== src/Config.antt =====
-- config.go: the worker's configuration. These are its records; the child Settings has the getters and
-- the defaults, and Load what is taken from Synapse's configuration and the validation. Times are in
-- nanoseconds; sizes and times that the code computes with are 64-bit patterns.
pub mod Settings
pub mod Validate
pub mod Load
pub mod Valid
pub mod Derive
pub mod Quotas
mod Tests
use synapse_media_worker.Base.{ℕ, Bool, Option, List, Bytes}
use synapse_media_worker.Limits.{MediaUploadLimit}

pub record ListenConfig : Type 0 where
  pub socket : Bytes
  pub socket_mode : ℕ
  pub addr : Bytes
  pub metrics_addr : Bytes

pub record DatabaseConfig : Type 0 where
  pub uri : Bytes
  pub max_conns : ℕ
  pub update_last_access : Bool
  pub last_access_interval : ℕ

pub record MediaConfig : Type 0 where
  pub store_path : Bytes
  pub signing_key_path : Bytes
  pub user_agent : Bytes
  pub user_agent_suffix : Bytes
  pub max_image_pixels : Option ℕ
  pub default_timeout : ℕ
  pub max_timeout : ℕ
  pub max_concurrent_thumbnails : ℕ
  pub accept_uploads : Bool
  pub upload_thumbnails : Bytes
  pub max_concurrent_uploads : ℕ
  pub unused_expiration_time : ℕ
  pub max_pending_media_uploads : ℕ
  pub fetch_remote : Bool
  pub proxy_failed_fetches : Option Bool
  pub max_concurrent_fetches : ℕ
  pub fetch_timeout : ℕ
  pub write_through_thumbnails : Bool
  pub max_upload_size : Option ℕ
  pub enable_authenticated_media : Option Bool
  pub dynamic_thumbnails : Option Bool
  pub module_upload_limits : Bytes
  pub synapse_modules : Bool
  pub upload_limits : List MediaUploadLimit

pub record CacheConfig : Type 0 where
  pub dir : Bytes
  pub max_bytes : ℕ
  pub sweep_interval : ℕ

pub record AuthConfig : Type 0 where
  pub whoami_url : Bytes
  pub whoami_socket : Bytes
  pub positive_ttl : ℕ
  pub negative_ttl : ℕ
  pub max_entries : ℕ

pub record UpstreamTarget : Type 0 where
  pub socket : Bytes
  pub sockets : List Bytes
  pub url : Bytes
  pub urls : List Bytes

pub record UpstreamConfig : Type 0 where
  pub download : UpstreamTarget
  pub thumbnail : UpstreamTarget
  pub upload : UpstreamTarget
  pub passthrough : UpstreamTarget

pub record LogConfig : Type 0 where
  pub level : Bytes
  pub pretty : Bool
  pub requests : Option Bool

pub record Config : Type 0 where
  pub server_name : Bytes
  pub synapse_config : Bytes
  pub listen : ListenConfig
  pub database : DatabaseConfig
  pub media : MediaConfig
  pub cache : CacheConfig
  pub auth : AuthConfig
  pub upstream : UpstreamConfig
  pub log : LogConfig

pub record UpstreamEndpoint : Type 0 where
  pub socket : Bytes
  pub url : Bytes
