-- ===== src/Config/Settings.antt =====
-- The getters and the defaults of config.go, and the body of mediaconfig.go.
use synapse_media_worker.Base.{
  ℕ, ◌*◌, Bool, true, false, not, ◌&&◌, none, List, [], ◌∷◌, ◌++◌, if◌then◌else◌, Bytes, bytes,
  str_eq, or_else,
}
use synapse_media_worker.Decimal.{itoa_int64}
use synapse_media_worker.Synapse.{is_empty, second, minute, hour}
use synapse_media_worker.Config.{Config, MediaConfig, UpstreamTarget, UpstreamEndpoint, LogConfig}

unfoldable pub unix_socket : Bytes → UpstreamEndpoint
unix_socket s = record { socket = s; url = [] }

unfoldable pub tcp : Bytes → UpstreamEndpoint
tcp u = record { socket = []; url = u }

unfoldable pub endpoint : (Bytes → UpstreamEndpoint) → Bytes → List UpstreamEndpoint
unfolding is_empty
endpoint kind s = if is_empty s then [] else kind s ∷ []

unfoldable pub each_endpoint : (Bytes → UpstreamEndpoint) → List Bytes → List UpstreamEndpoint
unfolding endpoint
each_endpoint kind [] = []
each_endpoint kind (s ∷ rest) = endpoint kind s ++ each_endpoint kind rest

unfoldable pub endpoints : UpstreamTarget → List UpstreamEndpoint
unfolding endpoint each_endpoint unix_socket tcp
endpoints t =
    endpoint unix_socket t.socket
    ++ each_endpoint unix_socket t.sockets
    ++ endpoint tcp t.url
    ++ each_endpoint tcp t.urls

unfoldable pub endpoint_name : UpstreamEndpoint → Bytes
unfolding is_empty
endpoint_name e = if is_empty e.socket then e.url else bytes "unix:" ++ e.socket

unfoldable pub configured : UpstreamTarget → Bool
unfolding endpoints
configured t = elim (endpoints t) [ [] ↦ false | _ ∷ _ ↦ true ]

unfoldable pub log_requests : LogConfig → Bool
log_requests c = or_else c.requests true

abbrev pub synapse_default_max_upload_size : ℕ
synapse_default_max_upload_size = 50 * 1024 * 1024

abbrev pub synapse_default_max_image_pixels : ℕ
synapse_default_max_image_pixels = 32 * 1024 * 1024

unfoldable pub max_image_pixels_or_default : MediaConfig → ℕ
max_image_pixels_or_default m = or_else m.max_image_pixels synapse_default_max_image_pixels

unfoldable pub max_upload_size_or_default : MediaConfig → ℕ
max_upload_size_or_default m = or_else m.max_upload_size synapse_default_max_upload_size

unfoldable pub proxy_fetch_failures : MediaConfig → Bool
proxy_fetch_failures m = or_else m.proxy_failed_fetches true

unfoldable pub authenticated_media : MediaConfig → Bool
authenticated_media m = or_else m.enable_authenticated_media true

unfoldable pub dynamic_thumbnails_enabled : MediaConfig → Bool
dynamic_thumbnails_enabled m = or_else m.dynamic_thumbnails false

abbrev pub policy_proxy : Bytes
policy_proxy = bytes "proxy"

abbrev pub policy_ignore : Bytes
policy_ignore = bytes "ignore"

unfoldable pub module_upload_limits_policy : MediaConfig → Bytes
unfolding is_empty
module_upload_limits_policy m =
    if is_empty m.module_upload_limits then policy_proxy else m.module_upload_limits

unfoldable pub uploads_accepted : MediaConfig → Bool
unfolding module_upload_limits_policy
uploads_accepted m =
    m.accept_uploads
    && not (m.synapse_modules && str_eq (module_upload_limits_policy m) policy_proxy)

unfoldable pub proxy_media_config : MediaConfig → Bool
proxy_media_config m = m.synapse_modules

unfoldable pub no_upstream : UpstreamTarget
no_upstream = record { socket = []; sockets = []; url = []; urls = [] }

unfoldable pub default_media : MediaConfig
default_media = record {
  store_path = [];
  signing_key_path = [];
  user_agent = [];
  user_agent_suffix = [];
  max_image_pixels = none;
  default_timeout = 20 * second;
  max_timeout = 60 * second;
  max_concurrent_thumbnails = 0;
  accept_uploads = false;
  upload_thumbnails = bytes "none";
  max_concurrent_uploads = 8;
  unused_expiration_time = 24 * hour;
  max_pending_media_uploads = 5;
  fetch_remote = false;
  proxy_failed_fetches = none;
  max_concurrent_fetches = 4;
  fetch_timeout = 60 * second;
  write_through_thumbnails = false;
  max_upload_size = none;
  enable_authenticated_media = none;
  dynamic_thumbnails = none;
  module_upload_limits = [];
  synapse_modules = false;
  upload_limits = [];
}

unfoldable pub default_config : Config
unfolding default_media no_upstream
default_config = record {
  server_name = [];
  synapse_config = [];
  listen = record { socket = []; socket_mode = 438; addr = bytes ":8090"; metrics_addr = [] };
  database = record {
    uri = [];
    max_conns = 16;
    update_last_access = true;
    last_access_interval = minute;
  };
  media = default_media;
  cache = record { dir = []; max_bytes = 10737418240; sweep_interval = 10 * minute };
  auth = record {
    whoami_url = [];
    whoami_socket = [];
    positive_ttl = 5 * minute;
    negative_ttl = 30 * second;
    max_entries = 20000;
  };
  upstream = record {
    download = no_upstream;
    thumbnail = no_upstream;
    upload = no_upstream;
    passthrough = no_upstream;
  };
  log = record { level = bytes "info"; pretty = false; requests = none };
}

-- `mediaConfigBody`.
unfoldable pub media_config_body : ℕ → Bytes
unfolding itoa_int64
media_config_body max_upload_size =
    bytes "{\"m.upload.size\":" ++ itoa_int64 max_upload_size ++ bytes "}"
