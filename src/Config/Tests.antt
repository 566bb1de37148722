-- ===== src/Config/Tests.antt =====
-- A small configuration, with Synapse's behind it.
use synapse_media_worker.Filepath.{clean}
use synapse_media_worker.Base.{
  ◌*◌, ◌≡◌, refl, ◌↔◌, Bool, true, false, none, some, List, [], ◌∷◌, Bytes, bytes, contains,
  has_prefix, slt64, str_eq, mul64, is_digit, ok, err,
}
use synapse_media_worker.Decimal.{parse_int, parse_digits}
use synapse_media_worker.Limits.{insert_limit, sort_limits}
use synapse_media_worker.Paths.{clean_abs}
use synapse_media_worker.Serve.{is_space, trim_left, trim_space}
use synapse_media_worker.Synapse.{
  text, null, SynapseConfig, parse_synapse_size, parse_synapse_duration, size_of_text,
  duration_of_text, last_byte, drop_last, size_multiplier, duration_unit, scaled, without_suffix,
  is_empty, public_baseurl_or_default, hour,
}
use synapse_media_worker.Config.{Config, MediaConfig}
use synapse_media_worker.Config.Settings.{
  default_config, max_image_pixels_or_default, max_upload_size_or_default,
}
use synapse_media_worker.Config.Validate.{
  is_positive, validate, validate_uploads, validate_fetches, cache_dir_inside_store,
}
use synapse_media_worker.Config.Load.{
  derive_size, derive_unused, is_unset, with_derived, derive_from_synapse, read_limit, read_limits,
  fallback_uri, parse_media_upload_limits,
}
use synapse_media_worker.Config.Valid.{IsUsable}
use synapse_media_worker.Config.Valid
use synapse_media_worker.Config.Derive.{Keeps}
use synapse_media_worker.Config.Derive
use synapse_media_worker.Config.Quotas.{AreLimits}
use synapse_media_worker.Config.Quotas

abbrev media : MediaConfig
media = record {
  store_path = bytes "/srv/media";
  signing_key_path = [];
  user_agent = [];
  user_agent_suffix = [];
  max_image_pixels = none;
  default_timeout = 0;
  max_timeout = 0;
  max_concurrent_thumbnails = 0;
  accept_uploads = true;
  upload_thumbnails = bytes "none";
  max_concurrent_uploads = 8;
  unused_expiration_time = hour;
  max_pending_media_uploads = 5;
  fetch_remote = false;
  proxy_failed_fetches = none;
  max_concurrent_fetches = 4;
  fetch_timeout = 0;
  write_through_thumbnails = false;
  max_upload_size = some 1000;
  enable_authenticated_media = none;
  dynamic_thumbnails = none;
  module_upload_limits = [];
  synapse_modules = false;
  upload_limits = [];
}

-- The cache is at `dir`.
abbrev config : Bytes → Config
config dir = record default_config {
  server_name = bytes "a.org";
  database = record {
    uri = bytes "postgres:";
    max_conns = 16;
    update_last_access = true;
    last_access_interval = 0;
  };
  media = media;
  cache = record { dir = dir; max_bytes = 0; sweep_interval = 0 };
  auth = record {
    whoami_url = bytes "http://unix/";
    whoami_socket = [];
    positive_ttl = 0;
    negative_ttl = 0;
    max_entries = 0;
  };
}

abbrev synapse : SynapseConfig
synapse = record {
  server_name = bytes "b.org";
  media_store_path = bytes "/media";
  signing_key_path = [];
  max_upload_size = text (bytes "100M");
  max_image_pixels = null;
  max_pending_media_uploads = some 9;
  unused_expiration_time = text (bytes "24h");
  media_upload_limits =
      record {
        max_size = text (bytes "1M");
        time_period = text (bytes "1h");
        info_uri = [];
        can_upgrade = false;
      }
      ∷ record {
        max_size = text (bytes "5M");
        time_period = text (bytes "1d");
        info_uri = bytes "https://b.org/limits";
        can_upgrade = false;
      }
      ∷ [];
  public_baseurl = [];
  user_agent_suffix = [];
  dynamic_thumbnails = some true;
  enable_authenticated_media = none;
  database = record { user = []; password = []; database = []; host = []; port = null };
  url_preview_enabled = none;
  storage_providers = [];
  prevent_media_downloads_from = [];
  modules = [];
}

accepted : validate (bytes "/") (config (bytes "/srv/cache")) ≡ ok tt
unfolding validate is_empty is_positive max_image_pixels_or_default max_upload_size_or_default
    validate_uploads validate_fetches contains has_prefix clean_abs clean str_eq slt64
    default_config
accepted = refl

-- A directory beside the media store is refused where its name begins with the store's.
sibling_test : validate (bytes "/") (config (bytes "/srv/media-cache")) ≡ err cache_dir_inside_store
unfolding validate is_empty is_positive has_prefix clean_abs clean str_eq slt64 default_config
sibling_test = refl

validate_iff_example :
    (validate (bytes "/") (config (bytes "/srv/cache")) ≡ ok tt)
    ↔ IsUsable (bytes "/") (config (bytes "/srv/cache"))
validate_iff_example = Valid.validate_iff (bytes "/") (config (bytes "/srv/cache"))

abbrev everywhere : Bytes → Bool
everywhere path = true

abbrev no_text : Bytes → Bytes → Bytes → List (Bytes × Bytes) → Bytes
no_text user password path query = []

-- What both come to.
derived : Config
derived =
    with_derived everywhere no_text synapse (config (bytes "/srv/cache")) (some 1000) none
      (24 * hour)
      (record {
        max_bytes = 5242880;
        window = 24 * hour;
        info_uri = bytes "https://b.org/limits";
        can_upgrade = false;
      }
        ∷ record {
          max_bytes = 1048576;
          window = hour;
          info_uri = bytes "https://b.org/_synapse/client/media_upload_limit_exceeded";
          can_upgrade = false;
        }
        ∷ [])

derived_test :
    derive_from_synapse everywhere no_text synapse (config (bytes "/srv/cache")) ≡ ok derived
unfolding derive_from_synapse derived derive_size derive_unused is_unset parse_media_upload_limits
    read_limits read_limit fallback_uri public_baseurl_or_default is_empty parse_synapse_size
    parse_synapse_duration size_of_text duration_of_text last_byte drop_last size_multiplier
    duration_unit scaled without_suffix trim_space trim_left is_space parse_int parse_digits
    is_digit mul64 sort_limits insert_limit slt64 default_config
derived_test = refl

derive_from_synapse-Keeps_example : Keeps synapse (config (bytes "/srv/cache")) derived
derive_from_synapse-Keeps_example =
    Derive.derive_from_synapse-Keeps everywhere no_text synapse (config (bytes "/srv/cache"))
      derived derived_test

limits_test :
    parse_media_upload_limits synapse
    ≡ ok (
        record {
          max_bytes = 5242880;
          window = 24 * hour;
          info_uri = bytes "https://b.org/limits";
          can_upgrade = false;
        }
        ∷ record {
          max_bytes = 1048576;
          window = hour;
          info_uri = bytes "https://b.org/_synapse/client/media_upload_limit_exceeded";
          can_upgrade = false;
        }
        ∷ [])
unfolding parse_media_upload_limits read_limits read_limit fallback_uri public_baseurl_or_default
    is_empty parse_synapse_size parse_synapse_duration size_of_text duration_of_text last_byte
    drop_last size_multiplier duration_unit scaled without_suffix trim_space trim_left is_space
    parse_int parse_digits is_digit mul64 sort_limits insert_limit slt64
limits_test = refl

parse_media_upload_limits-AreLimits_example : AreLimits synapse derived.media.upload_limits
unfolding derived with_derived
parse_media_upload_limits-AreLimits_example =
    Quotas.parse_media_upload_limits-AreLimits synapse _ limits_test
