-- ===== src/Config/Validate.antt =====
-- `validate` of config.go, and the errors of loading a configuration.
use synapse_media_worker.Base.{
  ℕ, Bool, not, ◌&&◌, List, [], ◌∷◌, if◌then◌else◌, Bytes, bytes, contains, has_prefix, slt64,
  Result, ok, ◌>>◌, ensure,
}
use synapse_media_worker.Paths.{clean_abs}
use synapse_media_worker.Synapse.{ValueError, is_empty}
use synapse_media_worker.Config.{Config}
use synapse_media_worker.Config.Settings.{
  max_image_pixels_or_default, max_upload_size_or_default, policy_proxy, policy_ignore,
}

pub data ConfigError : Type 0 where
  unreadable synapse_unreadable : ConfigError
  server_name_required database_uri_required store_path_required : ConfigError
  cache_dir_required cache_dir_inside_store whoami_required : ConfigError
  max_image_pixels_not_positive max_upload_size_not_positive : ConfigError
  write_through_requires_fetch signing_key_required : ConfigError
  module_upload_limits_unknown upload_thumbnails_unknown : ConfigError
  max_upload_size_invalid max_image_pixels_invalid : ValueError → ConfigError
  unused_expiration_time_invalid : ValueError → ConfigError
  limit_max_size_invalid limit_time_period_invalid : ℕ → ValueError → ConfigError

abbrev pub module_upload_limits_values : List Bytes
module_upload_limits_values = [] ∷ policy_proxy ∷ policy_ignore ∷ []

abbrev pub upload_thumbnails_values : List Bytes
upload_thumbnails_values = [] ∷ bytes "none" ∷ bytes "synapse" ∷ []

unfoldable pub is_positive : ℕ → Bool
is_positive n = slt64 0 n

-- The last two blocks of `validate`, each under its flag.
unfoldable pub validate_uploads : Config → Result ConfigError (Unit {0})
unfolding is_positive max_upload_size_or_default is_empty
validate_uploads c =
    if c.media.accept_uploads
    then (ensure (is_positive (max_upload_size_or_default c.media)) max_upload_size_not_positive
        >> ensure (not (is_empty c.server_name)) server_name_required)
    else ok tt

unfoldable pub validate_fetches : Config → Result ConfigError (Unit {0})
unfolding is_positive max_upload_size_or_default is_empty
validate_fetches c =
    if c.media.fetch_remote
    then (ensure (not (is_empty c.media.signing_key_path)) signing_key_required
        >> ensure (is_positive (max_upload_size_or_default c.media)) max_upload_size_not_positive)
    else ok tt

unfoldable pub validate : (cwd : Bytes) → Config → Result ConfigError (Unit {0})
unfolding is_empty is_positive max_image_pixels_or_default clean_abs validate_uploads
    validate_fetches
validate cwd c = do
  ensure (not (is_empty c.server_name)) server_name_required
  ensure (not (is_empty c.database.uri)) database_uri_required
  ensure (not (is_empty c.media.store_path)) store_path_required
  ensure (not (is_empty c.cache.dir)) cache_dir_required
  ensure (not (has_prefix (clean_abs cwd c.cache.dir) (clean_abs cwd c.media.store_path)))
      cache_dir_inside_store
  ensure (not (is_empty c.auth.whoami_url && is_empty c.auth.whoami_socket)) whoami_required
  ensure (is_positive (max_image_pixels_or_default c.media)) max_image_pixels_not_positive
  ensure (not (c.media.write_through_thumbnails && not c.media.fetch_remote))
      write_through_requires_fetch
  ensure (contains module_upload_limits_values c.media.module_upload_limits)
      module_upload_limits_unknown
  ensure (contains upload_thumbnails_values c.media.upload_thumbnails) upload_thumbnails_unknown
  validate_uploads c
  validate_fetches c
