-- ===== src/Config/Load.antt =====
-- `LoadConfig`, `deriveFromSynapse` and `parseMediaUploadLimits` of config.go. Reading and decoding
-- YAML is the library's: what it gives is a parameter. The notes of deriveFromSynapse are only logged
-- and are left out.
use synapse_media_worker.Base.{
  ℕ, ◌+◌, ◌==◌, Bool, true, false, not, ◌&&◌, ◌||◌, Option, none, some, List, [], ◌∷◌, ◌++◌,
  if◌then◌else◌, Bytes, bytes, Result, err, ok, ◌>>=◌, ◌>>◌, or_err,
}
use synapse_media_worker.Limits.{MediaUploadLimit, sort_limits}
use synapse_media_worker.Synapse.{
  Value, null, int, float, text, other, ValueError, SynapseConfig, SynapseMediaUploadLimit,
  parse_synapse_size, parse_synapse_duration, public_baseurl_or_default, database_uri, is_empty,
}
use synapse_media_worker.Config.{Config}
use synapse_media_worker.Config.Settings.{default_config}
use synapse_media_worker.Config.Validate.{
  ConfigError, unreadable, synapse_unreadable, max_upload_size_invalid, max_image_pixels_invalid,
  unused_expiration_time_invalid, limit_max_size_invalid, limit_time_period_invalid, validate,
}

-- Names the entry and the key that an error of a value is about.
abbrev pub named {ℓ} :
    {Value : Type ℓ}
    → (ValueError → ConfigError)
    → Result ValueError Value
    → Result ConfigError Value
named failure (err e) = err (failure e)
named failure (ok value) = ok value

-- One entry of media_upload_limits, the `i`-th.
unfoldable pub read_limit :
    Bytes → ℕ → SynapseMediaUploadLimit → Result ConfigError MediaUploadLimit
unfolding is_empty parse_synapse_size parse_synapse_duration
read_limit fallback i raw = do
  max_bytes ← named (limit_max_size_invalid i) (parse_synapse_size raw.max_size)
  window ← named (limit_time_period_invalid i) (parse_synapse_duration raw.time_period)
  ok (record {
    max_bytes = max_bytes;
    window = window;
    info_uri = if is_empty raw.info_uri then fallback else raw.info_uri;
    can_upgrade = raw.can_upgrade;
  })

unfoldable pub read_limits :
    Bytes → ℕ → List SynapseMediaUploadLimit → Result ConfigError (List MediaUploadLimit)
unfolding read_limit
read_limits fallback i [] = ok []
read_limits fallback i (raw ∷ entries) = do
  limit ← read_limit fallback i raw
  limits ← read_limits fallback (i + 1) entries
  ok (limit ∷ limits)

unfoldable pub fallback_uri : SynapseConfig → Bytes
unfolding public_baseurl_or_default
fallback_uri hs =
    public_baseurl_or_default hs ++ bytes "_synapse/client/media_upload_limit_exceeded"

unfoldable pub parse_media_upload_limits :
    SynapseConfig → Result ConfigError (List MediaUploadLimit)
unfolding fallback_uri read_limits sort_limits
parse_media_upload_limits hs = do
  limits ← read_limits (fallback_uri hs) 0 hs.media_upload_limits
  ok (sort_limits limits)

unfoldable pub is_unset : Value → Bool
is_unset null = true
is_unset (int n) = false
is_unset (float n) = false
is_unset (text s) = false
is_unset other = false

-- A size that is kept where it is set, and read from Synapse's value where only that is.
unfoldable pub derive_size :
    (ValueError → ConfigError) → Option ℕ → Value → Result ConfigError (Option ℕ)
unfolding is_unset parse_synapse_size
derive_size failure (some n) v = ok (some n)
derive_size failure none v =
    if is_unset v then ok none else (named failure (parse_synapse_size v) >>= λ n. ok (some n))

unfoldable pub derive_unused : ℕ → Value → Result ConfigError ℕ
unfolding is_unset parse_synapse_duration
derive_unused current v =
    if is_unset v
    then ok current
    else named unused_expiration_time_invalid (parse_synapse_duration v)

unfoldable pub derive_pending : ℕ → Option ℕ → ℕ
derive_pending current none = current
derive_pending current (some n) = if current == 5 then n else current

unfoldable pub derive_flag : Option Bool → Option Bool → Option Bool
derive_flag none given = given
derive_flag (some b) given = some b

unfoldable pub derive_text : Bytes → Bytes → Bytes
unfolding is_empty
derive_text current given = if is_empty current then given else current

-- A path of Synapse's configuration is taken where it exists here.
unfoldable pub derive_path : (Bytes → Bool) → Bytes → Bytes → Bytes
unfolding is_empty
derive_path exists current given =
    if is_empty current && not (is_empty given) && exists given then given else current

unfoldable pub derive_uri : Bytes → Option Bytes → Bytes
unfolding is_empty
derive_uri current none = current
derive_uri current (some uri) = if is_empty current then uri else current

unfoldable pub has_modules : List Value → Bool
has_modules [] = false
has_modules (m ∷ modules) = true

-- `deriveFromSynapse`, where `exists` is whether a path can be found and `render` writes the text
-- of a database's URL.
module _ (exists : Bytes → Bool)
    (render : Bytes → Bytes → Bytes → List (Bytes × Bytes) → Bytes) where
  -- The values of both configurations put together, with those that have been read.
  unfoldable pub with_derived :
      SynapseConfig → Config → Option ℕ → Option ℕ → ℕ → List MediaUploadLimit → Config
  unfolding derive_pending derive_flag derive_text derive_path derive_uri has_modules database_uri
  with_derived hs c upload_size pixels unused limits = record c {
    server_name = derive_text c.server_name hs.server_name;
    database = record c.database { uri = derive_uri c.database.uri (database_uri render hs) };
    media = record c.media {
      max_upload_size = upload_size;
      max_image_pixels = pixels;
      max_pending_media_uploads =
          derive_pending c.media.max_pending_media_uploads hs.max_pending_media_uploads;
      unused_expiration_time = unused;
      upload_limits = limits;
      enable_authenticated_media =
          derive_flag c.media.enable_authenticated_media hs.enable_authenticated_media;
      dynamic_thumbnails = derive_flag c.media.dynamic_thumbnails hs.dynamic_thumbnails;
      user_agent_suffix = derive_text c.media.user_agent_suffix hs.user_agent_suffix;
      store_path = derive_path exists c.media.store_path hs.media_store_path;
      signing_key_path = derive_path exists c.media.signing_key_path hs.signing_key_path;
      synapse_modules = c.media.synapse_modules || has_modules hs.modules;
    };
  }

  unfoldable pub derive_from_synapse : SynapseConfig → Config → Result ConfigError Config
  unfolding derive_size derive_unused with_derived parse_media_upload_limits
  derive_from_synapse hs c = do
    upload_size ← derive_size max_upload_size_invalid c.media.max_upload_size hs.max_upload_size
    pixels ← derive_size max_image_pixels_invalid c.media.max_image_pixels hs.max_image_pixels
    unused ← derive_unused c.media.unused_expiration_time hs.unused_expiration_time
    limits ← parse_media_upload_limits hs
    ok (with_derived hs c upload_size pixels unused limits)

  unfoldable pub with_synapse : (Bytes → Option SynapseConfig) → Config → Result ConfigError Config
  unfolding derive_from_synapse is_empty
  with_synapse load_synapse c =
      if is_empty c.synapse_config
      then ok c
      else (or_err (load_synapse c.synapse_config) synapse_unreadable >>= λ hs.
          derive_from_synapse hs c)

  -- The configuration of the worker as the YAML decoder fills in the defaults, and that of Synapse
  -- at a path, as it is read from there.
  unfoldable pub load_config :
      (cwd : Bytes)
      → (Config → Option Config)
      → (Bytes → Option SynapseConfig)
      → Result ConfigError Config
  unfolding default_config with_synapse validate
  load_config cwd decode load_synapse = do
    c ← or_err (decode default_config) unreadable
    derived ← with_synapse load_synapse c
    validate cwd derived
    ok derived
