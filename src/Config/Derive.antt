-- ===== src/Config/Derive.antt =====
-- What the worker takes from Synapse's configuration, and what it keeps of its own.
use synapse_media_worker.Base.{
  ℕ, ◌≡◌, ◌≢◌, refl, Bool, true, false, ◌||◌, arith, Option, none, some, List, [], ◌∷◌, Bytes,
  Result, ok, err, Ensures, returned, bind-Ensures, Ensures-ok,
}
use synapse_media_worker.Limits.{MediaUploadLimit}
use synapse_media_worker.Synapse.{
  Value, ValueError, SynapseConfig, is_empty, parse_synapse_duration,
}
use synapse_media_worker.Config.{Config}
use synapse_media_worker.Config.Validate.{
  ConfigError, max_upload_size_invalid, max_image_pixels_invalid, unused_expiration_time_invalid,
}
use synapse_media_worker.Config.Load.{
  derive_size, derive_unused, derive_pending, derive_flag, derive_text, derive_path, derive_uri,
  with_derived, derive_from_synapse, named, parse_media_upload_limits, is_unset,
}

derive_text-kept : (s t : Bytes) → s ≢ [] → derive_text s t ≡ s
unfolding derive_text is_empty
derive_text-kept [] t h = absurd (h refl)
derive_text-kept (c ∷ s) t h = refl

derive_path-kept : (exists : Bytes → Bool) (s t : Bytes) → s ≢ [] → derive_path exists s t ≡ s
unfolding derive_path is_empty
derive_path-kept exists [] t h = absurd (h refl)
derive_path-kept exists (c ∷ s) t h = refl

derive_uri-kept : (s : Bytes) (t : Option Bytes) → s ≢ [] → derive_uri s t ≡ s
unfolding derive_uri is_empty
derive_uri-kept [] t h = absurd (h refl)
derive_uri-kept (c ∷ s) none h = refl
derive_uri-kept (c ∷ s) (some t) h = refl

derive_flag-kept : (f g : Option Bool) → f ≢ none → derive_flag f g ≡ f
unfolding derive_flag
derive_flag-kept none g h = absurd (h refl)
derive_flag-kept (some b) g h = refl

derive_size-kept :
    (failure : ValueError → ConfigError) (n : Option ℕ) (v : Value) (m : Option ℕ)
    → derive_size failure n v ≡ ok m
    → n ≢ none
    → m ≡ n
unfolding derive_size
derive_size-kept failure none v m h k = absurd (k refl)
derive_size-kept failure (some n) v m h k = cc

-- What `d` has of `c`'s settings and of Synapse's. A setting of `c` that is not empty stays as it is,
-- and so do all settings that Synapse's configuration does not have.
pub record Keeps (hs : SynapseConfig) (c d : Config) : Type 0 where
  pub name : c.server_name ≢ [] → d.server_name ≡ c.server_name
  pub uri : c.database.uri ≢ [] → d.database.uri ≡ c.database.uri
  pub store : c.media.store_path ≢ [] → d.media.store_path ≡ c.media.store_path
  pub key : c.media.signing_key_path ≢ [] → d.media.signing_key_path ≡ c.media.signing_key_path
  pub suffix :
      c.media.user_agent_suffix ≢ [] → d.media.user_agent_suffix ≡ c.media.user_agent_suffix
  pub size : c.media.max_upload_size ≢ none → d.media.max_upload_size ≡ c.media.max_upload_size
  pub pixels : c.media.max_image_pixels ≢ none → d.media.max_image_pixels ≡ c.media.max_image_pixels
  pub authenticated :
      c.media.enable_authenticated_media ≢ none
      → d.media.enable_authenticated_media ≡ c.media.enable_authenticated_media
  pub dynamic :
      c.media.dynamic_thumbnails ≢ none → d.media.dynamic_thumbnails ≡ c.media.dynamic_thumbnails
  pub modules : c.media.synapse_modules ≡ true → d.media.synapse_modules ≡ true
  pub pending :
      c.media.max_pending_media_uploads ≢ 5
      → d.media.max_pending_media_uploads ≡ c.media.max_pending_media_uploads
  pub pending_given :
      (n : ℕ)
      → c.media.max_pending_media_uploads ≡ 5
      → hs.max_pending_media_uploads ≡ some n
      → d.media.max_pending_media_uploads ≡ n
  pub expiration :
      is_unset hs.unused_expiration_time ≡ true
      → d.media.unused_expiration_time ≡ c.media.unused_expiration_time
  pub expiration_given :
      is_unset hs.unused_expiration_time ≡ false
      → parse_synapse_duration hs.unused_expiration_time ≡ ok d.media.unused_expiration_time
  pub synapse_config : d.synapse_config ≡ c.synapse_config
  pub listen : d.listen ≡ c.listen
  pub cache : d.cache ≡ c.cache
  pub auth : d.auth ≡ c.auth
  pub upstream : d.upstream ≡ c.upstream
  pub log : d.log ≡ c.log
  pub conns : d.database.max_conns ≡ c.database.max_conns
  pub last_access : d.database.update_last_access ≡ c.database.update_last_access
  pub access_interval : d.database.last_access_interval ≡ c.database.last_access_interval
  pub agent : d.media.user_agent ≡ c.media.user_agent
  pub timeout : d.media.default_timeout ≡ c.media.default_timeout
  pub longest_timeout : d.media.max_timeout ≡ c.media.max_timeout
  pub thumbnails : d.media.max_concurrent_thumbnails ≡ c.media.max_concurrent_thumbnails
  pub accepts : d.media.accept_uploads ≡ c.media.accept_uploads
  pub made_on_upload : d.media.upload_thumbnails ≡ c.media.upload_thumbnails
  pub uploads : d.media.max_concurrent_uploads ≡ c.media.max_concurrent_uploads
  pub fetches : d.media.fetch_remote ≡ c.media.fetch_remote
  pub proxies : d.media.proxy_failed_fetches ≡ c.media.proxy_failed_fetches
  pub concurrent_fetches : d.media.max_concurrent_fetches ≡ c.media.max_concurrent_fetches
  pub fetch_time : d.media.fetch_timeout ≡ c.media.fetch_timeout
  pub writes_through : d.media.write_through_thumbnails ≡ c.media.write_through_thumbnails
  pub policy : d.media.module_upload_limits ≡ c.media.module_upload_limits

pub named-read :
    (failure : ValueError → ConfigError) (r : Result ValueError ℕ) (n : ℕ)
    → named failure r ≡ ok n
    → r ≡ ok n
named-read failure (err e) n h = cc
named-read failure (ok m) n h = cc

derive_unused-read :
    (current : ℕ) (v : Value) (n : ℕ)
    → is_unset v ≡ false
    → derive_unused current v ≡ ok n
    → parse_synapse_duration v ≡ ok n
unfolding derive_unused
derive_unused-read current v n set h = named-read unused_expiration_time_invalid _ n (rw set at h)

derive_unused-kept :
    (current : ℕ) (v : Value) (n : ℕ)
    → is_unset v ≡ true
    → derive_unused current v ≡ ok n
    → n ≡ current
unfolding derive_unused
derive_unused-kept current v n unset h = cc (rw unset at h)

derive_pending-kept :
    (current : ℕ) (given : Option ℕ) → current ≢ 5 → derive_pending current given ≡ current
unfolding derive_pending
derive_pending-kept current none h = refl
derive_pending-kept current (some n) h = ground arith

derive_pending-given :
    (current : ℕ) (given : Option ℕ) (n : ℕ)
    → current ≡ 5
    → given ≡ some n
    → derive_pending current given ≡ n
unfolding derive_pending
derive_pending-given current given n five is = rw (is, five) refl

kept_modules : (b x : Bool) → b ≡ true → (b || x) ≡ true
kept_modules true x h = refl
kept_modules false x h = cc h

module _ (exists : Bytes → Bool)
    (render : Bytes → Bytes → Bytes → List (Bytes × Bytes) → Bytes) where
  with_derived-Keeps :
      (hs : SynapseConfig) (c : Config) (size pixels : Option ℕ) (unused : ℕ)
      (limits : List MediaUploadLimit)
      → (c.media.max_upload_size ≢ none → size ≡ c.media.max_upload_size)
      → (c.media.max_image_pixels ≢ none → pixels ≡ c.media.max_image_pixels)
      → derive_unused c.media.unused_expiration_time hs.unused_expiration_time ≡ ok unused
      → Keeps hs c (with_derived exists render hs c size pixels unused limits)
  unfolding with_derived
  with_derived-Keeps hs c size pixels unused limits s p u = record {
    name = derive_text-kept _ _;
    uri = derive_uri-kept _ _;
    store = derive_path-kept exists _ _;
    key = derive_path-kept exists _ _;
    suffix = derive_text-kept _ _;
    size = s;
    pixels = p;
    authenticated = derive_flag-kept _ _;
    dynamic = derive_flag-kept _ _;
    modules = kept_modules c.media.synapse_modules _;
    pending = derive_pending-kept _ _;
    pending_given = λ n. derive_pending-given _ _ n;
    expiration = λ unset. derive_unused-kept _ hs.unused_expiration_time unused unset u;
    expiration_given = λ set. derive_unused-read _ hs.unused_expiration_time unused set u;
    synapse_config = refl;
    listen = refl;
    cache = refl;
    auth = refl;
    upstream = refl;
    log = refl;
    conns = refl;
    last_access = refl;
    access_interval = refl;
    agent = refl;
    timeout = refl;
    longest_timeout = refl;
    thumbnails = refl;
    accepts = refl;
    made_on_upload = refl;
    uploads = refl;
    fetches = refl;
    proxies = refl;
    concurrent_fetches = refl;
    fetch_time = refl;
    writes_through = refl;
    policy = refl;
  }

  -- Reading Synapse's configuration leaves every setting of the worker's own that is not empty as it
  -- is, but for the expiration time of unused media, which Synapse's replaces wherever that is set,
  -- and the number of pending uploads, which Synapse's replaces where the worker's is 5. Settings that
  -- Synapse's configuration does not have are left as they are, empty or not.
  pub derive_from_synapse-Keeps :
      (hs : SynapseConfig) (c d : Config)
      → derive_from_synapse exists render hs c ≡ ok d
      → Keeps hs c d
  unfolding derive_from_synapse
  derive_from_synapse-Keeps hs c d h =
      let kept : Ensures (Keeps hs c) (derive_from_synapse exists render hs c) =
        bind-Ensures
          (derive_size max_upload_size_invalid c.media.max_upload_size hs.max_upload_size) _
          λ size read_size.
            bind-Ensures
              (derive_size max_image_pixels_invalid c.media.max_image_pixels hs.max_image_pixels) _
              λ pixels read_pixels.
                bind-Ensures
                  (derive_unused c.media.unused_expiration_time hs.unused_expiration_time) _
                  λ unused read_unused.
                    bind-Ensures (parse_media_upload_limits hs) _ λ limits read_limits. returned (
                      with_derived-Keeps hs c size pixels unused limits
                        (derive_size-kept max_upload_size_invalid _ hs.max_upload_size size
                          read_size)
                        (derive_size-kept max_image_pixels_invalid _ hs.max_image_pixels pixels
                          read_pixels)
                        read_unused) in
      Ensures-ok kept h
