-- ===== src/Download.antt =====
-- handlers.go: which media a download is answered with. A lookup of the database brings an error, no
-- row or a row; the files are those of Store.
pub mod Gate
mod Tests
use synapse_media_worker.Base.{
  ℕ, ◌*◌, ◌≡◌, Bool, true, false, not, ◌&&◌, ◌||◌, Option, none, some, List, [], ◌∷◌, ltb,
  if◌then◌else◌, mul64, Bytes, bytes, str_eq, Result, ok, err, slt64,
}
use synapse_media_worker.Decimal.{parse_int}
use synapse_media_worker.Paths.{MediaPaths, Located, local_media, remote_media, url_cache}
use synapse_media_worker.Database.{
  LocalMedia, RemoteMedia, quarantined, is_url_cache, is_null, deref_string,
}
use synapse_media_worker.Serve.{
  Headers, set_cors_headers, set_corp_headers, set_download_security_headers, set_cache_headers,
  add_file_headers, not_modified,
}
use synapse_media_worker.Multipart.{MultipartParts, new_multipart_parts, write_header, write_body}
use synapse_media_worker.Store.{Files, find_file, StoreError, too_large, origin_not_found}

-- What a lookup of the database brings.
pub data Found {ℓ} (Row : Type ℓ) : Type ℓ where
  broken missing : Found Row
  found : Row → Found Row

-- The answers. `proxied` hands the request to Synapse.
pub data Reply : Type 0 where
  not_found not_yet_uploaded internal_error too_large_remote unreachable : Reply
  proxied : Bytes → Reply
  unchanged : Headers → Reply
  served : Headers → Bytes → Reply

pub record ServerConfig : Type 0 where
  pub server_name : Bytes
  pub authenticated_media : Bool
  pub default_timeout : ℕ
  pub max_timeout : ℕ
  pub fetch_remote : Bool
  pub proxy_fetch_failures : Bool

unfoldable pub hidden_from_legacy : ServerConfig → Bool → Bool → Bool
hidden_from_legacy c media_authenticated allow_authenticated =
    c.authenticated_media && not allow_authenticated && media_authenticated

-- A tick of `awaitUpload`: what the lookup brought, and whether the deadline has passed. The ticks end
-- where the client goes away.
pub record Tick : Type 0 where
  pub lookup : Found LocalMedia
  pub past_deadline : Bool

abbrev pub has_length : Found LocalMedia → Bool
has_length broken = false
has_length missing = false
has_length (found m) = not (is_null m.length)

-- The row of a tick that ends the waiting well.
abbrev pub row_of : Found LocalMedia → Option LocalMedia
row_of broken = none
row_of missing = none
row_of (found m) = some m

abbrev pub is_found : Found LocalMedia → Bool
is_found broken = false
is_found missing = false
is_found (found m) = true

unfoldable pub await_upload : List Tick → Option LocalMedia
await_upload [] = none
await_upload (t ∷ ticks) =
    let rest = await_upload ticks in
    if not (is_found t.lookup)
    then none
    else if has_length t.lookup
    then row_of t.lookup
    else if t.past_deadline
    then none
    else rest

-- The timeout that a request asks for. A duration is a 64-bit pattern, in nanoseconds; the product may
-- wrap.
unfoldable pub asked_timeout : ServerConfig → Option ℕ → ℕ
asked_timeout c none = c.default_timeout
asked_timeout c (some ms) = if slt64 ms 0 then c.default_timeout else mul64 ms 1000000

-- `uploadTimeout`.
unfoldable pub upload_timeout : ServerConfig → Bytes → ℕ
unfolding asked_timeout
upload_timeout c text =
    let timeout = asked_timeout c (parse_int text) in
    if slt64 c.max_timeout timeout then c.max_timeout else timeout

unfoldable pub awaited : Option LocalMedia → Result Reply LocalMedia
awaited none = err not_yet_uploaded
awaited (some m) = ok m

unfoldable pub resolve_local_media :
    ServerConfig → Found LocalMedia → List Tick → Bool → Result Reply LocalMedia
resolve_local_media c broken ticks allow_authenticated = err internal_error
resolve_local_media c missing ticks allow_authenticated = err not_found
resolve_local_media c (found m) ticks allow_authenticated =
    if quarantined m.quarantined_by
    then err not_found
    else if hidden_from_legacy c m.authenticated allow_authenticated
    then err not_found
    else if is_null m.length
    then awaited (await_upload ticks)
    else ok m

unfoldable pub local_media_path : MediaPaths → LocalMedia → Located
local_media_path p m = if is_url_cache m then url_cache p m.media_id else local_media p m.media_id

-- The headers that every download carries.
unfoldable pub download_headers : Headers
download_headers = set_download_security_headers (set_corp_headers (set_cors_headers []))

-- The rest of a download once the file is open: the whole file, with no Range.
unfoldable pub respond_file : Bytes → Bytes → Bytes → Bytes → Reply
respond_file if_none_match media_type upload_name content =
    if not_modified if_none_match
    then unchanged (set_cache_headers download_headers)
    else served (add_file_headers media_type upload_name download_headers) content

-- `respondMultipart` for a GET.
unfoldable pub respond_multipart : Bytes → Bytes → Bytes → Option ℕ → Bytes → Reply
respond_multipart boundary media_type upload_name size content =
    let parts = new_multipart_parts boundary media_type upload_name in
    served (write_header parts size []) (write_body parts content)

unfoldable pub open_at : Files → Located → Option Bytes
open_at files (err e) = none
open_at files (ok path) = find_file path files

module _ (c : ServerConfig) (p : MediaPaths) (files : Files) (if_none_match boundary : Bytes) where
  unfoldable pub respond_local : Bool → LocalMedia → Option Bytes → Reply
  respond_local federation m none = not_found
  respond_local federation m (some content) =
      if federation
      then respond_multipart boundary (deref_string m.media_type) (deref_string m.upload_name)
          m.length content
      else respond_file if_none_match (deref_string m.media_type) (deref_string m.upload_name)
          content

  unfoldable pub serve_resolved : Bool → Result Reply LocalMedia → Reply
  serve_resolved federation (err reply) = reply
  serve_resolved federation (ok m) =
      respond_local federation m (open_at files (local_media_path p m))

  unfoldable pub serve_local_download : Found LocalMedia → List Tick → Bool → Bool → Reply
  serve_local_download row ticks allow_authenticated federation =
      serve_resolved federation (resolve_local_media c row ticks allow_authenticated)

  unfoldable pub respond_remote : RemoteMedia → Option Bytes → Reply
  respond_remote m none = proxied (bytes "remote_file_missing")
  respond_remote m (some content) =
      respond_file if_none_match (deref_string m.media_type) (deref_string m.upload_name) content

  unfoldable pub is_located : Located → Bool
  is_located (err e) = false
  is_located (ok path) = true

  unfoldable pub serve_remote_row : Bytes → RemoteMedia → Bool → Reply
  serve_remote_row server m allow_authenticated =
      let path = remote_media p server m.filesystem_id in
      if quarantined m.quarantined_by
      then not_found
      else if hidden_from_legacy c m.authenticated allow_authenticated
      then not_found
      else if is_null m.length
      then proxied (bytes "remote_incomplete")
      else if not (is_located path)
      then not_found
      else respond_remote m (open_at files path)

  -- `fetchRemote`: the answer where the fetch brought no row.
  abbrev pub is_too_large : StoreError → Bool
  is_too_large too_large = true
  is_too_large _ = false

  abbrev pub is_origin_not_found : StoreError → Bool
  is_origin_not_found origin_not_found = true
  is_origin_not_found _ = false

  unfoldable pub fetch_failure : StoreError → Reply
  fetch_failure e =
      if is_too_large e
      then too_large_remote
      else if c.proxy_fetch_failures
      then proxied (bytes "fetch_failed")
      else if is_origin_not_found e
      then not_found
      else unreachable

  unfoldable pub serve_fetched : Bytes → Result StoreError RemoteMedia → Bool → Reply
  serve_fetched server (err e) allow_authenticated = fetch_failure e
  serve_fetched server (ok m) allow_authenticated = serve_remote_row server m allow_authenticated

  unfoldable pub serve_remote_download :
      Bytes → Found RemoteMedia → Result StoreError RemoteMedia → Bool → Reply
  serve_remote_download server broken fetched allow_authenticated = internal_error
  serve_remote_download server missing fetched allow_authenticated =
      if c.fetch_remote
      then serve_fetched server fetched allow_authenticated
      else proxied (bytes "remote_not_cached")
  serve_remote_download server (found m) fetched allow_authenticated =
      serve_remote_row server m allow_authenticated
