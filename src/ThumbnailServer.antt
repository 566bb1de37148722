-- ===== src/ThumbnailServer.antt =====
-- handlers.go: the thumbnail handlers. The lookups of the database and of a fetch are inputs as in
-- Download; the state is a Shelf, the files and the table of remote thumbnails, as it is once the
-- media is looked up or fetched. The batched last-access times are left out.
pub mod Remote
pub mod Handlers
pub mod Gate
pub mod Next
pub mod Again
mod Tests
use synapse_media_worker.Base.{
  ℕ, Bool, true, false, not, ◌&&◌, ◌||◌, Option, none, some, List, [], ◌∷◌, if◌then◌else◌, Bytes,
  bytes, str_eq, length, Result, ok, err, ◌>>=◌,
}
use synapse_media_worker.Paths.{
  MediaPaths, Located, local_thumbnail, url_cache_thumbnail, remote_media, remote_thumbnail,
  remote_thumbnail_legacy,
}
use synapse_media_worker.Database.{LocalMedia, RemoteMedia, quarantined, is_url_cache, deref_string}
use synapse_media_worker.Serve.{
  Headers, set_cors_headers, set_corp_headers, set_cache_headers, add_file_headers, not_modified,
}
use synapse_media_worker.Store.{Files, find_file, StoreError, is_some}
use synapse_media_worker.Download.{
  Found, broken, missing, found, Reply, ServerConfig, Tick, not_found, internal_error, proxied,
  unchanged, served, resolve_local_media, hidden_from_legacy, local_media_path, respond_multipart,
  open_at, fetch_failure,
}
use synapse_media_worker.Thumbnail.{
  ThumbnailRequest, ThumbnailRow, ThumbnailQuery, RequestError, parse_thumbnail_request, find_exact,
  can_generate, generate, GenerateError, cannot_generate, ImageLibrary,
}
use synapse_media_worker.ThumbCache.{CacheOutcomes, cache_key, open_entry, put_entry}
use synapse_media_worker.WriteThrough.{
  Shelf, shelf_files, Columns, scan_thumbnails, get_remote_thumbnails, WriteOutcomes, WriteResult,
  write_through_remote_thumbnail,
}

-- The `Thumbnailer`, and what its system calls bring.
pub record Generator : Type 1 where
  pub library : ImageLibrary
  pub max_image_pixels : ℕ
  pub first_frame : Bytes → Option Bytes
  pub orientation : Bytes → ℕ
  pub orient : ℕ → library.Image → library.Image
  pub acquired : Bool
  pub readable : Bool

pub record ThumbnailServer : Type 1 where
  pub config : ServerConfig
  pub paths : MediaPaths
  pub write_through_thumbnails : Bool
  pub has_remote : Bool
  pub hash : Bytes → Bytes
  pub cache_dir : Bytes
  pub generator : Generator

-- One request: its headers, what its calls bring, and what other requests do to the files while this
-- one waits for its turn to generate (`waited`) and after its rename (`between`).
pub record Call : Type 0 where
  pub if_none_match : Bytes
  pub boundary : Bytes
  pub write : WriteOutcomes
  pub cache : CacheOutcomes
  pub waited : Files → Files
  pub between : Files → Files

unfoldable pub thumbnail_headers : Headers
thumbnail_headers = set_corp_headers (set_cors_headers [])

-- `respondThumbnailFile` and `respondThumbnailBytes` for a GET of the whole.
unfoldable pub respond_thumbnail : Call → Bool → Bytes → Bytes → Reply
unfolding thumbnail_headers
respond_thumbnail call federation media_type content =
    if federation
    then respond_multipart call.boundary media_type [] (some (length content)) content
    else if not_modified call.if_none_match
    then unchanged (set_cache_headers thumbnail_headers)
    else served (add_file_headers media_type [] thumbnail_headers) content

-- The type and the content of a stored thumbnail that could be opened.
unfoldable pub with_type : Bytes → Option Bytes → Option (Bytes × Bytes)
with_type media_type none = none
with_type media_type (some content) = some (media_type, content)

module _ (s : ThumbnailServer) (call : Call) where
  unfoldable pub write_through_remote : Bytes → Bytes → Bool
  write_through_remote origin fs_id =
      s.write_through_thumbnails && s.has_remote && not (str_eq origin []) && not (str_eq fs_id [])

  unfoldable pub put_in_cache : Bytes → Bytes → Shelf → Shelf
  put_in_cache key content shelf =
      shelf_files shelf (put_entry s.cache_dir key content call.cache shelf.files).1

  -- A write-through that fails falls back to the cache.
  unfoldable pub fall_back : Bytes → Bytes → Shelf × WriteResult → Shelf
  unfolding put_in_cache
  fall_back key content (shelf, err e) = put_in_cache key content shelf
  fall_back key content (shelf, ok u) = shelf

  unfoldable pub store_generated_thumbnail :
      Bytes → Bytes → Bytes → Bytes → ThumbnailRequest → Bytes → Shelf → Shelf
  unfolding fall_back put_in_cache write_through_remote
  store_generated_thumbnail origin id fs_id key req content shelf =
      if write_through_remote origin fs_id
      then fall_back key content (
          write_through_remote_thumbnail s.paths call.write call.between origin id fs_id req content
            shelf)
      else put_in_cache key content shelf

  abbrev pub is_refusal : GenerateError → Bool
  is_refusal cannot_generate = true
  is_refusal _ = false

  unfoldable pub generate_reason : GenerateError → Bool → Bytes
  generate_reason e source_there =
      if is_refusal e
      then bytes "generate_refused"
      else if not source_there
      then bytes "source_missing"
      else bytes "generate_failed"

  unfoldable pub generate_from :
      Option Bytes → Bytes → ThumbnailRequest → Result GenerateError Bytes
  generate_from source source_type req =
      let g = s.generator in
      generate g.library g.max_image_pixels g.first_frame g.orientation g.orient g.acquired
        (if g.readable then source else none) source_type req

  module _ (federation : Bool) (origin id fs_id source_path source_type : Bytes)
      (req : ThumbnailRequest) where
    unfoldable pub respond_generated :
        Bytes → Bool → Shelf → Result GenerateError Bytes → Reply × Shelf
    unfolding generate_reason
    respond_generated key source_there shelf (err e) =
        (proxied (generate_reason e source_there), shelf)
    respond_generated key source_there shelf (ok content) = (
      respond_thumbnail call federation req.type content,
      store_generated_thumbnail origin id fs_id key req content shelf,
    )

    -- The call that `generating.Do` runs.
    unfoldable pub in_flight : Bytes → Shelf → Option Bytes → Reply × Shelf
    unfolding respond_generated generate_from
    in_flight key shelf (some content) = (respond_thumbnail call federation req.type content, shelf)
    in_flight key shelf none =
        let source = find_file source_path shelf.files in
        respond_generated key (is_some source) shelf (generate_from source source_type req)

    unfoldable pub unless_cached : Bytes → Shelf → Option Bytes → Reply × Shelf
    unfolding in_flight
    unless_cached key shelf (some content) =
        (respond_thumbnail call federation req.type content, shelf)
    unless_cached key shelf none =
        let later = shelf_files shelf (call.waited shelf.files) in
        if not (can_generate source_type req)
        then (
          proxied (if req.animated then bytes "animated" else bytes "unsupported_format"),
          shelf,
        )
        else in_flight key later (open_entry s.cache_dir key later.files)

    unfoldable pub serve_generated_thumbnail : Shelf → Reply × Shelf
    unfolding unless_cached
    serve_generated_thumbnail shelf =
        let key = cache_key s.hash origin id req in
        unless_cached key shelf (open_entry s.cache_dir key shelf.files)

  -- Local thumbnails. The stored one that matches, where it can be opened: its type and its content.
  unfoldable pub open_local :
      LocalMedia → Bytes → Files → Option ThumbnailRow → Option (Bytes × Bytes)
  unfolding with_type
  open_local m id files none = none
  open_local m id files (some row) =
      let path =
        if is_url_cache m
        then url_cache_thumbnail s.paths id row.width row.height row.type row.method
        else local_thumbnail s.paths id row.width row.height row.type row.method in
      with_type row.type (open_at files path)

  module _ (federation : Bool) (id : Bytes) (req : ThumbnailRequest) (shelf : Shelf) where
    unfoldable pub from_local_source : LocalMedia → Located → Reply × Shelf
    unfolding serve_generated_thumbnail
    from_local_source m (err e) = (not_found, shelf)
    from_local_source m (ok path) =
        serve_generated_thumbnail federation [] id [] path (deref_string m.media_type) req shelf

    unfoldable pub local_stored_or : LocalMedia → Option (Bytes × Bytes) → Reply × Shelf
    unfolding from_local_source
    local_stored_or m (some (media_type, content)) =
        (respond_thumbnail call federation media_type content, shelf)
    local_stored_or m none = from_local_source m (local_media_path s.paths m)

    -- What the query of the thumbnails brings, if it succeeds.
    unfoldable pub local_rows : LocalMedia → Option (List Columns) → Reply × Shelf
    unfolding local_stored_or open_local
    local_rows m none = (internal_error, shelf)
    local_rows m (some rows) =
        local_stored_or m (open_local m id shelf.files (find_exact (scan_thumbnails rows) req))

    unfoldable pub local_resolved : Option (List Columns) → Result Reply LocalMedia → Reply × Shelf
    unfolding local_rows
    local_resolved rows (err reply) = (reply, shelf)
    local_resolved rows (ok m) = local_rows m rows

    unfoldable pub serve_local_thumbnail :
        Found LocalMedia → List Tick → Option (List Columns) → Bool → Reply × Shelf
    unfolding local_resolved
    serve_local_thumbnail row ticks rows allow_authenticated =
        local_resolved rows (resolve_local_media s.config row ticks allow_authenticated)
