-- ===== src/ThumbnailServer/Remote.antt =====
-- handlers.go: thumbnails of remote media.
use synapse_media_worker.Base.{
  Bool, false, not, Option, none, some, [], if◌then◌else◌, Bytes, bytes, str_eq, Result, ok, err,
}
use synapse_media_worker.Paths.{Located, remote_media, remote_thumbnail, remote_thumbnail_legacy}
use synapse_media_worker.Database.{RemoteMedia, quarantined, deref_string}
use synapse_media_worker.Store.{Files, StoreError}
use synapse_media_worker.Download.{
  Found, broken, missing, found, Reply, not_found, internal_error, proxied, hidden_from_legacy,
  open_at, fetch_failure,
}
use synapse_media_worker.Thumbnail.{ThumbnailRequest, ThumbnailRow, find_exact}
use synapse_media_worker.WriteThrough.{Shelf, get_remote_thumbnails}
use synapse_media_worker.ThumbnailServer.{
  ThumbnailServer, Call, with_type, respond_thumbnail, serve_generated_thumbnail,
}

-- The first of two candidates that can be opened.
unfoldable pub first_opened : Option Bytes → Option Bytes → Option Bytes
first_opened none legacy = legacy
first_opened (some content) legacy = some content

module _ (s : ThumbnailServer) (call : Call) where
  unfoldable pub thumbnail_fs_id : ThumbnailRow → RemoteMedia → Bytes
  thumbnail_fs_id row m = if str_eq row.filesystem_id [] then m.filesystem_id else row.filesystem_id

  module _ (server id : Bytes) (req : ThumbnailRequest) where
    -- The stored thumbnail that matches, under its name or its older name: its type and its content.
    unfoldable pub open_remote : RemoteMedia → Files → Option ThumbnailRow → Option (Bytes × Bytes)
    unfolding thumbnail_fs_id first_opened with_type
    open_remote m files none = none
    open_remote m files (some row) =
        let fs_id = thumbnail_fs_id row m in
        let current =
          remote_thumbnail s.paths server fs_id row.width row.height row.type row.method in
        let legacy = remote_thumbnail_legacy s.paths server fs_id row.width row.height row.type in
        with_type row.type (first_opened (open_at files current) (open_at files legacy))

    unfoldable pub from_remote_source : Shelf → RemoteMedia → Located → Reply × Shelf
    from_remote_source shelf m (err e) = (proxied (bytes "remote_path_invalid"), shelf)
    from_remote_source shelf m (ok path) =
        serve_generated_thumbnail s call false server id m.filesystem_id path
          (deref_string m.media_type) req shelf

    unfoldable pub remote_stored_or : Shelf → RemoteMedia → Option (Bytes × Bytes) → Reply × Shelf
    unfolding from_remote_source
    remote_stored_or shelf m (some (media_type, content)) =
        (respond_thumbnail call false media_type content, shelf)
    remote_stored_or shelf m none =
        from_remote_source shelf m (remote_media s.paths server m.filesystem_id)

    -- Past the gates; `rows_ok` is whether the query of the thumbnails succeeds.
    unfoldable pub serve_remote_media : Bool → Bool → Shelf → RemoteMedia → Reply × Shelf
    unfolding remote_stored_or open_remote
    serve_remote_media rows_ok allow_authenticated shelf m =
        if quarantined m.quarantined_by
        then (not_found, shelf)
        else if hidden_from_legacy s.config m.authenticated allow_authenticated
        then (not_found, shelf)
        else if not rows_ok
        then (internal_error, shelf)
        else remote_stored_or shelf m (
            open_remote m shelf.files (find_exact (get_remote_thumbnails shelf.rows server id) req))

    unfoldable pub serve_fetched_thumbnail :
        Bool → Bool → Shelf → Result StoreError RemoteMedia → Reply × Shelf
    unfolding serve_remote_media
    serve_fetched_thumbnail rows_ok allow_authenticated shelf (err e) =
        (fetch_failure s.config s.paths shelf.files call.if_none_match call.boundary e, shelf)
    serve_fetched_thumbnail rows_ok allow_authenticated shelf (ok m) =
        serve_remote_media rows_ok allow_authenticated shelf m

    unfoldable pub serve_remote_thumbnail :
        Found RemoteMedia → Result StoreError RemoteMedia → Bool → Bool → Shelf → Reply × Shelf
    unfolding serve_fetched_thumbnail serve_remote_media
    serve_remote_thumbnail broken fetched rows_ok allow_authenticated shelf =
        (internal_error, shelf)
    serve_remote_thumbnail missing fetched rows_ok allow_authenticated shelf =
        if s.config.fetch_remote
        then serve_fetched_thumbnail rows_ok allow_authenticated shelf fetched
        else (proxied (bytes "remote_not_cached"), shelf)
    serve_remote_thumbnail (found m) fetched rows_ok allow_authenticated shelf =
        serve_remote_media rows_ok allow_authenticated shelf m
