-- ===== src/ThumbnailServer/Handlers.antt =====
-- handlers.go: the three thumbnail endpoints, from the request to the answer.
use synapse_media_worker.Base.{
  Bool, true, false, Option, List, [], if◌then◌else◌, Bytes, str_eq, Result, ok, err, ◌>>=◌, ◌>>◌,
  ensure,
}
use synapse_media_worker.Database.{LocalMedia, RemoteMedia}
use synapse_media_worker.Store.{StoreError}
use synapse_media_worker.Download.{Found, Reply, Tick}
use synapse_media_worker.Thumbnail.{
  ThumbnailRequest, ThumbnailQuery, RequestError, parse_thumbnail_request,
}
use synapse_media_worker.Tokens.{TokenVerdict, AuthError}
use synapse_media_worker.Upload.Request.{valid_legacy_version}
use synapse_media_worker.WriteThrough.{Shelf, Columns}
use synapse_media_worker.ThumbnailServer.{ThumbnailServer, Call, serve_local_thumbnail}
use synapse_media_worker.ThumbnailServer.Remote.{serve_remote_thumbnail}

-- The errors that an endpoint answers before it looks for the media.
pub data Refusal : Type 0 where
  missing_token could_not_validate unknown_token unknown_version : Refusal
  invalid_param : RequestError → Refusal

-- `authenticateClient` for a token and what AuthenticateAs brings: the user.
unfoldable pub authenticate_client : Bytes → Result AuthError TokenVerdict → Result Refusal Bytes
authenticate_client token (err e) =
    if str_eq token [] then err missing_token else err could_not_validate
authenticate_client token (ok v) =
    if str_eq token []
    then err missing_token
    else if v.valid
    then ok v.user_id
    else err unknown_token

-- What the lookups of one request bring.
pub record Lookups : Type 0 where
  pub local : Found LocalMedia
  pub ticks : List Tick
  pub local_thumbnails : Option (List Columns)
  pub remote : Found RemoteMedia
  pub fetched : Result StoreError RemoteMedia
  pub remote_thumbnails_ok : Bool

unfoldable pub is_mine : ThumbnailServer → Bytes → Bool
is_mine s server = str_eq server s.config.server_name

module _ (s : ThumbnailServer) (call : Call) (k : Lookups) (shelf : Shelf) (server id : Bytes)
    (query : ThumbnailQuery) where
  unfoldable pub serve_parsed :
      Bool → Bool → Result RequestError ThumbnailRequest → Result Refusal (Reply × Shelf)
  unfolding is_mine
  serve_parsed allow federation (err e) = err (invalid_param e)
  serve_parsed allow federation (ok req) =
      if is_mine s server
      then ok (
          serve_local_thumbnail s call federation id req shelf k.local k.ticks k.local_thumbnails
            allow)
      else ok (
          serve_remote_thumbnail s call server id req k.remote k.fetched k.remote_thumbnails_ok
            allow shelf)

  unfoldable pub serve_thumbnail : Bool → Bool → Result Refusal (Reply × Shelf)
  unfolding serve_parsed
  serve_thumbnail allow federation = serve_parsed allow federation (parse_thumbnail_request query)

  unfoldable pub handle_client_thumbnail :
      Bytes → Result AuthError TokenVerdict → Result Refusal (Reply × Shelf)
  unfolding serve_thumbnail authenticate_client
  handle_client_thumbnail token verdict = do
    user ← authenticate_client token verdict
    serve_thumbnail true false

  unfoldable pub handle_legacy_thumbnail : Bytes → Result Refusal (Reply × Shelf)
  unfolding serve_thumbnail
  handle_legacy_thumbnail version = do
    ensure (valid_legacy_version version) unknown_version
    serve_thumbnail false false

unfoldable pub handle_federation_thumbnail :
    ThumbnailServer
    → Call
    → Lookups
    → Shelf
    → Bytes
    → ThumbnailQuery
    → Result Refusal (Reply × Shelf)
unfolding serve_thumbnail
handle_federation_thumbnail s call k shelf id query =
    serve_thumbnail s call k shelf s.config.server_name id query true true
