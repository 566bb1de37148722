-- ===== src/Upload/Tests.antt =====
-- Uploads to an empty store at /srv/media.
use synapse_media_worker.Filepath.{join, clean}
use synapse_media_worker.Base.{
  arith, ◌<◌, Result, ◌⊎◌, ◌∷◌, str_eq_iff, has_prefix, str_eq, ◌≡◌, ◌≢◌, refl, Bytes, bytes, [],
  true, false, ok, none, some,
}
use synapse_media_worker.Paths.{MediaPaths, local_media}
use synapse_media_worker.Store.{World, find_file}
use synapse_media_worker.Upload.{
  UploadConfig, UploadOutcomes, handle_upload, handle_async_upload, stage, not_local,
}
use synapse_media_worker.Upload.Sync.{AllOrNothing}
use synapse_media_worker.Upload.Sync
use synapse_media_worker.Upload.Async
use synapse_media_worker.Upload.Request.{UploadRequest}
use synapse_media_worker.Upload.Request
use synapse_media_worker.Tokens.{TokenVerdict, AuthError}
use synapse_media_worker.Database.{pending_row}

abbrev store : MediaPaths
store = record { base = bytes "/srv/media"; uploads_allowed = true }

abbrev config : UploadConfig
config = record {
  server_name = bytes "a.org";
  max_upload_size = 10;
  max_pending = 2;
  unused_expiration = 1000;
  limits = [];
  authenticated = true;
}

abbrev temp : Bytes
temp = bytes "/srv/media/local_content/.tmp/.incoming-1"

abbrev outcomes : UploadOutcomes
outcomes = record {
  acquired = true;
  mkdir_ok = true;
  temp = some temp;
  body_ok = true;
  sync_ok = true;
  close_ok = true;
  chmod_ok = true;
  lookup_ok = true;
  quarantine_ok = true;
  usage_ok = true;
  rename_ok = true;
  row_ok = true;
}

abbrev empty : World
empty = record { files = []; local = []; remote = [] }

abbrev path : Bytes
path = bytes "/srv/media/local_content/ab/cd/efgh"

located : local_media store (bytes "abcdefgh") ≡ ok path
unfolding local_media str_eq clean join has_prefix
located = refl

named : (t : Bytes) → outcomes.temp ≡ some t → t ≡ temp
named t e = cc e

fits : 11 < 9223372036854775808
fits = omega arith

differs : str_eq temp path ≡ false
unfolding str_eq
differs = refl

apart : temp ≢ path
apart e = cc ((str_eq_iff temp path).1 e, differs)

free : find_file path empty.files ≡ none
unfolding find_file
free = refl

handle_upload-AllOrNothing_example :
    AllOrNothing
      (λ s. s)
      store
      config
      outcomes
      temp
      path
      named
      fits
      (bytes "PNG")
      (bytes "@u:a.org")
      5000
      (bytes "abcdefgh")
      (bytes "image/png")
      []
      located
      apart
      empty
      (handle_upload
        (λ s. s)
        store
        config
        outcomes
        (bytes "@u:a.org")
        5000
        (bytes "abcdefgh")
        (bytes "image/png")
        []
        (bytes "PNG")
        empty)
handle_upload-AllOrNothing_example =
    Sync.handle_upload-AllOrNothing (λ s. s) store config outcomes temp path named fits
      (bytes "PNG") (bytes "@u:a.org") 5000 (bytes "abcdefgh") (bytes "image/png") [] located apart
      empty free

kept : (x : World) → find_file temp x.files ≡ find_file temp x.files
kept x = refl

abbrev waiting : World
waiting = record {
  files = [];
  local = pending_row (bytes "abcdefgh") 4500 (bytes "@u:a.org") true ∷ [];
  remote = [];
}

async_test :
    (handle_async_upload
      (λ s. s)
      store
      config
      outcomes
      (bytes "@u:a.org")
      5000
      (bytes "abcdefgh")
      (bytes "image/png")
      []
      (λ w. w)
      (bytes "b.org")
      (bytes "PNG")
      waiting).1
    ≡ not_local
unfolding handle_async_upload str_eq
async_test = refl

handle_async_upload-WinnerOnly_example :
    Async.WinnerOnly
      (λ s. s)
      store
      config
      outcomes
      temp
      path
      named
      fits
      (bytes "PNG")
      (bytes "@u:a.org")
      5000
      (bytes "abcdefgh")
      (bytes "image/png")
      []
      located
      (λ w. w)
      kept
      waiting
      (stage (λ s. s) store config outcomes (bytes "abcdefgh") (bytes "PNG") waiting.files).0
      (handle_async_upload
        (λ s. s)
        store
        config
        outcomes
        (bytes "@u:a.org")
        5000
        (bytes "abcdefgh")
        (bytes "image/png")
        []
        (λ w. w)
        (bytes "a.org")
        (bytes "PNG")
        waiting)
handle_async_upload-WinnerOnly_example =
    Async.handle_async_upload-WinnerOnly (λ s. s) store config outcomes temp path named fits
      (bytes "PNG") (bytes "@u:a.org") 5000 (bytes "abcdefgh") (bytes "image/png") [] located
      (λ w. w) kept (bytes "a.org") waiting

abbrev verdict : Result AuthError TokenVerdict
verdict = ok (record {
  valid = true;
  user_id = bytes "@u:a.org";
  is_guest = false;
  expires = 9000;
  rejection = none;
  status = 0;
})

abbrev request : UploadRequest
request = record {
  version = bytes "v3";
  credentials = record { token = bytes "secret"; user_id = []; device_id = [] };
  content_length = bytes "3";
  content_type = bytes "image/png";
  filename = [];
  body = bytes "PNG";
}

post_upload-IsStoredFor_example :
    ((v : TokenVerdict) × Request.IsStoredFor
        (λ s. s)
        store
        config
        outcomes
        5000
        (bytes "abcdefgh")
        true
        verdict
        request
        empty
        v)
    ⊎ (Request.IsRefused
          (λ s. s)
          store
          config
          outcomes
          5000
          (bytes "abcdefgh")
          true
          verdict
          request
          empty
        ⊎ Request.IsHandedOver
            (λ s. s)
            store
            config
            outcomes
            5000
            (bytes "abcdefgh")
            true
            verdict
            request
            empty)
post_upload-IsStoredFor_example =
    Request.post_upload-IsStoredFor (λ s. s) store config outcomes 5000 (bytes "abcdefgh") true
      verdict request empty
