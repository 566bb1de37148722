-- ===== src/Download/Tests.antt =====
-- Downloads from a server whose uploads may be awaited.
use synapse_media_worker.Serve.{not_modified}
use synapse_media_worker.Filepath.{join, clean}
use synapse_media_worker.Base.{
  has_prefix, ◌≡◌, refl, ◌⊎◌, bytes, [], ◌∷◌, true, false, ok, none, some, Result,
}
use synapse_media_worker.Paths.{remote_media, MediaPaths}
use synapse_media_worker.Database.{
  nullable_string, LocalMedia, RemoteMedia, completed, pending_row, is_null, quarantined,
}
use synapse_media_worker.Store.{find_file, Files, StoreError}
use synapse_media_worker.Download.{
  respond_file, open_at, respond_remote, is_located, hidden_from_legacy, serve_remote_row,
  ServerConfig, Tick, found, missing, await_upload, awaited, resolve_local_media,
  serve_remote_download,
}
use synapse_media_worker.Download.Gate.{IsCleared, IsServable}
use synapse_media_worker.Download.Gate

abbrev config : ServerConfig
config = record {
  server_name = bytes "a.org";
  authenticated_media = true;
  default_timeout = 20000;
  max_timeout = 60000;
  fetch_remote = true;
  proxy_fetch_failures = true;
}

abbrev store : MediaPaths
store = record { base = bytes "/srv/media"; uploads_allowed = true }

abbrev remote : RemoteMedia
remote = record {
  origin = bytes "b.org";
  media_id = bytes "media1";
  media_type = some (bytes "image/png");
  length = some 3;
  upload_name = none;
  filesystem_id = bytes "abcdefgh";
  quarantined_by = none;
  authenticated = true;
  created_ts = 5;
  last_access_ts = 5;
  sha256 = none;
}

abbrev files : Files
files = (bytes "/srv/media/remote_content/b.org/ab/cd/efgh", bytes "PNG") ∷ []

abbrev fetched : Result StoreError RemoteMedia
fetched = ok remote

handed_out :
    Gate.IsHandedOut
      (serve_remote_download config store files [] [] (bytes "b.org") (found remote) fetched true)
unfolding serve_remote_download serve_remote_row quarantined hidden_from_legacy is_located
    remote_media clean join has_prefix respond_remote open_at find_file respond_file not_modified
handed_out = tt

serve_remote_download-IsServable_example :
    (m : RemoteMedia) × ((found remote ≡ found m)
      ⊎ ((found remote ≡ missing) × (config.fetch_remote ≡ true) × (fetched ≡ ok m)))
    × IsServable config store files (bytes "b.org") true m
serve_remote_download-IsServable_example =
    Gate.serve_remote_download-IsServable config store files [] [] (bytes "b.org") (found remote)
      fetched true handed_out

abbrev pending : LocalMedia
pending = pending_row (bytes "bbbbbb") 6000 (bytes "@a:b") true

abbrev quarantined_later : LocalMedia
quarantined_later =
    completed
      (record {
        media_type = bytes "image/png";
        upload_name = [];
        length = 3;
        sha256 = bytes "ab";
        quarantined_by = bytes "system";
      })
      pending

quarantined_test : quarantined quarantined_later.quarantined_by ≡ true
unfolding quarantined completed nullable_string
quarantined_test = refl

abbrev tick : Tick
tick = record { lookup = found quarantined_later; past_deadline = false }

-- The row that is served has been quarantined while the upload was waited for.
resolved : resolve_local_media config (found pending) (tick ∷ []) true ≡ ok quarantined_later
unfolding resolve_local_media await_upload quarantined pending_row hidden_from_legacy completed
    awaited
resolved = refl

resolve_local_media-IsCleared_example :
    (first : LocalMedia) × (found pending ≡ found first)
    × IsCleared config true first
    × (((first ≡ quarantined_later) × (is_null quarantined_later.length ≡ false))
        ⊎ ((is_null first.length ≡ true) × (await_upload (tick ∷ []) ≡ some quarantined_later)))
resolve_local_media-IsCleared_example =
    Gate.resolve_local_media-IsCleared config (found pending) (tick ∷ []) true quarantined_later
      resolved
