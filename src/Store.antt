-- ===== src/Store.antt =====
-- store.go: fetching remote media into the media store. The outcome of each system call and query is
-- an input (Outcomes); what other processes do to the store while a fetch runs is a function
-- (`between`), which stands where it can matter most: after the file is in place, before the row.
pub mod Files
pub mod Promise
pub mod Order
mod Tests
use synapse_media_worker.Base.{
  ℕ, ◌≡◌, Bool, true, false, not, ◌&&◌, Option, none, some, List, [], ◌∷◌, if◌then◌else◌, Bytes,
  str_eq, length, Result, ok, err,
}
use synapse_media_worker.Paths.{
  MediaPaths, Located, PathError, remote_media, writable_path, create_temp_dir,
}
use synapse_media_worker.Database.{
  LocalMedia, RemoteMedia, get_remote_media, store_remote_media, nullable_string, is_null,
}

-- The files, by their full path; of two with one path the first counts.
abbrev pub Files : Type 0
Files = List (Bytes × Bytes)

unfoldable pub find_file : Bytes → Files → Option Bytes
find_file x [] = none
find_file x ((path, content) ∷ files) =
    let rest = find_file x files in if str_eq path x then some content else rest

unfoldable pub remove_file : Bytes → Files → Files
remove_file x [] = []
remove_file x ((path, content) ∷ files) =
    let rest = remove_file x files in if str_eq path x then rest else (path, content) ∷ rest

unfoldable pub write_file : Bytes → Bytes → Files → Files
write_file x content files = (x, content) ∷ files

-- `os.Rename` where it succeeds.
unfoldable pub rename_found : Bytes → Bytes → Option Bytes → Files → Files
rename_found from to none files = files
rename_found from to (some content) files = write_file to content (remove_file from files)

unfoldable pub rename_file : Bytes → Bytes → Files → Files
rename_file from to files = rename_found from to (find_file from files) files

pub record World : Type 0 where
  pub files : Files
  pub local : List LocalMedia
  pub remote : List RemoteMedia

unfoldable pub with_files : World → Files → World
with_files w files = record { files = files; local = w.local; remote = w.remote }

unfoldable pub with_remote : World → List RemoteMedia → World
with_remote w remote = record { files = w.files; local = w.local; remote = remote }

pub data StoreError : Type 0 where
  query_failed bad_path not_writable mkdir_failed temp_failed : StoreError
  too_large fetch_failed origin_not_found : StoreError
  sync_failed close_failed chmod_failed rename_failed insert_failed reread_failed : StoreError

pub record FetchedMedia : Type 0 where
  pub content : Bytes
  pub media_type : Bytes
  pub upload_name : Bytes
  pub sha256 : Bytes

-- What the calls of one fetch bring. `partial` is what a failed download left in the temporary file.
pub record Outcomes : Type 0 where
  pub lookup_ok : Bool
  pub mkdir_ok : Bool
  pub temp : Option Bytes
  pub partial : Bytes
  pub fetched : Result StoreError FetchedMedia
  pub sync_ok : Bool
  pub close_ok : Bool
  pub chmod_ok : Bool
  pub rename_ok : Bool
  pub insert_ok : Bool
  pub reread_ok : Bool

abbrev pub is_ok {ε ℓ} : {E : Type ε} {A : Type ℓ} → Result E A → Bool
is_ok (err e) = false
is_ok (ok a) = true

abbrev pub is_some {ℓ} : {A : Type ℓ} → Option A → Bool
is_some none = false
is_some (some a) = true

unfoldable pub file_at : Files → Located → Bool
file_at files (err e) = false
file_at files (ok path) = is_some (find_file path files)

module _ (p : MediaPaths) (o : Outcomes) where
  -- `download` after the temporary file is there.
  unfoldable pub download_into :
      Bytes
      → Result StoreError FetchedMedia
      → Files
      → Files × Result StoreError (FetchedMedia × Bytes)
  download_into tmp (err e) files = (remove_file tmp (write_file tmp o.partial files), err e)
  download_into tmp (ok f) files =
      let full = write_file tmp f.content files in
      if not o.sync_ok
      then (remove_file tmp full, err sync_failed)
      else if not o.close_ok
      then (remove_file tmp full, err close_failed)
      else if not o.chmod_ok
      then (remove_file tmp full, err chmod_failed)
      else (full, ok (f, tmp))

  unfoldable pub download_temp :
      Option Bytes → Files → Files × Result StoreError (FetchedMedia × Bytes)
  download_temp none files = (files, err temp_failed)
  download_temp (some tmp) files = download_into tmp o.fetched files

  -- `download`: `CreateTemp` checks the path again.
  unfoldable pub download : Bytes → Files → Files × Result StoreError (FetchedMedia × Bytes)
  download path files =
      if is_ok (create_temp_dir p path)
      then download_temp o.temp files
      else (files, err temp_failed)

  module _ (authenticated : Bool) (now : ℕ) (between : World → World)
      (origin id fs_id : Bytes) where
    -- The row of `StoreRemoteMedia`.
    unfoldable pub fetched_row : FetchedMedia → RemoteMedia
    fetched_row f = record {
      origin = origin;
      media_id = id;
      media_type = some f.media_type;
      length = some (length f.content);
      upload_name = nullable_string f.upload_name;
      filesystem_id = fs_id;
      quarantined_by = none;
      authenticated = authenticated;
      created_ts = now;
      last_access_ts = now;
      sha256 = nullable_string f.sha256;
    }

    unfoldable pub reread : World → Option RemoteMedia → World × Result StoreError RemoteMedia
    reread w none = (w, err reread_failed)
    reread w (some m) = if o.reread_ok then (w, ok m) else (w, err reread_failed)

    -- After the insert: the row is ours, or another writer's stands there.
    unfoldable pub decide :
        Bytes
        → FetchedMedia
        → World
        → List RemoteMedia × Bool
        → World × Result StoreError RemoteMedia
    decide path f w (rows, true) = (with_remote w rows, ok (fetched_row f))
    decide path f w (rows, false) =
        reread (with_files w (remove_file path w.files)) (get_remote_media w.remote origin id)

    unfoldable pub record_row : Bytes → FetchedMedia → World → World × Result StoreError RemoteMedia
    record_row path f w =
        if o.insert_ok
        then decide path f w (store_remote_media w.remote (fetched_row f))
        else (with_files w (remove_file path w.files), err insert_failed)

    unfoldable pub install :
        Bytes
        → World
        → Files × Result StoreError (FetchedMedia × Bytes)
        → World × Result StoreError RemoteMedia
    install path w (files, err e) = (with_files w files, err e)
    install path w (files, ok (f, tmp)) =
        if o.rename_ok
        then record_row path f (between (with_files w (rename_file tmp path files)))
        else (with_files w (remove_file tmp files), err rename_failed)

    unfoldable pub place : World → Located → World × Result StoreError RemoteMedia
    place w (err e) = (w, err bad_path)
    place w (ok path) =
        if not (is_ok (writable_path p path))
        then (w, err not_writable)
        else if not o.mkdir_ok
        then (w, err mkdir_failed)
        else install path w (download path w.files)

    -- The row that is returned without a fetch: complete, and its file is there.
    unfoldable pub stored_already : World → Option RemoteMedia → Option RemoteMedia
    stored_already w none = none
    stored_already w (some m) =
        if is_null m.length
        then none
        else if file_at w.files (remote_media p origin m.filesystem_id)
        then some m
        else none

    unfoldable pub fetch_unless : World → Option RemoteMedia → World × Result StoreError RemoteMedia
    fetch_unless w (some m) = (w, ok m)
    fetch_unless w none = place w (remote_media p origin fs_id)

    unfoldable pub fetch_and_store : World → World × Result StoreError RemoteMedia
    fetch_and_store w =
        if o.lookup_ok
        then fetch_unless w (stored_already w (get_remote_media w.remote origin id))
        else (w, err query_failed)
