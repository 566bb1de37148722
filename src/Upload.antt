-- ===== src/Upload.antt =====
-- upload.go: media from local users. As for a fetch, the outcomes of the system calls and queries of
-- one request are its inputs (UploadOutcomes); SHA-256 is the parameter `hash`.
pub mod Staged
pub mod Sync
pub mod Async
pub mod Request
mod Tests
use synapse_media_worker.Base.{
  ℕ, ◌+◌, ◌-◌, ◌*◌, ◌≡◌, Bool, true, false, not, ◌&&◌, ◌||◌, Option, none, some, List, [], ◌∷◌,
  ◌++◌, ltb, leb, ◌==◌, if◌then◌else◌, Bytes, bytes, str_eq, length, take, Result, ok, err,
}
use synapse_media_worker.Decimal.{parse_int}
use synapse_media_worker.Paths.{MediaPaths, Located, local_media, writable_path, create_temp_dir}
use synapse_media_worker.Database.{
  LocalMedia, Completion, get_local_media, insert_local_media, completed_row, pending_row,
  complete_local_media, count_pending_media, is_hash_quarantined, is_null,
}
use synapse_media_worker.Limits.{MediaUploadLimit, exceeded_limit}
use synapse_media_worker.Store.{
  Files, World, with_files, find_file, remove_file, write_file, rename_file, is_ok,
}
use synapse_media_worker.Base.{slt64, add64}

abbrev pub quarantined_by_system : Bytes
quarantined_by_system = bytes "system"

pub data UploadError : Type 0 where
  cancelled bad_path not_writable mkdir_failed temp_failed read_failed too_large : UploadError
  sync_failed close_failed chmod_failed : UploadError

-- The answers to an upload. `failed` is the 500 of `internalError`.
pub data UploadReply : Type 0 where
  uploaded : Bytes → UploadReply
  reserved : Bytes → ℕ → UploadReply
  refused : UploadError → UploadReply
  over_quota : MediaUploadLimit → UploadReply
  limited : ℕ → UploadReply
  failed : UploadReply
  not_local unknown_media forbidden cannot_overwrite expired : UploadReply
  no_length bad_length header_too_large : UploadReply

pub record StoredUpload : Type 0 where
  pub path : Bytes
  pub tmp_path : Bytes
  pub length : ℕ
  pub sha256 : Bytes

pub record UploadOutcomes : Type 0 where
  pub acquired : Bool
  pub mkdir_ok : Bool
  pub temp : Option Bytes
  pub body_ok : Bool
  pub sync_ok : Bool
  pub close_ok : Bool
  pub chmod_ok : Bool
  pub lookup_ok : Bool
  pub quarantine_ok : Bool
  pub usage_ok : Bool
  pub rename_ok : Bool
  pub row_ok : Bool

-- The settings that uploads read, the size in bytes, a 64-bit pattern, and the time in milliseconds.
pub record UploadConfig : Type 0 where
  pub server_name : Bytes
  pub max_upload_size : ℕ
  pub max_pending : ℕ
  pub unused_expiration : ℕ
  pub limits : List MediaUploadLimit
  pub authenticated : Bool

-- `mxc://` and the server's name and the media's ID.
unfoldable pub content_uri : UploadConfig → Bytes → Bytes
content_uri c id = bytes "mxc://" ++ (c.server_name ++ (b'/' ∷ id))

-- The media type, the upload name and the length of the headers, each empty where it is missing.
unfoldable pub upload_metadata :
    UploadConfig → Bytes → Bytes → Bytes → Result UploadReply (Bytes × Bytes × ℕ)
upload_metadata c raw content_type filename =
    if str_eq raw [] then err no_length else elim (parse_int raw) [
      | none ↦ err bad_length
      | some n ↦
          if slt64 n 0
          then err bad_length
          else if slt64 c.max_upload_size n
          then err header_too_large
          else ok (
            (if str_eq content_type [] then bytes "application/octet-stream" else content_type),
            filename,
            n,
          )
    ]

-- `commit`: on failure the temporary file goes.
unfoldable pub commit : UploadOutcomes → StoredUpload → Files → Files × Bool
commit o s files =
    if o.rename_ok
    then (rename_file s.tmp_path s.path files, true)
    else (remove_file s.tmp_path files, false)

unfoldable pub discard : StoredUpload → Files → Files
discard s files = remove_file s.tmp_path files

unfoldable pub quarantine_for : World → Bytes → Bytes
quarantine_for w sha =
    if is_hash_quarantined w.local w.remote sha then quarantined_by_system else []

-- What `io.LimitReader` lets through with one byte more than the maximum: the sum is one of 64-bit
-- numbers, and nothing is read where it is not positive.
unfoldable pub read_limited : ℕ → Bytes → Bytes
unfolding add64 slt64
read_limited max body = let limit = add64 max 1 in if slt64 0 limit then take limit body else []

module _ (hash : Bytes → Bytes) (p : MediaPaths) (c : UploadConfig) (o : UploadOutcomes) where
  -- `store` from the temporary file on.
  unfoldable pub stage_into :
      Bytes → Bytes → Bytes → Files → Files × Result UploadError StoredUpload
  stage_into path tmp body files =
      let read = read_limited c.max_upload_size body in
      let written = write_file tmp read files in
      let gone = remove_file tmp written in
      if not o.body_ok
      then (gone, err read_failed)
      else if slt64 c.max_upload_size (length read)
      then (gone, err too_large)
      else if not o.sync_ok
      then (gone, err sync_failed)
      else if not o.close_ok
      then (gone, err close_failed)
      else if not o.chmod_ok
      then (gone, err chmod_failed)
      else (
        written,
        ok (record { path = path; tmp_path = tmp; length = length read; sha256 = hash read }),
      )

  unfoldable pub stage_temp :
      Bytes → Option Bytes → Bytes → Files → Files × Result UploadError StoredUpload
  stage_temp path none body files = (files, err temp_failed)
  stage_temp path (some tmp) body files = stage_into path tmp body files

  unfoldable pub stage_at : Located → Bytes → Files → Files × Result UploadError StoredUpload
  stage_at (err e) body files = (files, err bad_path)
  stage_at (ok path) body files =
      if not (is_ok (writable_path p path))
      then (files, err not_writable)
      else if not o.mkdir_ok
      then (files, err mkdir_failed)
      else if not (is_ok (create_temp_dir p path))
      then (files, err temp_failed)
      else stage_temp path o.temp body files

  -- `store`.
  unfoldable pub stage : Bytes → Bytes → Files → Files × Result UploadError StoredUpload
  stage id body files =
      if o.acquired then stage_at (local_media p id) body files else (files, err cancelled)

  -- `withinUploadLimits`: `none` is within.
  unfoldable pub quota_reply : Result (Unit {0}) (Option MediaUploadLimit) → Option UploadReply
  quota_reply (err e) = some failed
  quota_reply (ok none) = none
  quota_reply (ok (some limit)) = some (over_quota limit)

  unfoldable pub within_limits : World → Bytes → ℕ → ℕ → Option UploadReply
  within_limits w user size now =
      if o.usage_ok
      then quota_reply (exceeded_limit c.limits w.local user size now)
      else some failed

  module _ (user : Bytes) (now : ℕ) (id media_type upload_name : Bytes) where
    -- `handleUpload` from `commit` on: the file lands, and the row follows.
    unfoldable pub insert_row :
        World → StoredUpload → Option (List LocalMedia) → World × UploadReply
    insert_row w s none = (with_files w (remove_file s.path w.files), failed)
    insert_row w s (some rows) =
        if o.row_ok
        then (
          record { files = w.files; local = rows; remote = w.remote },
          uploaded (content_uri c id),
        )
        else (with_files w (remove_file s.path w.files), failed)

    unfoldable pub committed : World → StoredUpload → Bytes → Files × Bool → World × UploadReply
    committed w s by (files, false) = (with_files w files, failed)
    committed w s by (files, true) = insert_row (with_files w files) s (
        insert_local_media w.local
          (completed_row id media_type upload_name s.length user now c.authenticated s.sha256 by))

    unfoldable pub admit : World → StoredUpload → Option UploadReply → World × UploadReply
    admit w s (some reply) = (with_files w (discard s w.files), reply)
    admit w s none = committed w s (quarantine_for w s.sha256) (commit o s w.files)

    unfoldable pub store_sync :
        World → Files × Result UploadError StoredUpload → World × UploadReply
    store_sync w (files, err e) = (with_files w files, refused e)
    store_sync w (files, ok s) =
        if o.quarantine_ok
        then admit (with_files w files) s (within_limits w user s.length (now * 1000000))
        else (with_files w (discard s files), failed)

    -- `handleUpload` for an authenticated user whose headers are in order.
    unfoldable pub handle_upload : Bytes → World → World × UploadReply
    handle_upload body w = store_sync w (stage id body w.files)

    -- `handleAsyncUpload` from `CompleteLocalMedia` on: the row is won, and the file follows.
    unfoldable pub install_won : World → StoredUpload → Files × Bool → World × UploadReply
    install_won w s (files, true) = (with_files w files, uploaded (content_uri c id))
    install_won w s (files, false) = (with_files w files, failed)

    unfoldable pub completed_async :
        World → StoredUpload → List LocalMedia × Bool → World × UploadReply
    completed_async w s (rows, false) = (with_files w (discard s w.files), cannot_overwrite)
    completed_async w s (rows, true) =
        install_won (record { files = w.files; local = rows; remote = w.remote }) s
          (commit o s w.files)

    unfoldable pub admit_async : World → StoredUpload → Option UploadReply → World × UploadReply
    admit_async w s (some reply) = (with_files w (discard s w.files), reply)
    admit_async w s none =
        if o.row_ok
        then completed_async w s (
            complete_local_media w.local id (record {
              media_type = media_type;
              upload_name = upload_name;
              length = s.length;
              sha256 = s.sha256;
              quarantined_by = quarantine_for w s.sha256;
            }))
        else (with_files w (discard s w.files), failed)

    -- `others` is what other requests do between the reading of the body and the database's answer.
    unfoldable pub store_async :
        (World → World) → World → Files × Result UploadError StoredUpload → World × UploadReply
    store_async others w (files, err e) = (with_files w files, refused e)
    store_async others w (files, ok s) =
        let w1 = others (with_files w files) in
        if o.quarantine_ok
        then admit_async w1 s (within_limits w1 user s.length (now * 1000000))
        else (with_files w1 (discard s w1.files), failed)

    -- The checks of `handleAsyncUpload` on the row: unknown, another's, completed, expired.
    unfoldable pub check_pending : Option LocalMedia → Option UploadReply
    check_pending none = some unknown_media
    check_pending (some m) =
        if not (str_eq m.user_id user)
        then some forbidden
        else if not (is_null m.length)
        then some cannot_overwrite
        else if ltb m.created_ts (now - c.unused_expiration)
        then some expired
        else none

    unfoldable pub answer_async :
        (World → World) → Bytes → World → Option UploadReply → World × UploadReply
    answer_async others body w (some reply) = (w, reply)
    answer_async others body w none = store_async others w (stage id body w.files)

    -- `handleAsyncUpload` for an authenticated user whose headers are in order.
    unfoldable pub handle_async_upload :
        (World → World) → Bytes → Bytes → World → World × UploadReply
    handle_async_upload others server body w =
        if not (str_eq server c.server_name)
        then (w, not_local)
        else if o.lookup_ok
        then answer_async others body w (check_pending (get_local_media w.local id))
        else (w, failed)

    unfoldable pub reserve : World → Option (List LocalMedia) → World × UploadReply
    reserve w none = (w, failed)
    reserve w (some rows) =
        if o.row_ok
        then (
          record { files = w.files; local = rows; remote = w.remote },
          reserved (content_uri c id) (now + c.unused_expiration),
        )
        else (w, failed)

    -- `handleCreateMedia` for an authenticated user. A maximum of 0 is none.
    unfoldable pub handle_create_media : World → World × UploadReply
    handle_create_media w =
        let (pending, oldest) = count_pending_media w.local user (now - c.unused_expiration) in
        if not o.lookup_ok
        then (w, failed)
        else if ltb 0 c.max_pending && leb c.max_pending pending
        then (w, limited (oldest + c.unused_expiration - now))
        else reserve w (insert_local_media w.local (pending_row id now user c.authenticated))
