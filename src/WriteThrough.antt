-- ===== src/WriteThrough.antt =====
-- db.go and store.go: the table of remote thumbnails, and a generated thumbnail that goes into the
-- media store. The outcome of each call is an input (WriteOutcomes); `between` is what other writers
-- do to the files after the rename.
pub mod Rows
pub mod Recorded
mod Tests
use synapse_media_worker.Base.{
  ℕ, Bool, true, false, not, ◌&&◌, Option, none, some, List, [], ◌∷◌, ◌==◌, if◌then◌else◌, Bytes,
  str_eq, length, Result, ok, err, or_else,
}
use synapse_media_worker.Database.{deref_string}
use synapse_media_worker.Thumbnail.{ThumbnailRequest, ThumbnailRow}
use synapse_media_worker.Paths.{
  MediaPaths, Located, remote_thumbnail, writable_path, create_temp_dir,
}
use synapse_media_worker.Store.{Files, find_file, write_file, remove_file, rename_file, is_ok}

-- The columns of a thumbnail's row, which may all be NULL.
pub record Columns : Type 0 where
  pub width : Option ℕ
  pub height : Option ℕ
  pub type : Option Bytes
  pub method : Option Bytes
  pub length : Option ℕ
  pub filesystem_id : Option Bytes

-- One round of `scanThumbnails`; a local row has no filesystem ID.
unfoldable pub scan_row : Columns → Option ThumbnailRow
scan_row r = elim r.width [
  | none ↦ none
  | some width ↦ elim r.height [
    | none ↦ none
    | some height ↦ elim r.type [
      | none ↦ none
      | some type ↦ elim r.method [
        | none ↦ none
        | some method ↦ some (record {
          width = width;
          height = height;
          type = type;
          method = method;
          length = or_else r.length 0;
          filesystem_id = deref_string r.filesystem_id;
        })
      ]
    ]
  ]
]

abbrev pub put_scanned : Option ThumbnailRow → List ThumbnailRow → List ThumbnailRow
put_scanned none rows = rows
put_scanned (some row) rows = row ∷ rows

unfoldable pub scan_thumbnails : List Columns → List ThumbnailRow
unfolding scan_row
scan_thumbnails [] = []
scan_thumbnails (r ∷ rs) = put_scanned (scan_row r) (scan_thumbnails rs)

-- A row of `remote_media_cache_thumbnails`.
pub record RemoteThumbnail : Type 0 where
  pub origin : Bytes
  pub media_id : Bytes
  pub columns : Columns

unfoldable pub is_of : RemoteThumbnail → Bytes → Bytes → Bool
is_of r origin id = str_eq r.origin origin && str_eq r.media_id id

unfoldable pub select_thumbnails : List RemoteThumbnail → Bytes → Bytes → List Columns
unfolding is_of
select_thumbnails [] origin id = []
select_thumbnails (r ∷ rs) origin id =
    let rest = select_thumbnails rs origin id in
    if is_of r origin id then r.columns ∷ rest else rest

unfoldable pub get_remote_thumbnails : List RemoteThumbnail → Bytes → Bytes → List ThumbnailRow
unfolding select_thumbnails scan_thumbnails
get_remote_thumbnails rs origin id = scan_thumbnails (select_thumbnails rs origin id)

abbrev pub is_nat : Option ℕ → ℕ → Bool
is_nat none n = false
is_nat (some m) n = m == n

abbrev pub is_text : Option Bytes → Bytes → Bool
is_text none s = false
is_text (some t) s = str_eq t s

-- The conflict of the unique index; a NULL is in conflict with nothing.
unfoldable pub conflicts : Columns → ThumbnailRow → Bool
conflicts r t =
    is_nat r.width t.width
    && is_nat r.height t.height
    && is_text r.method t.method
    && is_text r.type t.type

unfoldable pub new_row : Bytes → Bytes → Bytes → ThumbnailRow → RemoteThumbnail
new_row origin id fs_id t = record {
  origin = origin;
  media_id = id;
  columns = record {
    width = some t.width;
    height = some t.height;
    type = some t.type;
    method = some t.method;
    length = some t.length;
    filesystem_id = some fs_id;
  };
}

-- The update leaves the filesystem ID alone.
unfoldable pub with_length : RemoteThumbnail → ℕ → RemoteThumbnail
with_length r n = record {
  origin = r.origin;
  media_id = r.media_id;
  columns = record {
    width = r.columns.width;
    height = r.columns.height;
    type = r.columns.type;
    method = r.columns.method;
    length = some n;
    filesystem_id = r.columns.filesystem_id;
  };
}

-- `StoreRemoteThumbnail`: an INSERT, or an update of the row that it is in conflict with.
unfoldable pub store_remote_thumbnail :
    List RemoteThumbnail → Bytes → Bytes → Bytes → ThumbnailRow → List RemoteThumbnail
unfolding is_of conflicts new_row with_length
store_remote_thumbnail [] origin id fs_id t = new_row origin id fs_id t ∷ []
store_remote_thumbnail (r ∷ rs) origin id fs_id t =
    let rest = store_remote_thumbnail rs origin id fs_id t in
    if is_of r origin id && conflicts r.columns t then with_length r t.length ∷ rs else r ∷ rest

-- The files, and the table of remote thumbnails.
pub record Shelf : Type 0 where
  pub files : Files
  pub rows : List RemoteThumbnail

unfoldable pub shelf_files : Shelf → Files → Shelf
shelf_files s files = record { files = files; rows = s.rows }

pub data WriteError : Type 0 where
  bad_path not_writable mkdir_failed temp_failed write_failed sync_failed : WriteError
  close_failed chmod_failed rename_failed stat_failed insert_failed : WriteError

-- Which of the calls succeed; `temp` is the path of the temporary file.
pub record WriteOutcomes : Type 0 where
  pub mkdir_ok : Bool
  pub temp : Option Bytes
  pub write_ok : Bool
  pub sync_ok : Bool
  pub close_ok : Bool
  pub chmod_ok : Bool
  pub rename_ok : Bool
  pub stat_ok : Bool
  pub insert_ok : Bool

abbrev pub WriteResult : Type 0
WriteResult = Result WriteError (Unit {0})

module _ (p : MediaPaths) (o : WriteOutcomes) (between : Files → Files) (origin id fs_id : Bytes)
    (req : ThumbnailRequest) (content : Bytes) where
  -- The row for what `os.Stat` finds.
  unfoldable pub stat_row : Bytes → ThumbnailRow
  stat_row there = record {
    width = req.width;
    height = req.height;
    type = req.type;
    method = req.method;
    length = length there;
    filesystem_id = [];
  }

  unfoldable pub record_thumbnail : Shelf → Option Bytes → Shelf × WriteResult
  unfolding stat_row store_remote_thumbnail
  record_thumbnail s none = (s, err stat_failed)
  record_thumbnail s (some there) =
      if not o.stat_ok
      then (s, err stat_failed)
      else if not o.insert_ok
      then (s, err insert_failed)
      else (
        record {
          files = s.files;
          rows = store_remote_thumbnail s.rows origin id fs_id (stat_row there);
        },
        ok tt,
      )

  unfoldable pub describe : Bytes → Shelf → Shelf × WriteResult
  unfolding record_thumbnail find_file
  describe path s = record_thumbnail s (find_file path s.files)

  -- From the temporary file on.
  unfoldable pub install_thumbnail : Bytes → Shelf → Option Bytes → Shelf × WriteResult
  unfolding describe shelf_files write_file remove_file rename_file
  install_thumbnail path s none = (s, err temp_failed)
  install_thumbnail path s (some tmp) =
      let full = write_file tmp content s.files in
      let gone = shelf_files s (remove_file tmp full) in
      if not o.write_ok
      then (gone, err write_failed)
      else if not o.sync_ok
      then (gone, err sync_failed)
      else if not o.close_ok
      then (gone, err close_failed)
      else if not o.chmod_ok
      then (gone, err chmod_failed)
      else if not o.rename_ok
      then (gone, err rename_failed)
      else describe path (shelf_files s (between (rename_file tmp path full)))

  unfoldable pub place_thumbnail : Shelf → Located → Shelf × WriteResult
  unfolding install_thumbnail writable_path create_temp_dir
  place_thumbnail s (err e) = (s, err bad_path)
  place_thumbnail s (ok path) =
      if not (is_ok (writable_path p path))
      then (s, err not_writable)
      else if not o.mkdir_ok
      then (s, err mkdir_failed)
      else if not (is_ok (create_temp_dir p path))
      then (s, err temp_failed)
      else install_thumbnail path s o.temp

  -- `WriteThroughRemoteThumbnail`.
  unfoldable pub write_through_remote_thumbnail : Shelf → Shelf × WriteResult
  unfolding place_thumbnail remote_thumbnail
  write_through_remote_thumbnail s =
      place_thumbnail s (remote_thumbnail p origin fs_id req.width req.height req.type req.method)
