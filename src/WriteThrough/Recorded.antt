-- ===== src/WriteThrough/Recorded.antt =====
-- What a write-through leaves behind.
use synapse_media_worker.Base.{
  ◌≡◌, refl, Bool, true, false, not, Option, none, some, Bytes, length, ok, err, if◌then◌else◌,
}
use synapse_media_worker.Thumbnail.{ThumbnailRequest, ThumbnailRow, find_exact}
use synapse_media_worker.Thumbnail.Choice.{Agrees}
use synapse_media_worker.Paths.{
  MediaPaths, Located, remote_thumbnail, writable_path, create_temp_dir,
}
use synapse_media_worker.Store.{Files, find_file, write_file, remove_file, rename_file, is_ok}
use synapse_media_worker.WriteThrough.{
  Shelf, shelf_files, WriteOutcomes, WriteResult, write_failed, sync_failed, close_failed,
  chmod_failed, rename_failed, stat_failed, insert_failed, not_writable, mkdir_failed, temp_failed,
  get_remote_thumbnails, stat_row, record_thumbnail, describe, install_thumbnail, place_thumbnail,
  write_through_remote_thumbnail,
}
use synapse_media_worker.WriteThrough.Rows.{Replaces, store_remote_thumbnail-Replaces}

-- The file of a thumbnail is in its place, and a request for the thumbnail finds a row with the length
-- of that file.
pub record Described (p : MediaPaths) (origin id fs_id : Bytes) (req : ThumbnailRequest)
    (before after : Shelf) : Type 0 where
  pub path : Bytes
  pub there : Bytes
  pub row : ThumbnailRow
  pub located : remote_thumbnail p origin fs_id req.width req.height req.type req.method ≡ ok path
  pub stored : find_file path after.files ≡ some there
  pub found : find_exact (get_remote_thumbnails after.rows origin id) req ≡ some row
  pub replaces :
      Replaces
        (find_exact (get_remote_thumbnails before.rows origin id) req)
        fs_id
        (length there)
        row

module _ (p : MediaPaths) (o : WriteOutcomes) (between : Files → Files) (origin id fs_id : Bytes)
    (req : ThumbnailRequest) (content : Bytes) where
  -- How a write-through ends: with the table as it was, or with the thumbnail in both places.
  abbrev pub Wrote : Shelf → Shelf × WriteResult → Type 0
  Wrote before (after, err e) = after.rows ≡ before.rows
  Wrote before (after, ok u) = Described p origin id fs_id req before after

  branch :
      (before : Shelf) (b : Bool) (x y : Shelf × WriteResult)
      → Wrote before x
      → Wrote before y
      → Wrote before (if b then x else y)
  branch before true x y h k = h
  branch before false x y h k = k

  stat_row-Agrees :
      (there : Bytes) → Agrees (stat_row p o between origin id fs_id req content there) req
  unfolding stat_row
  stat_row-Agrees there = record {
    same_width = refl;
    same_height = refl;
    same_method = refl;
    same_type = refl;
  }

  module _ (path : Bytes)
      (located : remote_thumbnail p origin fs_id req.width req.height req.type req.method
        ≡ ok path) where
    record_thumbnail-Wrote :
        (s : Shelf) (files : Files) (there : Option Bytes)
        → find_file path files ≡ there
        → Wrote s
            (record_thumbnail p o between origin id fs_id req content (shelf_files s files) there)
    unfolding record_thumbnail stat_row shelf_files
    record_thumbnail-Wrote s files none h = refl
    record_thumbnail-Wrote s files (some there) h =
        let new = stat_row p o between origin id fs_id req content there in
        let (row, found, replaces) =
          store_remote_thumbnail-Replaces origin id fs_id new req (stat_row-Agrees there) s.rows in
        branch s (not o.stat_ok) (shelf_files s files, err stat_failed) _ refl
          (branch s (not o.insert_ok) (shelf_files s files, err insert_failed) _ refl
            (record {
              path = path;
              there = there;
              row = row;
              located = located;
              stored = h;
              found = found;
              replaces = replaces;
            }))

    install_thumbnail-Wrote :
        (s : Shelf) (temp : Option Bytes)
        → Wrote s (install_thumbnail p o between origin id fs_id req content path s temp)
    unfolding install_thumbnail describe shelf_files
    install_thumbnail-Wrote s none = refl
    install_thumbnail-Wrote s (some tmp) =
        let full = write_file tmp content s.files in
        let gone = shelf_files s (remove_file tmp full) in
        let moved = between (rename_file tmp path full) in
        branch s (not o.write_ok) (gone, err write_failed) _ refl
          (branch s (not o.sync_ok) (gone, err sync_failed) _ refl
            (branch s (not o.close_ok) (gone, err close_failed) _ refl
              (branch s (not o.chmod_ok) (gone, err chmod_failed) _ refl
                (branch s (not o.rename_ok) (gone, err rename_failed) _ refl
                  (record_thumbnail-Wrote s moved (find_file path moved) refl)))))

  place_thumbnail-Wrote :
      (s : Shelf) (at : Located)
      → remote_thumbnail p origin fs_id req.width req.height req.type req.method ≡ at
      → Wrote s (place_thumbnail p o between origin id fs_id req content s at)
  unfolding place_thumbnail
  place_thumbnail-Wrote s (err e) h = refl
  place_thumbnail-Wrote s (ok path) h =
      branch s (not (is_ok (writable_path p path))) (s, err not_writable) _ refl
        (branch s (not o.mkdir_ok) (s, err mkdir_failed) _ refl
          (branch s (not (is_ok (create_temp_dir p path))) (s, err temp_failed) _ refl
            (install_thumbnail-Wrote path h s o.temp)))

  -- A write-through that fails leaves the table of thumbnails as it was. One that succeeds leaves a
  -- file at the thumbnail's path and a row that the same request finds, with the length of what is in
  -- that file then, whoever wrote it last; the row has the new filesystem ID, or that of the row that
  -- the request found before.
  pub write_through_remote_thumbnail-Wrote :
      (s : Shelf)
      → Wrote s (write_through_remote_thumbnail p o between origin id fs_id req content s)
  unfolding write_through_remote_thumbnail
  write_through_remote_thumbnail-Wrote s =
      place_thumbnail-Wrote s
        (remote_thumbnail p origin fs_id req.width req.height req.type req.method) refl
