-- ===== src/WriteThrough/Tests.antt =====
-- A write-through into an empty table.
use synapse_media_worker.Decimal.{itoa}
use synapse_media_worker.Store.{rename_found}
use synapse_media_worker.Base.{
  str_eq, cut, has_prefix, contains, ◌≡◌, refl, bytes, [], true, false, some, ok,
}
use synapse_media_worker.Filepath.{join, clean, rel}
use synapse_media_worker.Paths.{MediaPaths, remote_thumbnail, writable_path, create_temp_dir}
use synapse_media_worker.Thumbnail.{ThumbnailRequest}
use synapse_media_worker.WriteThrough.{Shelf, WriteOutcomes, write_through_remote_thumbnail}
use synapse_media_worker.WriteThrough.Recorded.{Wrote}
use synapse_media_worker.WriteThrough.Recorded

abbrev store : MediaPaths
store = record { base = bytes "/srv/media"; uploads_allowed = false }

abbrev req : ThumbnailRequest
req = record {
  width = 32;
  height = 32;
  method = bytes "crop";
  animated = false;
  type = bytes "image/png";
}

abbrev outcomes : WriteOutcomes
outcomes = record {
  mkdir_ok = true;
  temp = some (bytes "/srv/media/remote_thumbnail/.tmp/.thumb-1");
  write_ok = true;
  sync_ok = true;
  close_ok = true;
  chmod_ok = true;
  rename_ok = true;
  stat_ok = true;
  insert_ok = true;
}

abbrev empty : Shelf
empty = record { files = []; rows = [] }

succeeds_test :
    (write_through_remote_thumbnail store outcomes
      (λ files. files)
      (bytes "b.org")
      (bytes "media1")
      (bytes "abcdefgh")
      req
      (bytes "PNG")
      empty).1
    ≡ ok tt
unfolding write_through_remote_thumbnail remote_thumbnail writable_path create_temp_dir join clean
    rel str_eq cut itoa has_prefix contains rename_found
succeeds_test = refl

write_through_remote_thumbnail-Wrote_example :
    Wrote store outcomes
      (λ files. files)
      (bytes "b.org")
      (bytes "media1")
      (bytes "abcdefgh")
      req
      (bytes "PNG")
      empty
      (write_through_remote_thumbnail store outcomes
        (λ files. files)
        (bytes "b.org")
        (bytes "media1")
        (bytes "abcdefgh")
        req
        (bytes "PNG")
        empty)
write_through_remote_thumbnail-Wrote_example =
    Recorded.write_through_remote_thumbnail-Wrote store outcomes (λ files. files) (bytes "b.org")
      (bytes "media1") (bytes "abcdefgh") req (bytes "PNG") empty
