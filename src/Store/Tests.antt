-- ===== src/Store/Tests.antt =====
-- A fetch of one file into an empty store at /srv/media.
use synapse_media_worker.Filepath.{
  rel, elements, is_abs, join_slash, relative, resolve, resolve_all, rooted, split_slash, join,
  clean,
}
use synapse_media_worker.Base.{
  contains, cut, has_prefix, str_eq, ◌≡◌, refl, Bytes, bytes, [], ◌∷◌, true, false, ok, some,
}
use synapse_media_worker.Paths.{
  writable_path, create_temp_dir, cut_top, inside, join_in, shard, valid_path_component_char,
  validate_path_component, writable_prefixes, MediaPaths, remote_media,
}
use synapse_media_worker.Database.{nullable_string, store_remote_media, get_remote_media}
use synapse_media_worker.Store.{
  fetch_unless, place, install, download, stored_already, decide, download_into, download_temp,
  fetched_row, file_at, find_file, record_row, remove_file, rename_file, rename_found, reread,
  with_files, with_remote, write_file, World, Outcomes, FetchedMedia, fetch_and_store,
}
use synapse_media_worker.Store.Order.{KeepsFiles}
use synapse_media_worker.Store.Order

abbrev store : MediaPaths
store = record { base = bytes "/srv/media"; uploads_allowed = false }

abbrev file : FetchedMedia
file = record {
  content = bytes "PNG";
  media_type = bytes "image/png";
  upload_name = [];
  sha256 = bytes "ab";
}

abbrev temp : Bytes
temp = bytes "/srv/media/remote_content/.tmp/.incoming-1"

abbrev outcomes : Outcomes
outcomes = record {
  lookup_ok = true;
  mkdir_ok = true;
  temp = some temp;
  partial = [];
  fetched = ok file;
  sync_ok = true;
  close_ok = true;
  chmod_ok = true;
  rename_ok = true;
  insert_ok = true;
  reread_ok = true;
}

abbrev empty : World
empty = record { files = []; local = []; remote = [] }

abbrev path : Bytes
path = bytes "/srv/media/remote_content/b.org/ab/cd/efgh"

located : remote_media store (bytes "b.org") (bytes "abcdefgh") ≡ ok path
unfolding remote_media str_eq clean join has_prefix
located = refl

fetch_test :
    (fetch_and_store store outcomes true 5
      (λ w. w)
      (bytes "b.org")
      (bytes "media1")
      (bytes "abcdefgh")
      empty).0.files
    ≡ (path, bytes "PNG") ∷ []
unfolding fetch_and_store fetch_unless place install download stored_already get_remote_media
    remote_media str_eq clean join rel writable_path contains cut create_temp_dir nullable_string
    store_remote_media elements is_abs join_slash relative resolve resolve_all rooted split_slash
    cut_top inside join_in shard valid_path_component_char validate_path_component writable_prefixes
    decide download_into download_temp fetched_row file_at find_file record_row remove_file
    rename_file rename_found reread with_files with_remote write_file has_prefix
fetch_test = refl

named : (t : Bytes) → outcomes.temp ≡ some t → t ≡ temp
named t e = cc e

fetch_and_store-KeepsFiles_example : KeepsFiles store (
    fetch_and_store store outcomes true 5
      (λ w. w)
      (bytes "b.org")
      (bytes "media1")
      (bytes "abcdefgh")
      empty)
fetch_and_store-KeepsFiles_example =
    Order.fetch_and_store-KeepsFiles store outcomes temp named true 5 (λ w. w) (bytes "b.org")
      (bytes "media1") (bytes "abcdefgh") path located (λ w h. h) (λ w h. h) (λ w. refl) empty tt tt
      tt
