-- ===== src/ThumbnailServer/Tests.antt =====
-- Thumbnails of remote media, before and after one is written through.
use synapse_media_worker.Base.{
  ◌⊎◌, ◌∷◌, str_eq-ne, ◌≢◌, slt64, mul64, str_eq, cut, has_prefix, contains, ◌≡◌, refl, bytes, [],
  Bytes, true, false, none, some, ok, Result,
}
use synapse_media_worker.Filepath.{join, clean, rel}
use synapse_media_worker.Serve.{not_modified}
use synapse_media_worker.Paths.{remote_thumbnail, writable_path, create_temp_dir}
use synapse_media_worker.Database.{RemoteMedia, quarantined}
use synapse_media_worker.Store.{StoreError, find_file, rename_found}
use synapse_media_worker.Download.{ServerConfig, found, hidden_from_legacy, open_at}
use synapse_media_worker.Download.Gate.{IsHandedOut}
use synapse_media_worker.Thumbnail.{
  ThumbnailRequest, ImageLibrary, find_exact, matches, can_generate, base_media_type, generate,
  resized, encode_image,
}
use synapse_media_worker.WriteThrough.{
  Shelf, shelf_files, WriteOutcomes, write_through_remote_thumbnail, get_remote_thumbnails,
}
use synapse_media_worker.ThumbnailServer.{
  ThumbnailServer, Generator, Call, respond_thumbnail, write_through_remote,
  serve_generated_thumbnail,
}
use synapse_media_worker.ThumbnailServer.Remote.{serve_remote_thumbnail}
use synapse_media_worker.ThumbnailServer.Gate.{IsShowable, IsUntouched}
use synapse_media_worker.ThumbnailServer.Next.{IsServedNext}
use synapse_media_worker.ThumbnailServer.Gate
use synapse_media_worker.ThumbnailServer.Next
use synapse_media_worker.ThumbnailServer.Again
use synapse_media_worker.ThumbnailServer.Again.{CacheWorks}
use synapse_media_worker.ThumbCache.{cache_key, path_for, open_entry}
use synapse_media_worker.Decimal.{itoa}

-- Images of one pixel's worth of bytes.
abbrev library : ImageLibrary
library = record {
  Image = Bytes;
  decode = λ b. some b;
  width = λ b. 64;
  height = λ b. 64;
  resize = λ b w h. b;
  crop = λ b box. b;
  encode_png = λ b. some b;
  encode_jpeg = λ b. some b;
}

abbrev generator : Generator
generator = record {
  library = library;
  max_image_pixels = 10000;
  first_frame = λ b. none;
  orientation = λ b. 1;
  orient = λ n b. b;
  acquired = true;
  readable = true;
}

abbrev config : ServerConfig
config = record {
  server_name = bytes "a.org";
  authenticated_media = true;
  default_timeout = 20000;
  max_timeout = 60000;
  fetch_remote = true;
  proxy_fetch_failures = true;
}

abbrev server : ThumbnailServer
server = record {
  config = config;
  paths = record { base = bytes "/srv/media"; uploads_allowed = false };
  write_through_thumbnails = true;
  has_remote = true;
  hash = λ b. b;
  cache_dir = bytes "/var/cache/thumbs";
  generator = generator;
}

abbrev writes : WriteOutcomes
writes = record {
  mkdir_ok = true;
  temp = some (bytes "/srv/media/remote_thumbnail/.tmp/.thumb-1");
  write_ok = true;
  sync_ok = true;
  close_ok = true;
  chmod_ok = true;
  rename_ok = true;
  stat_ok = true;
  insert_ok = true;
}

abbrev call : Call
call = record {
  if_none_match = [];
  boundary = [];
  write = writes;
  cache = record { mkdir = true; temp = none; write = true; close = true; rename = true };
  waited = λ files. files;
  between = λ files. files;
}

abbrev req : ThumbnailRequest
req = record {
  width = 32;
  height = 32;
  method = bytes "crop";
  animated = false;
  type = bytes "image/png";
}

abbrev media : RemoteMedia
media = record {
  origin = bytes "b.org";
  media_id = bytes "media1";
  media_type = some (bytes "image/png");
  length = some 3;
  upload_name = none;
  filesystem_id = bytes "abcdefgh";
  quarantined_by = none;
  authenticated = true;
  created_ts = 5;
  last_access_ts = 5;
  sha256 = none;
}

abbrev empty : Shelf
empty = record { files = []; rows = [] }

abbrev after : Shelf
after =
    (write_through_remote_thumbnail server.paths writes (λ files. files) (bytes "b.org")
      (bytes "media1") (bytes "abcdefgh") req (bytes "PNG") empty).0

abbrev fetched : Result StoreError RemoteMedia
fetched = ok media

written :
    write_through_remote_thumbnail server.paths writes
      (λ files. files)
      (bytes "b.org")
      (bytes "media1")
      (bytes "abcdefgh")
      req
      (bytes "PNG")
      empty
    ≡ (after, ok tt)
unfolding write_through_remote_thumbnail remote_thumbnail writable_path create_temp_dir join clean
    rel str_eq cut itoa has_prefix contains rename_found
written = refl

fresh : find_exact (get_remote_thumbnails empty.rows (bytes "b.org") (bytes "media1")) req ≡ none
unfolding find_exact get_remote_thumbnails
fresh = refl

clear : quarantined media.quarantined_by ≡ false
unfolding quarantined
clear = refl

visible : hidden_from_legacy config media.authenticated true ≡ false
unfolding hidden_from_legacy
visible = refl

write_through-IsServedNext_example :
    IsServedNext server call (bytes "b.org") (bytes "media1") req media after fetched true
write_through-IsServedNext_example =
    Next.write_through-IsServedNext server call (bytes "b.org") (bytes "media1") req media writes
      (λ files. files) (bytes "PNG") empty after fetched true written fresh clear visible

handed_out :
    IsHandedOut
      (serve_remote_thumbnail server call
        (bytes "b.org")
        (bytes "media1")
        req
        (found media)
        fetched
        true
        true
        after).0
unfolding serve_remote_thumbnail respond_thumbnail not_modified write_through_remote_thumbnail
    remote_thumbnail writable_path create_temp_dir join clean rel quarantined hidden_from_legacy
    find_exact get_remote_thumbnails open_at find_file str_eq cut itoa has_prefix contains
    rename_found matches
handed_out = tt

serve_remote_thumbnail-IsShowable_example :
    IsShowable server (found media) fetched true
    ⊎ IsUntouched after (
        serve_remote_thumbnail server call
          (bytes "b.org")
          (bytes "media1")
          req
          (found media)
          fetched
          true
          true
          after)
serve_remote_thumbnail-IsShowable_example =
    Gate.serve_remote_thumbnail-IsShowable server call (bytes "b.org") (bytes "media1") req true
      true after (found media) fetched

-- Local media: its thumbnail goes to the cache.
abbrev hashed : ThumbnailServer
hashed = record {
  config = config;
  paths = record { base = bytes "/srv/media"; uploads_allowed = false };
  write_through_thumbnails = true;
  has_remote = true;
  hash = λ b. bytes "abcdef";
  cache_dir = bytes "/var/cache/thumbs";
  generator = generator;
}

abbrev caching : Call
caching = record {
  if_none_match = [];
  boundary = [];
  write = writes;
  cache = record {
    mkdir = true;
    temp = some (bytes "/var/cache/thumbs/ab/cd/.tmp-1");
    write = true;
    close = true;
    rename = true;
  };
  waited = λ files. files;
  between = λ files. files;
}

abbrev source : Shelf
source = record { files = (bytes "/srv/media/m", bytes "PNG") ∷ []; rows = [] }

cached_only : write_through_remote hashed caching [] [] ≡ false
unfolding write_through_remote str_eq
cached_only = refl

differ :
    str_eq
      (bytes "/var/cache/thumbs/ab/cd/.tmp-1")
      (path_for (bytes "/var/cache/thumbs") (cache_key hashed.hash [] (bytes "media1") req))
    ≡ false
unfolding path_for cache_key join clean str_eq
differ = refl

apart :
    bytes "/var/cache/thumbs/ab/cd/.tmp-1"
    ≢ path_for (bytes "/var/cache/thumbs") (cache_key hashed.hash [] (bytes "media1") req)
apart = str_eq-ne _ _ differ

cache_works :
    CacheWorks caching.cache
      (path_for (bytes "/var/cache/thumbs") (cache_key hashed.hash [] (bytes "media1") req))
      (bytes "/var/cache/thumbs/ab/cd/.tmp-1")
cache_works = record {
  made = refl;
  temporary = refl;
  written = refl;
  closed = refl;
  moved = refl;
  apart = apart;
}

generated :
    IsHandedOut
      (serve_generated_thumbnail hashed caching false []
        (bytes "media1")
        []
        (bytes "/srv/media/m")
        (bytes "image/png")
        req
        source).0
unfolding serve_generated_thumbnail respond_thumbnail not_modified open_entry path_for cache_key
    join clean find_file str_eq cut contains can_generate base_media_type shelf_files generate slt64
    mul64 resized encode_image
generated = tt

serve_generated_thumbnail-again_example :
    serve_generated_thumbnail hashed caching false []
      (bytes "media1")
      []
      (bytes "/srv/media/m")
      (bytes "image/png")
      req
      (serve_generated_thumbnail hashed caching false []
        (bytes "media1")
        []
        (bytes "/srv/media/m")
        (bytes "image/png")
        req
        source).1
    ≡ serve_generated_thumbnail hashed caching false []
        (bytes "media1")
        []
        (bytes "/srv/media/m")
        (bytes "image/png")
        req
        source
serve_generated_thumbnail-again_example =
    Again.serve_generated_thumbnail-again hashed caching false [] (bytes "media1") []
      (bytes "/srv/media/m") (bytes "image/png") req (bytes "/var/cache/thumbs/ab/cd/.tmp-1")
      cached_only cache_works source generated
