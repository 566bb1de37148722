-- ===== src/Paths/Tests.antt =====
-- Paths of a media store at /srv/media.
use synapse_media_worker.Base.{
  ensure, ◌≡◌, ◌↔◌, refl, true, inl, List, [], ◌∷◌, ◌++◌, Bytes, bytes, ok, arith, contains, cut,
  str_eq, has_prefix,
}
use synapse_media_worker.Decimal.{itoa}
use synapse_media_worker.Filepath.{rooted, join, elements, rel, resolve_all, is_abs, split_slash}
use synapse_media_worker.Paths.{
  refused, MediaPaths, Shard, shard, local_media, remote_media, url_cache, validate_path_component,
  writable_prefixes, writable_path, temp_dir_name, temp_dirs, create_temp_dir, remote_thumbnail,
  writable_path,
}
use synapse_media_worker.Paths.Component.{NoDots}
use synapse_media_worker.Paths.Location
use synapse_media_worker.Paths.Location.{IsBased, base_elements, local_parts}
use synapse_media_worker.Paths.Guard
use synapse_media_worker.Paths.Contained

program : Unit {0}
unfolding local_media remote_media url_cache remote_thumbnail create_temp_dir writable_path
    temp_dirs resolve_all is_abs split_slash join rel itoa str_eq has_prefix contains cut
program = tt

abbrev store : MediaPaths
store = record { base = bytes "/srv/media"; uploads_allowed = true }

abbrev id : Bytes
id = bytes "abcdefgh"

abbrev parts : Shard
parts = record { first = bytes "ab"; second = bytes "cd"; rest = bytes "efgh" }

local_media_test : local_media store id ≡ ok (bytes "/srv/media/local_content/ab/cd/efgh")
unfolding program
local_media_test = refl

url_cache_test :
    url_cache store (bytes "2017-09-28-fsdRDt24DS")
    ≡ ok (bytes "/srv/media/url_cache/2017-09-28/fsdRDt24DS")
unfolding program
url_cache_test = refl

remote_thumbnail_test :
    remote_thumbnail store (bytes "b.org") id 96 32 (bytes "image/png") (bytes "crop")
    ≡ ok (bytes "/srv/media/remote_thumbnail/b.org/ab/cd/efgh/96-32-image-png-crop")
unfolding program
remote_thumbnail_test = refl

create_temp_dir_test :
    create_temp_dir store (bytes "/srv/media/local_content/ab/cd/efgh")
    ≡ ok (bytes "/srv/media/local_content/.tmp")
unfolding program
create_temp_dir_test = refl

is_based : IsBased store
unfolding rooted
is_based = record {
  top = bytes "srv";
  below = bytes "media" ∷ [];
  plain = ground arith;
  is_base = refl;
}

shard_test : shard id ≡ ok parts
unfolding program shard
shard_test = refl

no_dots : NoDots parts
no_dots = record {
  first_name = λ z. cc z;
  second_name = λ z. cc z;
  rest_not_dot = λ z. cc z;
  rest_not_dotdot = λ z. cc z;
}

server_test : validate_path_component (bytes "b.org:8448") ≡ ok tt
unfolding program validate_path_component
server_test = refl

remote_media-injective_example : (bytes "b.org:8448" ≡ bytes "b.org:8448") × (id ≡ id)
remote_media-injective_example =
    Location.remote_media-injective store is_based (bytes "b.org:8448") (bytes "b.org:8448") id id
      parts parts server_test server_test shard_test shard_test no_dots no_dots refl

abbrev dotted : Shard
dotted = record { first = bytes ".."; second = bytes "ab"; rest = bytes "xyz" }

dotted_test : shard (bytes "..abxyz") ≡ ok dotted
unfolding program shard
dotted_test = refl

writable_path_iff_example : (writable_path store (bytes "/srv/media/local_content/ab") ≡ ok tt) ↔ (
    (top : Bytes) × (rest : List Bytes) × (elements (bytes "/srv/media/local_content/ab")
      ≡ base_elements is_based ++ (top ∷ rest))
    × (contains (writable_prefixes store) top ≡ true))
writable_path_iff_example =
    Guard.writable_path_iff store is_based (bytes "srv/media/local_content/ab")

allowed_test : contains (writable_prefixes store) (bytes "local_content") ≡ true
unfolding program
allowed_test = refl

abbrev below_top : List Bytes
below_top = bytes "local_content" ∷ bytes "ab" ∷ bytes "cd" ∷ []

abbrev temp_parts : List Bytes
temp_parts = bytes "local_content" ∷ temp_dir_name ∷ []

built-Contained_example :
    Contained.Contained store is_based (bytes "/srv/media/local_content/ab/cd/efgh")
built-Contained_example =
    Contained.built-Contained store is_based (bytes "b.org") id 96 32 (bytes "image/png")
      (bytes "crop") (bytes "/srv/media/local_content/ab/cd/efgh") (inl local_media_test)

writable_path-local_media_example :
    writable_path store (bytes "/srv/media/local_content/ab/cd/efgh") ≡ ensure true refused
writable_path-local_media_example =
    Guard.writable_path-local_media store is_based id (bytes "/srv/media/local_content/ab/cd/efgh")
      parts shard_test no_dots local_media_test
