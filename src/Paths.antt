-- ===== src/Paths.antt =====
-- paths.go: where media lies in the media store, and which of it may be written.
pub mod Component
pub mod Location
pub mod Guard
pub mod Contained
mod Tests
use synapse_media_worker.Base.{
  ℕ, zero, suc, ◌≡◌, Bool, true, false, not, ◌&&◌, ◌||◌, Option, none, some, List, [], ◌∷◌, ◌++◌,
  ltb, leb, ◌==◌, if◌then◌else◌, Bytes, bytes, str_eq, contains, has_prefix, cut, is_digit, length,
  take, drop, map, Result, ok, err, ◌>>=◌, ◌>>◌, ensure,
}
use synapse_media_worker.Decimal.{itoa}
use synapse_media_worker.Filepath.{clean, join, rel, is_abs}

pub data PathError : Type 0 where
  invalid_component too_short not_a_media_type escapes outside_store refused : PathError

abbrev pub Located : Type 0
Located = Result PathError Bytes

-- `validPathComponentChar`. A byte of 128 or more starts or continues a rune that is refused too.
unfoldable pub valid_path_component_char : ℕ → Bool
valid_path_component_char r =
    (leb b'a' r && leb r b'z')
    || (leb b'A' r && leb r b'Z')
    || (leb b'0' r && leb r b'9')
    || r == b'_'
    || r == b'-'
    || r == b'.'
    || r == b'['
    || r == b']'
    || r == b':'

valid_chars : Bytes → Bool
unfolding valid_path_component_char
valid_chars [] = true
valid_chars (r ∷ s) = valid_path_component_char r && valid_chars s

unfoldable pub validate_path_component : Bytes → Result PathError (Unit {0})
unfolding valid_chars
validate_path_component component =
    if str_eq component [] || str_eq component (bytes ".") || str_eq component (bytes "..")
    then err invalid_component
    else ensure (valid_chars component) invalid_component

pub record Shard : Type 0 where
  pub first : Bytes
  pub second : Bytes
  pub rest : Bytes

unfoldable pub shard : Bytes → Result PathError Shard
unfolding validate_path_component
shard id = do
  validate_path_component id
  ensure (not (ltb (length id) 5)) too_short
  ok (record { first = take 2 id; second = take 2 (drop 2 id); rest = drop 4 id })

-- The two halves of a media type, neither of them empty.
unfoldable pub media_type_halves : Bytes → Result PathError (Bytes × Bytes)
media_type_halves content_type = elim (cut b'/' content_type) [
  | none ↦ err not_a_media_type
  | some (top, sub) ↦ if str_eq top [] || str_eq sub [] then err not_a_media_type else ok (top, sub)
]

abbrev dash : Bytes → Bytes → Bytes
dash a b = a ++ (b'-' ∷ b)

unfoldable pub thumbnail_file_name : ℕ → ℕ → Bytes → Bytes → Located
unfolding media_type_halves validate_path_component
thumbnail_file_name width height content_type method = do
  (top, sub) ← media_type_halves content_type
  let name = dash (itoa width) (dash (itoa height) (dash top (dash sub method)))
  validate_path_component name
  ok name

unfoldable pub legacy_thumbnail_file_name : ℕ → ℕ → Bytes → Located
unfolding media_type_halves validate_path_component
legacy_thumbnail_file_name width height content_type = do
  (top, sub) ← media_type_halves content_type
  let name = dash (itoa width) (dash (itoa height) (dash top sub))
  validate_path_component name
  ok name

pub record MediaPaths : Type 0 where
  pub base : Bytes
  pub uploads_allowed : Bool

-- `cleanAbs`, where `cwd` is the working directory and `filepath.Abs` does not fail.
unfoldable pub clean_abs : Bytes → Bytes → Bytes
clean_abs cwd p = clean (if is_abs p then clean p else join (cwd ∷ p ∷ []))

unfoldable pub new_media_paths : Bytes → Bytes → MediaPaths
unfolding clean_abs
new_media_paths cwd base = record { base = clean_abs cwd base; uploads_allowed = false }

unfoldable pub allow_upload_writes : MediaPaths → MediaPaths
allow_upload_writes p = record p { uploads_allowed = true }

-- Whether a cleaned path is the base directory or lies below it.
unfoldable pub inside : MediaPaths → Bytes → Bool
inside p full = str_eq full p.base || has_prefix full (p.base ++ bytes "/")

unfoldable pub join_in : MediaPaths → List Bytes → Located
unfolding inside
join_in p components =
    let full = clean (join (p.base ∷ components)) in if inside p full then ok full else err escapes

unfoldable pub local_media : MediaPaths → Bytes → Located
unfolding shard join_in
local_media p media_id = do
  s ← shard media_id
  join_in p (bytes "local_content" ∷ s.first ∷ s.second ∷ s.rest ∷ [])

unfoldable pub local_thumbnail : MediaPaths → Bytes → ℕ → ℕ → Bytes → Bytes → Located
unfolding shard join_in thumbnail_file_name
local_thumbnail p media_id width height content_type method = do
  s ← shard media_id
  name ← thumbnail_file_name width height content_type method
  join_in p (bytes "local_thumbnails" ∷ s.first ∷ s.second ∷ s.rest ∷ name ∷ [])

unfoldable pub remote_media : MediaPaths → Bytes → Bytes → Located
unfolding shard join_in
remote_media p server_name filesystem_id = do
  validate_path_component server_name
  s ← shard filesystem_id
  join_in p (bytes "remote_content" ∷ server_name ∷ s.first ∷ s.second ∷ s.rest ∷ [])

unfoldable pub remote_thumbnail_dir : Bytes → Bytes → Located
unfolding shard
remote_thumbnail_dir server_name filesystem_id = do
  validate_path_component server_name
  s ← shard filesystem_id
  ok (join (bytes "remote_thumbnail" ∷ server_name ∷ s.first ∷ s.second ∷ s.rest ∷ []))

unfoldable pub remote_thumbnail : MediaPaths → Bytes → Bytes → ℕ → ℕ → Bytes → Bytes → Located
unfolding remote_thumbnail_dir join_in thumbnail_file_name
remote_thumbnail p server_name filesystem_id width height content_type method = do
  dir ← remote_thumbnail_dir server_name filesystem_id
  name ← thumbnail_file_name width height content_type method
  join_in p (dir ∷ name ∷ [])

unfoldable pub remote_thumbnail_legacy : MediaPaths → Bytes → Bytes → ℕ → ℕ → Bytes → Located
unfolding remote_thumbnail_dir join_in legacy_thumbnail_file_name
remote_thumbnail_legacy p server_name filesystem_id width height content_type = do
  dir ← remote_thumbnail_dir server_name filesystem_id
  name ← legacy_thumbnail_file_name width height content_type
  join_in p (dir ∷ name ∷ [])

all_digits : Bytes → Bool
all_digits [] = true
all_digits (c ∷ s) = is_digit c && all_digits s

-- `newFormatIDRe`: four digits, two and two, with dashes between, at the start.
unfoldable pub is_new_format_id : Bytes → Bool
unfolding all_digits is_digit
is_new_format_id id =
    not (ltb (length id) 10)
    && all_digits (take 4 id)
    && str_eq (take 1 (drop 4 id)) (bytes "-")
    && all_digits (take 2 (drop 5 id))
    && str_eq (take 1 (drop 7 id)) (bytes "-")
    && all_digits (take 2 (drop 8 id))

unfoldable pub url_cache : MediaPaths → Bytes → Located
unfolding shard join_in is_new_format_id
url_cache p media_id = do
  validate_path_component media_id
  if is_new_format_id media_id
      then (ensure (not (ltb (length media_id) 12)) too_short
          >> join_in p (bytes "url_cache" ∷ take 10 media_id ∷ drop 11 media_id ∷ []))
      else (shard media_id >>= λ s.
          join_in p (bytes "url_cache" ∷ s.first ∷ s.second ∷ s.rest ∷ []))

unfoldable pub url_cache_thumbnail : MediaPaths → Bytes → ℕ → ℕ → Bytes → Bytes → Located
unfolding shard join_in is_new_format_id thumbnail_file_name
url_cache_thumbnail p media_id width height content_type method = do
  validate_path_component media_id
  name ← thumbnail_file_name width height content_type method
  if is_new_format_id media_id
      then (ensure (not (ltb (length media_id) 12)) too_short
          >> join_in p
              (bytes "url_cache_thumbnails" ∷ take 10 media_id ∷ drop 11 media_id ∷ name ∷ []))
      else (shard media_id >>= λ s.
          join_in p (bytes "url_cache_thumbnails" ∷ s.first ∷ s.second ∷ s.rest ∷ name ∷ []))

abbrev pub remote_writable_prefixes : List Bytes
remote_writable_prefixes = bytes "remote_content" ∷ bytes "remote_thumbnail" ∷ []

abbrev pub upload_writable_prefixes : List Bytes
upload_writable_prefixes = bytes "local_content" ∷ bytes "local_thumbnails" ∷ []

unfoldable pub writable_prefixes : MediaPaths → List Bytes
writable_prefixes p =
    if p.uploads_allowed
    then remote_writable_prefixes ++ upload_writable_prefixes
    else remote_writable_prefixes

-- `strings.Cut(rel, "/")`: with no separator the whole is the first part.
unfoldable pub cut_top : Bytes → Bytes × Bytes
cut_top r = elim (cut b'/' r) [ none ↦ (r, []) | some parts ↦ parts ]

unfoldable pub writable_path : MediaPaths → Bytes → Result PathError (Unit {0})
unfolding inside writable_prefixes cut_top
writable_path p path =
    let target = clean path in
    do
      ensure (inside p target) outside_store
      ensure (contains (writable_prefixes p) (cut_top (rel p.base target)).0) refused

abbrev pub temp_dir_name : Bytes
temp_dir_name = bytes ".tmp"

-- `CreateTemp` up to the calls of the operating system: the directory of the temporary file.
unfoldable pub create_temp_dir : MediaPaths → Bytes → Located
create_temp_dir p final_path = do
  writable_path p final_path
  let parts = cut_top (rel p.base (clean final_path))
  ensure (not (str_eq parts.1 [])) refused
  ok (join (p.base ∷ parts.0 ∷ temp_dir_name ∷ []))

unfoldable pub temp_dirs : MediaPaths → List Bytes
temp_dirs p = map (λ top. join (p.base ∷ top ∷ temp_dir_name ∷ [])) (writable_prefixes p)
