-- ===== src/ThumbCache.antt =====
-- thumbcache.go: the worker's own store of generated thumbnails. What the operating system answers is
-- an input: CacheOutcomes for Put, and for Sweep what the walk visits and which files can be removed.
-- SHA-256 in hexadecimal and `slices.SortFunc` are parameters. Sizes are 64-bit patterns.
pub mod Order
pub mod Sweep
pub mod Key
pub mod Entries
mod Tests
use synapse_media_worker.Base.{
  ℕ, suc, ◌+◌, Bool, true, false, not, ◌||◌, Option, none, some, List, [], ◌∷◌, ◌++◌, if◌then◌else◌,
  Bytes, bytes, slt64, add64, sub64, Result, err, ok, ◌>>=◌, take, drop,
}
use synapse_media_worker.Decimal.{itoa_int64}
use synapse_media_worker.Filepath.{join}
use synapse_media_worker.Paths.{clean_abs}
use synapse_media_worker.Store.{Files, find_file, write_file, remove_file, rename_file}
use synapse_media_worker.Thumbnail.{ThumbnailRequest}

-- `strconv.FormatBool`.
unfoldable pub format_bool : Bool → Bytes
format_bool true = bytes "true"
format_bool false = bytes "false"

-- What the hash is fed with: each part and a NUL byte.
unfoldable pub key_text : Bytes → Bytes → ThumbnailRequest → Bytes
unfolding itoa_int64 format_bool
key_text origin media_id req =
    origin
    ++ 0
      ∷ (media_id
          ++ 0
            ∷ ((itoa_int64 req.width ++ b'x' ∷ itoa_int64 req.height)
                ++ 0 ∷ (req.method ++ 0 ∷ (req.type ++ 0 ∷ (format_bool req.animated ++ 0 ∷ [])))))

unfoldable pub cache_key : (hash : Bytes → Bytes) → Bytes → Bytes → ThumbnailRequest → Bytes
unfolding key_text
cache_key hash origin media_id req = hash (key_text origin media_id req)

-- The directory of the cache, as `NewThumbnailCache` makes it.
unfoldable pub cache_dir : Bytes → Bytes → Bytes
unfolding clean_abs
cache_dir cwd dir = join (clean_abs cwd dir ∷ bytes "thumbs" ∷ [])

unfoldable pub path_for : Bytes → Bytes → Bytes
path_for dir key = join (dir ∷ take 2 key ∷ take 2 (drop 2 key) ∷ key ∷ [])

unfoldable pub open_entry : Bytes → Bytes → Files → Option Bytes
unfolding path_for find_file
open_entry dir key files = find_file (path_for dir key) files

unfoldable pub delete_entry : Bytes → Bytes → Files → Files
unfolding path_for remove_file
delete_entry dir key files = remove_file (path_for dir key) files

pub data CacheError : Type 0 where
  mkdir_failed temp_failed write_failed close_failed install_failed walk_failed : CacheError

-- Which of the calls succeed; `temp` is the path of the temporary file.
pub record CacheOutcomes : Type 0 where
  pub mkdir : Bool
  pub temp : Option Bytes
  pub write : Bool
  pub close : Bool
  pub rename : Bool

-- The temporary file is removed whatever becomes of it, in the end.
unfoldable pub put_temp :
    Bytes → Bytes → CacheOutcomes → Option Bytes → Files → Result CacheError (Unit {0}) × Files
unfolding write_file remove_file rename_file
put_temp path content o none files = (err temp_failed, files)
put_temp path content o (some tmp) files =
    if not o.write
    then (err write_failed, remove_file tmp (write_file tmp [] files))
    else if not o.close
    then (err close_failed, remove_file tmp (write_file tmp content files))
    else if not o.rename
    then (err install_failed, remove_file tmp (write_file tmp content files))
    else (ok tt, remove_file tmp (rename_file tmp path (write_file tmp content files)))

-- `Put`.
unfoldable pub put_entry :
    Bytes → Bytes → Bytes → CacheOutcomes → Files → Result CacheError (Unit {0}) × Files
unfolding put_temp path_for
put_entry dir key content o files =
    if o.mkdir
    then put_temp (path_for dir key) content o o.temp files
    else (err mkdir_failed, files)

pub record Entry : Type 0 where
  pub path : Bytes
  pub size : ℕ
  pub atime : ℕ

-- What the walk is called with at one path.
pub data Visit : Type 0 where
  vanished failed folder without_info : Visit
  file : Entry → Visit

-- The walk: the entries in the order in which they are visited.
unfoldable pub collect : List Visit → Result CacheError (List Entry)
collect [] = ok []
collect (vanished ∷ visits) = collect visits
collect (failed ∷ visits) = err walk_failed
collect (folder ∷ visits) = collect visits
collect (without_info ∷ visits) = collect visits
collect (file e ∷ visits) = collect visits >>= λ entries. ok (e ∷ entries)

unfoldable pub total_size : List Entry → ℕ
unfolding add64
total_size [] = 0
total_size (e ∷ entries) = add64 e.size (total_size entries)

-- What a sweep did: the entries that it removed and those that it kept.
pub record Swept : Type 0 where
  pub evicted : ℕ
  pub freed : ℕ
  pub removed : List Entry
  pub kept : List Entry

unfoldable pub nothing_removed : List Entry → Swept
nothing_removed entries = record { evicted = 0; freed = 0; removed = []; kept = entries }

unfoldable pub with_removed : Entry → Swept → Swept
unfolding add64
with_removed e s = record {
  evicted = s.evicted + 1;
  freed = add64 e.size s.freed;
  removed = e ∷ s.removed;
  kept = s.kept;
}

unfoldable pub with_kept : Entry → Swept → Swept
with_kept e s = record s { kept = e ∷ s.kept }

-- The loop of `Sweep`, from the entry on that is next.
unfoldable pub evict : (Bytes → Bool) → ℕ → ℕ → List Entry → Swept
unfolding nothing_removed with_removed with_kept slt64 sub64
evict remove max total [] = nothing_removed []
evict remove max total (e ∷ entries) =
    let gone = with_removed e (evict remove max (sub64 total e.size) entries) in
    let stays = with_kept e (evict remove max total entries) in
    if slt64 max total
    then (if remove e.path then gone else stays)
    else nothing_removed (e ∷ entries)

-- The comparison that the entries are sorted by: `int(a.atime - b.atime)`, below zero where `a` comes
-- first.
unfoldable pub compare_entries : Entry → Entry → ℕ
unfolding sub64
compare_entries a b = sub64 a.atime b.atime

-- `slices.SortFunc` takes the comparison and the entries.
abbrev pub SortFunc : Type 0
SortFunc = (Entry → Entry → ℕ) → List Entry → List Entry

module _ (sort : SortFunc) (remove : Bytes → Bool) (max : ℕ) where
  unfoldable pub sweep_entries : List Entry → Swept
  unfolding slt64 total_size nothing_removed evict compare_entries
  sweep_entries entries =
      if not (slt64 0 max) || not (slt64 max (total_size entries))
      then nothing_removed entries
      else evict remove max (total_size entries) (sort compare_entries entries)

  unfoldable pub sweep : List Visit → Result CacheError Swept
  unfolding collect sweep_entries
  sweep visits = collect visits >>= λ entries. ok (sweep_entries entries)
