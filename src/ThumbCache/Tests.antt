-- ===== src/ThumbCache/Tests.antt =====
-- A cache of three thumbnails, one of which cannot be removed.
use mathlib.Core.List.{Permᴰ}
use synapse_media_worker.Filepath.{join, clean}
use synapse_media_worker.Base.{
  ℕ, All, if◌then◌else◌, ◌<◌, ◌≡◌, ◌≢◌, refl, Bool, true, false, not, some, List, [], ◌∷◌, Bytes,
  bytes, str_eq, str_eq-ne, sym, ◌∙◌, slt64, add64, sub64, ok, arith, Free,
}
use synapse_media_worker.Thumbnail.{ThumbnailRequest}
use synapse_media_worker.ThumbCache.{
  Entry, file, folder, collect, total_size, evict, nothing_removed, with_removed, with_kept,
  sweep_entries, sweep, compare_entries, SortFunc, CacheOutcomes, path_for, put_entry,
}
use synapse_media_worker.ThumbCache.Sweep.{sum, IsSwept}
use synapse_media_worker.ThumbCache.Order.{Sorts, IsTimed}
use synapse_media_worker.ThumbCache.Sweep
use synapse_media_worker.ThumbCache.Entries.{IsPut}
use synapse_media_worker.ThumbCache.Entries

abbrev old : Entry
old = record { path = bytes "old"; size = 5; atime = 1 }

abbrev stuck : Entry
stuck = record { path = bytes "stuck"; size = 4; atime = 2 }

abbrev recent : Entry
recent = record { path = bytes "recent"; size = 3; atime = 3 }

-- Sorting by insertion.
abbrev insert_by : (Entry → Entry → ℕ) → Entry → List Entry → List Entry
insert_by compare e [] = e ∷ []
insert_by compare e (x ∷ entries) =
    let rest = insert_by compare e entries in
    if slt64 (compare x e) 0 then x ∷ rest else e ∷ x ∷ entries

abbrev sort_by : SortFunc
sort_by compare [] = []
sort_by compare (e ∷ entries) = insert_by compare e (sort_by compare entries)

abbrev removable : Bytes → Bool
removable path = not (str_eq path (bytes "stuck"))

sweep_test :
    sweep sort_by removable 7 (folder ∷ file stuck ∷ file old ∷ file recent ∷ [])
    ≡ ok (record { evicted = 1; freed = 5; removed = old ∷ []; kept = stuck ∷ recent ∷ [] })
unfolding sweep sweep_entries collect total_size evict nothing_removed with_removed with_kept slt64
    add64 sub64 str_eq compare_entries
sweep_test = refl

sorts : Sorts sort_by IsTimed compare_entries (stuck ∷ old ∷ recent ∷ [])
unfolding compare_entries slt64 sub64
sorts weak timed = (Permᴰ.swap refl refl, ground arith)

timed : All IsTimed (stuck ∷ old ∷ recent ∷ [])
timed = ground arith

above : 7 < sum (stuck ∷ old ∷ recent ∷ [])
unfolding sum
above = omega arith

small : sum (stuck ∷ old ∷ recent ∷ []) < 9223372036854775808
unfolding sum
small = omega arith

sweep_entries-IsSwept_example :
    IsSwept removable 7 0
      (sort_by compare_entries (stuck ∷ old ∷ recent ∷ []))
      (sweep_entries sort_by removable 7 (stuck ∷ old ∷ recent ∷ []))
sweep_entries-IsSwept_example =
    Sweep.sweep_entries-IsSwept sort_by removable 7 (stuck ∷ old ∷ recent ∷ []) sorts timed
      (omega arith) above small

abbrev outcomes : CacheOutcomes
outcomes = record {
  mkdir = true;
  temp = some (bytes "/c/ab/cd/.tmp-1");
  write = true;
  close = false;
  rename = true;
}

abbrev key : Bytes
key = bytes "abcdef"

key_path : path_for (bytes "/c") key ≡ bytes "/c/ab/cd/abcdef"
unfolding path_for join clean str_eq
key_path = refl

elsewhere : path_for (bytes "/c") key ≢ bytes "/c/other"
unfolding str_eq
elsewhere e = str_eq-ne (bytes "/c/ab/cd/abcdef") (bytes "/c/other") refl (sym key_path ∙ e)

fresh :
    (t : Bytes) → outcomes.temp ≡ some t → (t ≢ path_for (bytes "/c") key) × (t ≢ bytes "/c/other")
unfolding str_eq
fresh t e =
    let is : t ≡ bytes "/c/ab/cd/.tmp-1" = cc in
    (
      λ p.
          str_eq-ne (bytes "/c/ab/cd/.tmp-1") (bytes "/c/ab/cd/abcdef") refl
            (sym is ∙ p ∙ key_path),
      λ p. str_eq-ne (bytes "/c/ab/cd/.tmp-1") (bytes "/c/other") refl (sym is ∙ p),
    )

put_entry-IsPut_example :
    IsPut
      (path_for (bytes "/c") key)
      (bytes "/c/other")
      (bytes "PNG")
      []
      (put_entry (bytes "/c") key (bytes "PNG") outcomes [])
put_entry-IsPut_example =
    Entries.put_entry-IsPut (bytes "/c") key (bytes "PNG") (bytes "/c/other") outcomes [] elsewhere
      fresh

abbrev small_png : ThumbnailRequest
small_png = record {
  width = 32;
  height = 32;
  method = bytes "crop";
  animated = false;
  type = bytes "image/png";
}

no_nul : Free 0 (bytes "a.org") × Free 0 (bytes "abcdefgh")
no_nul = ground arith
