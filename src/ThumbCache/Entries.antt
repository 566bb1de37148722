-- ===== src/ThumbCache/Entries.antt =====
-- What Put leaves in the cache.
use synapse_media_worker.Base.{
  ◌≡◌, ◌≢◌, refl, ◌∙◌, Bool, true, false, not, Option, none, some, Bytes, [], if◌then◌else◌, Result,
  ok, err,
}
use synapse_media_worker.Store.{Files, find_file, write_file, remove_file, rename_file}
use synapse_media_worker.Store.Files.{
  find-write_file, find-write_file_other, find-remove_file_other, find-rename_file,
  find-rename_file_other,
}
use synapse_media_worker.ThumbCache.{
  CacheError, write_failed, close_failed, install_failed, CacheOutcomes, put_temp, put_entry,
  path_for,
}

-- What becomes of the file at `path` and of another at `y`: the thumbnail is there where the call
-- succeeds, what was there before is where it fails, and the other is as it was.
abbrev pub IsPut : Bytes → Bytes → Bytes → Files → Result CacheError (Unit {0}) × Files → Type 0
IsPut path y content files (ok done, after) =
    (find_file path after ≡ some content) × (find_file y after ≡ find_file y files)
IsPut path y content files (err failure, after) =
    (find_file path after ≡ find_file path files) × (find_file y after ≡ find_file y files)

choose-IsPut :
    (b : Bool) (path y content : Bytes) (files : Files) (r s : Result CacheError (Unit {0}) × Files)
    → IsPut path y content files r
    → IsPut path y content files s
    → IsPut path y content files (if b then r else s)
choose-IsPut true path y content files r s h k = h
choose-IsPut false path y content files r s h k = k

-- A file that is written and removed again.
find-passing :
    (tmp x content : Bytes) (files : Files)
    → tmp ≢ x
    → find_file x (remove_file tmp (write_file tmp content files)) ≡ find_file x files
find-passing tmp x content files h =
    find-remove_file_other tmp x (write_file tmp content files) h
    ∙ find-write_file_other tmp x content files h

module _ (path y content tmp : Bytes) (files : Files) (apart : path ≢ y) (off : tmp ≢ path)
    (away : tmp ≢ y) where
  failed-IsPut :
      (failure : CacheError) (written : Bytes)
      → IsPut path y content files (err failure, remove_file tmp (write_file tmp written files))
  failed-IsPut failure written =
      (find-passing tmp path written files off, find-passing tmp y written files away)

  installed-IsPut :
      IsPut path y content files
        (ok tt, remove_file tmp (rename_file tmp path (write_file tmp content files)))
  installed-IsPut =
      let written = write_file tmp content files in
      let there = find-write_file tmp content files in
      (
        find-remove_file_other tmp path (rename_file tmp path written) off
            ∙ find-rename_file tmp path content written there,
        find-remove_file_other tmp y (rename_file tmp path written) away
            ∙ find-rename_file_other tmp path y content written there away apart
            ∙ find-write_file_other tmp y content files away,
      )

put_temp-IsPut :
    (path y content : Bytes) (o : CacheOutcomes) (temp : Option Bytes) (files : Files)
    → path ≢ y
    → ((t : Bytes) → temp ≡ some t → (t ≢ path) × (t ≢ y))
    → IsPut path y content files (put_temp path content o temp files)
unfolding put_temp
put_temp-IsPut path y content o none files apart fresh = (refl, refl)
put_temp-IsPut path y content o (some tmp) files apart fresh =
    let (off, away) = fresh tmp refl in
    choose-IsPut (not o.write) path y content files _ _
      (failed-IsPut path y content tmp files apart off away write_failed [])
      (choose-IsPut (not o.close) path y content files _ _
        (failed-IsPut path y content tmp files apart off away close_failed content)
        (choose-IsPut (not o.rename) path y content files _ _
          (failed-IsPut path y content tmp files apart off away install_failed content)
          (installed-IsPut path y content tmp files apart off away)))

-- Where storing a thumbnail succeeds, its content is at its path; where it fails, at whichever step,
-- what was at the path before is there still. Either way every other file is as it was, as long as
-- the temporary file is neither of the two.
pub put_entry-IsPut :
    (dir key content y : Bytes) (o : CacheOutcomes) (files : Files)
    → path_for dir key ≢ y
    → ((t : Bytes) → o.temp ≡ some t → (t ≢ path_for dir key) × (t ≢ y))
    → IsPut (path_for dir key) y content files (put_entry dir key content o files)
unfolding put_entry
put_entry-IsPut dir key content y o files apart fresh =
    choose-IsPut o.mkdir (path_for dir key) y content files _ _
      (put_temp-IsPut (path_for dir key) y content o o.temp files apart fresh) (refl, refl)
