-- ===== src/Store/Promise.antt =====
-- What a download does to the files, and when a row has its file.
use synapse_media_worker.Base.{
  ◌≡◌, ◌≢◌, refl, sym, ap, subst, ◌∙◌, Option, none, some, List, [], ◌∷◌, Bytes, Result, ok, err,
  Bool-cases, inl, inr, All,
}
use synapse_media_worker.Paths.{MediaPaths, remote_media, create_temp_dir}
use synapse_media_worker.Database.{RemoteMedia, get_remote_media, is_remote}
use synapse_media_worker.Store.{
  Files, Outcomes, FetchedMedia, StoreError, find_file, remove_file, write_file, is_ok,
  download_into, download_temp, download,
}
use synapse_media_worker.Store.Files.{
  find-write_file, find-write_file_other, find-remove_file_other,
}

-- The file that a row describes is there.
abbrev pub HasFile : MediaPaths → Files → RemoteMedia → Type 0
HasFile p files m =
    (path : Bytes) × (content : Bytes) × (remote_media p m.origin m.filesystem_id ≡ ok path)
    × (find_file path files ≡ some content)

abbrev pub HasFiles : MediaPaths → Files → List RemoteMedia → Type 0
HasFiles p files rows = All (HasFile p files) rows

-- No row's file has this path.
abbrev pub Unused : MediaPaths → Bytes → List RemoteMedia → Type 0
Unused p x rows = All (λ m. remote_media p m.origin m.filesystem_id ≢ ok x) rows

-- Two stores that differ at most in the file at `x`.
abbrev pub SameBut : Bytes → Files → Files → Type 0
SameBut x files files' = (y : Bytes) → x ≢ y → find_file y files' ≡ find_file y files

pub HasFiles-change :
    (p : MediaPaths) (x : Bytes) (files files' : Files) (rows : List RemoteMedia)
    → SameBut x files files'
    → Unused p x rows
    → HasFiles p files rows
    → HasFiles p files' rows
HasFiles-change p x files files' [] same u h = tt
HasFiles-change p x files files' (m ∷ rows) same (free, u) ((y, content, at, found), h) = (
  (y, content, at, same y (λ e. free (at ∙ ap ok (sym e))) ∙ found),
  HasFiles-change p x files files' rows same u h,
)

pub get-All {κ} :
    (P : RemoteMedia → Type κ) (rows : List RemoteMedia) (origin id : Bytes) (m : RemoteMedia)
    → All P rows
    → get_remote_media rows origin id ≡ some m
    → P m
unfolding get_remote_media
get-All P [] origin id m h f = absurd (cc f)
get-All P (row ∷ rows) origin id m (q, h) f = elim (Bool-cases (is_remote row origin id)) [
  | inl same ↦ let is : row ≡ m = cc (rw same at f) in subst P is q
  | inr other ↦ get-All P rows origin id m h (rw other at f)
]

-- A download touches its temporary file only, and leaves it complete where it succeeds.
abbrev pub Downloaded : Bytes → Files → Files × Result StoreError (FetchedMedia × Bytes) → Type 0
Downloaded tmp files (files', err e) = SameBut tmp files files'
Downloaded tmp files (files', ok (f, t)) =
    SameBut tmp files files' × (t ≡ tmp) × (find_file tmp files' ≡ some f.content)

discarded :
    (x content : Bytes) (files : Files)
    → SameBut x files (remove_file x (write_file x content files))
discarded x content files y h =
    find-remove_file_other x y (write_file x content files) h
    ∙ find-write_file_other x y content files h

module _ (p : MediaPaths) (o : Outcomes) (tmp : Bytes)
    (named : (t : Bytes) → o.temp ≡ some t → t ≡ tmp) where
  download_into-Downloaded :
      (t : Bytes) (r : Result StoreError FetchedMedia) (files : Files)
      → Downloaded t files (download_into p o t r files)
  unfolding download_into
  download_into-Downloaded t (err e) files = discarded t o.partial files
  download_into-Downloaded t (ok f) files =
      let gone = discarded t f.content files in
      elim (Bool-cases o.sync_ok) [
        | inr sync ↦ rw sync gone
        | inl synced ↦ elim (Bool-cases o.close_ok) [
          | inr close ↦ rw (synced, close) gone
          | inl closed ↦ elim (Bool-cases o.chmod_ok) [
            | inr mode ↦ rw (synced, closed, mode) gone
            | inl done ↦
                rw (synced, closed, done)
                  (
                    (λ y h. find-write_file_other t y f.content files h),
                    refl,
                    find-write_file t f.content files,
                  )
          ]
        ]
      ]

  download_temp-Downloaded :
      (temp : Option Bytes) (files : Files)
      → ((t : Bytes) → temp ≡ some t → t ≡ tmp)
      → Downloaded tmp files (download_temp p o temp files)
  unfolding download_temp
  download_temp-Downloaded none files h = λ y k. refl
  download_temp-Downloaded (some t) files h =
      subst (λ x. Downloaded x files (download_into p o t o.fetched files)) (h t refl)
        (download_into-Downloaded t o.fetched files)

  pub download-Downloaded :
      (path : Bytes) (files : Files) → Downloaded tmp files (download p o path files)
  unfolding download
  download-Downloaded path files = elim (Bool-cases (is_ok (create_temp_dir p path))) [
    | inl allowed ↦ rw allowed (download_temp-Downloaded o.temp files named)
    | inr refused ↦ rw refused (λ y k. refl)
  ]
