-- ===== src/Store/Order.antt =====
-- Files before rows: no row of the remote cache is without its file.
use synapse_media_worker.Base.{
  ℕ, ◌≡◌, refl, sym, ap, subst, ◌∙◌, Bool, true, false, not, Option, none, some, List, [], ◌∷◌,
  ◌++◌, if◌then◌else◌, Bytes, Result, ok, err, Bool-cases, Option-cases, inl, inr, All-append,
  arith,
}
use synapse_media_worker.Paths.{MediaPaths, remote_media, writable_path}
use synapse_media_worker.Database.{RemoteMedia, get_remote_media, store_remote_media, is_null}
use synapse_media_worker.Store.{
  Files, World, Outcomes, FetchedMedia, StoreError, find_file, remove_file, write_file, rename_file,
  with_files, with_remote, is_ok, file_at, download, fetched_row, reread, decide, record_row,
  install, place, stored_already, fetch_unless, fetch_and_store,
}
use synapse_media_worker.Store.Promise.{
  HasFile, HasFiles, Unused, HasFiles-change, get-All, Downloaded, download-Downloaded,
}
use synapse_media_worker.Store.Files.{
  find-write_file_other, find-remove_file_other, find-rename_file, rename_file_found,
}

-- The row that is returned has its file.
abbrev pub Returned : MediaPaths → Files → Result StoreError RemoteMedia → Type 0
Returned p files (err e) = Unit {0}
Returned p files (ok m) = HasFile p files m

-- All rows have their files afterwards, and so has the row that is returned.
abbrev pub KeepsFiles : MediaPaths → World × Result StoreError RemoteMedia → Type 0
KeepsFiles p r = HasFiles p r.0.files r.0.remote × Returned p r.0.files r.1

returned :
    (p : MediaPaths) (files : Files) (x : Result StoreError RemoteMedia)
    → ((m : RemoteMedia) → x ≡ ok m → HasFile p files m)
    → Returned p files x
returned p files (err e) h = tt
returned p files (ok m) h = h m refl

module _ (p : MediaPaths) (o : Outcomes) (tmp : Bytes)
    (named : (t : Bytes) → o.temp ≡ some t → t ≡ tmp) where
  module _ (authenticated : Bool) (now : ℕ) (between : World → World) (origin id fs_id path : Bytes)
      (located : remote_media p origin fs_id ≡ ok path) where
    -- All rows have their files afterwards, and so has the row that is returned.
    abbrev Consistent : World × Result StoreError RemoteMedia → Type 0
    Consistent r =
        HasFiles p r.0.files r.0.remote × ((m : RemoteMedia) → r.1 ≡ ok m → HasFile p r.0.files m)

    reread-Consistent :
        (w : World) (found : Option RemoteMedia)
        → HasFiles p w.files w.remote
        → ((m : RemoteMedia) → found ≡ some m → HasFile p w.files m)
        → Consistent (reread p o authenticated now between origin id fs_id w found)
    unfolding reread
    reread-Consistent w none h k = (h, λ m e. cc e)
    reread-Consistent w (some m) h k = elim (Bool-cases o.reread_ok) [
      | inl good ↦ rw good (h, λ x e. k x (cc e))
      | inr bad ↦ rw bad (h, λ x e. cc e)
    ]

    abbrev row : FetchedMedia → RemoteMedia
    row = fetched_row p o authenticated now between origin id fs_id

    row-HasFile :
        (f : FetchedMedia) (files : Files)
        → find_file path files ≡ some f.content
        → HasFile p files (row f)
    unfolding fetched_row
    row-HasFile f files h = (path, f.content, located, h)

    stored_new :
        (f : FetchedMedia) (rows : List RemoteMedia)
        → get_remote_media rows origin id ≡ none
        → store_remote_media rows (row f) ≡ (rows ++ (row f ∷ []), true)
    unfolding store_remote_media fetched_row
    stored_new f rows h = rw (h, store_remote_media) refl

    stored_known :
        (f : FetchedMedia) (rows : List RemoteMedia) (m : RemoteMedia)
        → get_remote_media rows origin id ≡ some m
        → store_remote_media rows (row f) ≡ (rows, false)
    unfolding store_remote_media fetched_row
    stored_known f rows m h = rw (h, store_remote_media) refl

    branch :
        (b : Bool) (x y : World × Result StoreError RemoteMedia)
        → (b ≡ true → Consistent x)
        → (b ≡ false → Consistent y)
        → Consistent (if b then x else y)
    branch true x y h k = h refl
    branch false x y h k = k refl

    decide-Consistent :
        (f : FetchedMedia) (w : World)
        → HasFiles p w.files w.remote
        → HasFiles p (remove_file path w.files) w.remote
        → find_file path w.files ≡ some f.content
        → Consistent (
            decide p o authenticated now between origin id fs_id path f w
              (store_remote_media w.remote (row f)))
    unfolding decide with_files with_remote
    decide-Consistent f w h kept found =
        let result = decide p o authenticated now between origin id fs_id path f w in
        elim (Option-cases (get_remote_media w.remote origin id)) [
          | inl new ↦
              subst (λ s. Consistent (result s)) (sym (stored_new f w.remote new))
                (
                  All-append (HasFile p w.files) w.remote (row f ∷ []) h
                      (row-HasFile f w.files found, tt),
                  λ m e.
                      (let is : row f ≡ m = cc e in
                        subst (HasFile p w.files) is (row-HasFile f w.files found)),
                )
          | inr (m, known) ↦
              subst (λ s. Consistent (result s)) (sym (stored_known f w.remote m known))
                (reread-Consistent (with_files w (remove_file path w.files))
                  (get_remote_media w.remote origin id) kept
                  (λ x e.
                    get-All (HasFile p (remove_file path w.files)) w.remote origin id x kept e))
        ]

    record_row-Consistent :
        (f : FetchedMedia) (w : World)
        → HasFiles p w.files w.remote
        → Unused p path w.remote
        → find_file path w.files ≡ some f.content
        → Consistent (record_row p o authenticated now between origin id fs_id path f w)
    unfolding record_row with_files
    record_row-Consistent f w h u found =
        let kept : HasFiles p (remove_file path w.files) w.remote =
          HasFiles-change p path w.files (remove_file path w.files) w.remote
            (λ y k. find-remove_file_other path y w.files k) u h in
        branch o.insert_ok _ _ (λ good. decide-Consistent f w h kept found)
          (λ failed. (kept, λ m e. cc e))

    module _
        (others_keep : (w : World)
          → HasFiles p w.files w.remote
          → HasFiles p (between w).files (between w).remote)
        (path_reserved : (w : World) → Unused p path w.remote → Unused p path (between w).remote)
        (path_kept : (w : World) → find_file path (between w).files ≡ find_file path w.files) where
      install-Consistent :
          (w : World) (r : Files × Result StoreError (FetchedMedia × Bytes))
          → Downloaded tmp w.files r
          → HasFiles p w.files w.remote
          → Unused p tmp w.remote
          → Unused p path w.remote
          → Consistent (install p o authenticated now between origin id fs_id path w r)
      unfolding install with_files
      install-Consistent w (files, err e) d h ut up =
          (HasFiles-change p tmp w.files files w.remote d ut h, λ m k. cc k)
      install-Consistent w (files, ok (f, t)) (d, same, full) h ut up =
          let there : find_file t files ≡ some f.content =
            ap (λ x. find_file x files) same ∙ full in
          let unused : Unused p t w.remote = subst (λ x. Unused p x w.remote) (sym same) ut in
          let kept = HasFiles-change p tmp w.files files w.remote d ut h in
          let gone =
            HasFiles-change p t files (remove_file t files) w.remote
              (λ y k. find-remove_file_other t y files k) unused kept in
          let moved =
            HasFiles-change p path (remove_file t files)
              (write_file path f.content (remove_file t files)) w.remote
              (λ y k. find-write_file_other path y f.content (remove_file t files) k) up gone in
          let renamed = rename_file_found t path f.content files there in
          let w1 : World = with_files w (rename_file t path files) in
          let moved1 = subst (λ g. HasFiles p g w.remote) (sym renamed) moved in
          branch o.rename_ok _ _
            (λ good.
              record_row-Consistent f (between w1) (others_keep w1 moved1) (path_reserved w1 up)
                (path_kept w1 ∙ find-rename_file t path f.content files there))
            (λ failed. (gone, λ m k. cc k))

      place-Consistent :
          (w : World)
          → HasFiles p w.files w.remote
          → Unused p tmp w.remote
          → Unused p path w.remote
          → Consistent (place p o authenticated now between origin id fs_id w (ok path))
      unfolding place
      place-Consistent w h ut up =
          branch (not (is_ok (writable_path p path))) _ _ (λ refused. (h, λ m k. cc k))
            (λ allowed.
              branch (not o.mkdir_ok) _ _ (λ failed. (h, λ m k. cc k))
                (λ made.
                  install-Consistent w (download p o path w.files)
                    (download-Downloaded p o tmp named path w.files) h ut up))

      stored_already-HasFile :
          (w : World) (found : Option RemoteMedia) (m : RemoteMedia)
          → ((x : RemoteMedia) → found ≡ some x → HasFile p w.files x)
          → stored_already p o authenticated now between origin id fs_id w found ≡ some m
          → HasFile p w.files m
      unfolding stored_already
      stored_already-HasFile w none m h e = cc e
      stored_already-HasFile w (some x) m h e = elim (Bool-cases (is_null x.length)) [
        | inl pending ↦ ground arith
        | inr complete ↦
            elim (Bool-cases (file_at w.files (remote_media p origin x.filesystem_id))) [
              | inl there ↦ (let is : x ≡ m = ground arith in h m (ap some is))
              | inr missing ↦ ground arith
            ]
      ]

      fetch_unless-Consistent :
          (w : World) (found : Option RemoteMedia)
          → ((m : RemoteMedia) → found ≡ some m → HasFile p w.files m)
          → HasFiles p w.files w.remote
          → Unused p tmp w.remote
          → Unused p path w.remote
          → Consistent (fetch_unless p o authenticated now between origin id fs_id w found)
      unfolding fetch_unless
      fetch_unless-Consistent w none k h ut up =
          subst (λ x. Consistent (place p o authenticated now between origin id fs_id w x))
            (sym located) (place-Consistent w h ut up)
      fetch_unless-Consistent w (some m) k h ut up = (h, λ x e. k x (cc e))

      fetch_and_store-Consistent :
          (w : World)
          → HasFiles p w.files w.remote
          → Unused p tmp w.remote
          → Unused p path w.remote
          → Consistent (fetch_and_store p o authenticated now between origin id fs_id w)
      unfolding fetch_and_store
      fetch_and_store-Consistent w h ut up =
          let found = get_remote_media w.remote origin id in
          branch o.lookup_ok _ _
            (λ good.
              fetch_unless-Consistent w
                (stored_already p o authenticated now between origin id fs_id w found)
                (λ m there.
                  stored_already-HasFile w found m
                    (λ y e. get-All (HasFile p w.files) w.remote origin id y h e) there)
                h ut up)
            (λ failed. (h, λ m k. cc k))

      -- A fetch keeps the promise that every row of the remote cache has its file, whatever fails on
      -- the way and whichever writer wins, and a row that it returns has its file. Other processes
      -- may change the store meanwhile if they keep that promise too and leave the new path alone;
      -- and no row's file has the path of the temporary file or the new path before.
      pub fetch_and_store-KeepsFiles :
          (w : World)
          → HasFiles p w.files w.remote
          → Unused p tmp w.remote
          → Unused p path w.remote
          → KeepsFiles p (fetch_and_store p o authenticated now between origin id fs_id w)
      fetch_and_store-KeepsFiles w h ut up =
          let result = fetch_and_store p o authenticated now between origin id fs_id w in
          let (all, one) = fetch_and_store-Consistent w h ut up in
          (all, returned p result.0.files result.1 one)
