-- ===== src/Upload/Sync.antt =====
-- A synchronous upload is all or nothing.
use synapse_media_worker.Base.{
  ℕ, suc, ◌<◌, ◌≤◌, two63, ◌*◌, ◌≡◌, ◌≢◌, refl, sym, ap, subst, ◌∙◌, Bool, true, false, Option,
  none, some, List, [], ◌∷◌, ◌++◌, if◌then◌else◌, Bytes, length, Result, ok, err, Bool-cases,
  Option-cases, inl, inr, ◌⊎◌, str_eq, str_eq_iff,
}
use synapse_media_worker.Paths.{MediaPaths, local_media}
use synapse_media_worker.Database.{LocalMedia, completed_row, insert_local_media, get_local_media}
use synapse_media_worker.Limits.{MediaUploadLimit, exceeded_limit}
use synapse_media_worker.Store.{Files, World, find_file, remove_file, rename_file, with_files}
use synapse_media_worker.Store.Files.{
  find-remove_file, find-remove_file_other, find-rename_file, find-rename_file_other,
}
use synapse_media_worker.Store.Promise.{SameBut}
use synapse_media_worker.Upload.{
  UploadConfig, UploadOutcomes, UploadError, UploadReply, StoredUpload, uploaded, failed,
  content_uri, commit, discard, quarantine_for, stage, insert_row, committed, admit, store_sync,
  handle_upload, within_limits, quota_reply,
}
use synapse_media_worker.Upload.Staged.{IsStaged, Staged, stage-Staged}

-- An answer other than success.
abbrev pub IsFailure : UploadReply → Type 0
IsFailure reply = (uri : Bytes) → reply ≢ uploaded uri

inserted :
    (rows rows' : List LocalMedia) (m : LocalMedia)
    → insert_local_media rows m ≡ some rows'
    → rows' ≡ rows ++ (m ∷ [])
unfolding insert_local_media
inserted rows rows' m h = elim (Option-cases (get_local_media rows m.media_id)) [
  | inl new ↦ cc (rw (new, insert_local_media) at h)
  | inr (old, known) ↦ cc (rw (known, insert_local_media) at h)
]

pub commit_good :
    (o : UploadOutcomes) (s : StoredUpload) (files : Files)
    → o.rename_ok ≡ true
    → commit o s files ≡ (rename_file s.tmp_path s.path files, true)
unfolding commit
commit_good o s files h =
    ap
      (λ b.
        if b
        then (rename_file s.tmp_path s.path files, true)
        else (remove_file s.tmp_path files, false))
      h

pub commit_bad :
    (o : UploadOutcomes) (s : StoredUpload) (files : Files)
    → o.rename_ok ≡ false
    → commit o s files ≡ (remove_file s.tmp_path files, false)
unfolding commit
commit_bad o s files h =
    ap
      (λ b.
        if b
        then (rename_file s.tmp_path s.path files, true)
        else (remove_file s.tmp_path files, false))
      h

module _ (hash : Bytes → Bytes) (p : MediaPaths) (c : UploadConfig) (o : UploadOutcomes) where
  quota_reply-IsFailure :
      (x : Result (Unit {0}) (Option MediaUploadLimit)) (r : UploadReply)
      → quota_reply hash p c o x ≡ some r
      → IsFailure r
  unfolding quota_reply
  quota_reply-IsFailure (err e) r h = λ u k. cc (h, k)
  quota_reply-IsFailure (ok none) r h = cc h
  quota_reply-IsFailure (ok (some limit)) r h = λ u k. cc (h, k)

  pub within_limits-IsFailure :
      (w : World) (user : Bytes) (size now : ℕ) (r : UploadReply)
      → within_limits hash p c o w user size now ≡ some r
      → IsFailure r
  unfolding within_limits
  within_limits-IsFailure w user size now r h = elim (Bool-cases o.usage_ok) [
    | inl good ↦ quota_reply-IsFailure (exceeded_limit c.limits w.local user size now) r (
        ap
          (λ b.
            if b
            then quota_reply hash p c o (exceeded_limit c.limits w.local user size now)
            else some failed)
          (sym good)
        ∙ h)
    | inr bad ↦
        let same : some failed ≡ some r =
          ap
            (λ b.
              if b
              then quota_reply hash p c o (exceeded_limit c.limits w.local user size now)
              else some failed)
            (sym bad)
          ∙ h in
        λ u k. cc (same, k)
  ]

module _ (hash : Bytes → Bytes) (p : MediaPaths) (c : UploadConfig) (o : UploadOutcomes)
    (tmp path : Bytes) (named : (t : Bytes) → o.temp ≡ some t → t ≡ tmp)
    (fits : suc c.max_upload_size < two63) (body : Bytes) (user : Bytes) (now : ℕ)
    (id media_type upload_name : Bytes) (located : local_media p id ≡ ok path)
    (apart : tmp ≢ path) where
  -- No row is added and no file but the temporary one is touched.
  abbrev pub Nothing : World → World × UploadReply → Type 0
  Nothing w r = IsFailure r.1 × (r.0.local ≡ w.local) × SameBut tmp w.files r.0.files

  -- The complete body is the file of the media, and the one new row describes it.
  abbrev pub Everything : World → World × UploadReply → Type 0
  Everything w r =
      (r.1 ≡ uploaded (content_uri c id))
      × (find_file path r.0.files ≡ some body)
      × (length body ≤ c.max_upload_size)
      × (r.0.local
          ≡ w.local
            ++ (completed_row id media_type upload_name (length body) user now c.authenticated
                  (hash body) (quarantine_for w (hash body))
                ∷ []))

  abbrev pub AllOrNothing : World → World × UploadReply → Type 0
  AllOrNothing w r = Nothing w r ⊎ Everything w r

  module _ (w : World) (free : find_file path w.files ≡ none) where
    branch :
        (b : Bool) (x y : World × UploadReply)
        → (b ≡ true → AllOrNothing w x)
        → (b ≡ false → AllOrNothing w y)
        → AllOrNothing w (if b then x else y)
    branch true x y h k = h refl
    branch false x y h k = k refl

    -- A staged upload that is thrown away before it is installed.
    thrown_away :
        (files : Files) (s : StoredUpload)
        → SameBut tmp w.files files
        → s.tmp_path ≡ tmp
        → SameBut tmp w.files (remove_file s.tmp_path files)
    thrown_away files s same at y h =
        find-remove_file_other s.tmp_path y files (λ e. h (sym at ∙ e)) ∙ same y h

    module _ (files : Files) (s : StoredUpload) (same : SameBut tmp w.files files)
        (st : IsStaged hash p c o tmp path named fits body files s) where
      at_tmp : find_file s.tmp_path files ≡ some body
      at_tmp = ap (λ x. find_file x files) st.at_tmp ∙ st.whole

      -- Thrown away after it was installed: the path is free again.
      uninstalled : SameBut tmp w.files (remove_file s.path (rename_file s.tmp_path s.path files))
      uninstalled y h = elim (Bool-cases (str_eq s.path y)) [
        | inl is ↦
            let e = (str_eq_iff s.path y).0 is in
            subst
              (λ z.
                find_file z (remove_file s.path (rename_file s.tmp_path s.path files))
                ≡ find_file z w.files)
              e
              (find-remove_file s.path (rename_file s.tmp_path s.path files)
                ∙ sym free
                ∙ ap (λ z. find_file z w.files) (sym st.for_path))
        | inr differs ↦
            let ne : s.path ≢ y = λ e. cc ((str_eq_iff s.path y).1 e, differs) in
            find-remove_file_other s.path y (rename_file s.tmp_path s.path files) ne
            ∙ find-rename_file_other s.tmp_path s.path y body files at_tmp
                (λ e. h (sym st.at_tmp ∙ e)) ne
            ∙ same y h
      ]

      insert_row-AllOrNothing :
          (rows : Option (List LocalMedia))
          → insert_local_media w.local (
              completed_row id media_type upload_name s.length user now c.authenticated s.sha256
                (quarantine_for w s.sha256))
            ≡ rows
          → AllOrNothing w (
              insert_row hash p c o user now id media_type upload_name
                (with_files w (rename_file s.tmp_path s.path files))
                s
                rows)
      unfolding insert_row with_files
      insert_row-AllOrNothing none e = inl ((λ u f. cc f), refl, uninstalled)
      insert_row-AllOrNothing (some rows) e =
          branch o.row_ok _ _
            (λ good. inr (
              refl,
              ap (λ x. find_file x (rename_file s.tmp_path s.path files)) (sym st.for_path)
                  ∙ find-rename_file s.tmp_path s.path body files at_tmp,
              st.small,
              inserted w.local rows _ e
                  ∙ ap
                      (λ n.
                        w.local
                        ++ (completed_row id media_type upload_name n user now c.authenticated
                              s.sha256 (quarantine_for w s.sha256)
                            ∷ []))
                      st.size
                  ∙ ap
                      (λ d.
                        w.local
                        ++ (completed_row id media_type upload_name (length body) user now
                              c.authenticated d (quarantine_for w d)
                            ∷ []))
                      st.digest,
            ))
            (λ bad. inl ((λ u f. cc f), refl, uninstalled))

      admit-none-AllOrNothing :
          AllOrNothing w
            (admit hash p c o user now id media_type upload_name (with_files w files) s none)
      unfolding admit commit committed with_files quarantine_for
      admit-none-AllOrNothing = elim (Bool-cases o.rename_ok) [
        | inl good ↦
            subst
              (λ x. AllOrNothing w (
                committed hash p c o user now id media_type upload_name (with_files w files) s
                  (quarantine_for w s.sha256) x))
              (sym (commit_good o s files good)) (insert_row-AllOrNothing _ refl)
        | inr bad ↦
            subst
              (λ x. AllOrNothing w (
                committed hash p c o user now id media_type upload_name (with_files w files) s
                  (quarantine_for w s.sha256) x))
              (sym (commit_bad o s files bad))
              (inl ((λ u f. cc f), refl, thrown_away files s same st.at_tmp))
      ]

      admit-AllOrNothing :
          (limit : Option UploadReply)
          → ((r : UploadReply) → limit ≡ some r → IsFailure r)
          → AllOrNothing w
              (admit hash p c o user now id media_type upload_name (with_files w files) s limit)
      unfolding admit discard with_files
      admit-AllOrNothing none h = admit-none-AllOrNothing
      admit-AllOrNothing (some r) h = inl (h r refl, refl, thrown_away files s same st.at_tmp)

    store_sync-AllOrNothing :
        (r : Files × Result UploadError StoredUpload)
        → Staged hash p c o tmp path named fits body w.files r
        → AllOrNothing w (store_sync hash p c o user now id media_type upload_name w r)
    unfolding store_sync with_files discard within_limits
    store_sync-AllOrNothing (files, err e) same = inl ((λ u f. cc f), refl, same)
    store_sync-AllOrNothing (files, ok s) (same, st) =
        let limit = within_limits hash p c o (with_files w files) user s.length (now * 1000000) in
        branch o.quarantine_ok
          (admit hash p c o user now id media_type upload_name (with_files w files) s limit)
          (with_files w (remove_file s.tmp_path files), failed)
          (λ good.
            admit-AllOrNothing files s same st _ (
              within_limits-IsFailure hash p c o (with_files w files) user s.length
                (now * 1000000)))
          (λ bad. inl ((λ u f. cc f), refl, thrown_away files s same st.at_tmp))

    -- A synchronous upload is all or nothing, whatever fails on the way. Either it is answered with the
    -- media's URI, then the complete body, which is within the size limit, is the file of the media ID
    -- and one row is added, with that length and hash and with `system` as the quarantiner if the hash
    -- is quarantined; or it is answered with an error, and no row is added and no file but the
    -- temporary one has changed. Before, no file is at the path of the fresh media ID; and the size
    -- limit is at least one below the largest int64.
    pub handle_upload-AllOrNothing :
        AllOrNothing w (handle_upload hash p c o user now id media_type upload_name body w)
    unfolding handle_upload
    handle_upload-AllOrNothing =
        store_sync-AllOrNothing (stage hash p c o id body w.files)
          (stage-Staged hash p c o tmp path named fits body id w.files located)
