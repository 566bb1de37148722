-- ===== src/Upload/Async.antt =====
-- An asynchronous upload that does not win its row leaves the media's file alone.
use synapse_media_worker.Base.{
  ℕ, suc, ◌<◌, ◌≤◌, two63, ◌-◌, ltb, ◌*◌, ◌≡◌, refl, sym, ap, subst, ◌∙◌, Bool, true, false, not,
  Option, none, some, List, if◌then◌else◌, Bytes, length, Result, ok, err, Bool-cases, inl, inr,
  ◌⊎◌, str_eq,
}
use synapse_media_worker.Paths.{MediaPaths, local_media}
use synapse_media_worker.Database.{
  is_null, LocalMedia, Completion, complete_local_media, get_local_media,
}
use synapse_media_worker.Store.{Files, World, find_file, remove_file, rename_file, with_files}
use synapse_media_worker.Store.Files.{find-remove_file_other, find-rename_file}
use synapse_media_worker.Store.Promise.{SameBut}
use synapse_media_worker.Upload.{
  UploadConfig, UploadOutcomes, UploadError, UploadReply, StoredUpload, uploaded, failed,
  content_uri, commit, discard, quarantine_for, stage, install_won, completed_async, admit_async,
  store_async, check_pending, answer_async, handle_async_upload, within_limits, not_local,
}
use synapse_media_worker.Upload.Staged.{IsStaged, Staged, stage-Staged}
use synapse_media_worker.Upload.Sync.{IsFailure, commit_good, commit_bad, within_limits-IsFailure}

module _ (hash : Bytes → Bytes) (p : MediaPaths) (c : UploadConfig) (o : UploadOutcomes)
    (tmp path : Bytes) (named : (t : Bytes) → o.temp ≡ some t → t ≡ tmp)
    (fits : suc c.max_upload_size < two63) (body : Bytes) (user : Bytes) (now : ℕ)
    (id media_type upload_name : Bytes) (located : local_media p id ≡ ok path) where
  -- What the winner writes into the row.
  abbrev pub completion : World → ℕ → Bytes → Completion
  completion w size sha = record {
    media_type = media_type;
    upload_name = upload_name;
    length = size;
    sha256 = sha;
    quarantined_by = quarantine_for w sha;
  }

  -- No success is answered, and no file but the temporary one has changed.
  abbrev pub Leaves : World → World × UploadReply → Type 0
  Leaves w r = IsFailure r.1 × SameBut tmp w.files r.0.files

  -- The database gave the row to this upload, and the complete body is the media's file
  -- and within the size limit.
  abbrev pub Wins : World → World × UploadReply → Type 0
  Wins w r =
      (r.1 ≡ uploaded (content_uri c id))
      × (complete_local_media w.local id (completion w (length body) (hash body))
          ≡ (r.0.local, true))
      × (find_file path r.0.files ≡ some body)
      × (length body ≤ c.max_upload_size)

  choose :
      (w : World) (b : Bool) (x y : World × UploadReply)
      → (b ≡ true → Leaves w x ⊎ Wins w x)
      → (b ≡ false → Leaves w y ⊎ Wins w y)
      → Leaves w (if b then x else y) ⊎ Wins w (if b then x else y)
  choose w true x y h k = h refl
  choose w false x y h k = k refl

  module _ (w : World) (s : StoredUpload)
      (st : IsStaged hash p c o tmp path named fits body w.files s) where
    at_tmp : find_file s.tmp_path w.files ≡ some body
    at_tmp = ap (λ x. find_file x w.files) st.at_tmp ∙ st.whole

    gone : SameBut tmp w.files (remove_file s.tmp_path w.files)
    gone y h = find-remove_file_other s.tmp_path y w.files (λ e. h (sym st.at_tmp ∙ e))

    same_completion : completion w s.length s.sha256 ≡ completion w (length body) (hash body)
    same_completion =
        ap (λ n. completion w n s.sha256) st.size ∙ ap (completion w (length body)) st.digest

    completed_async-outcome :
        (r : List LocalMedia × Bool)
        → complete_local_media w.local id (completion w s.length s.sha256) ≡ r
        → Leaves w (completed_async hash p c o user now id media_type upload_name w s r)
          ⊎ Wins w (completed_async hash p c o user now id media_type upload_name w s r)
    unfolding completed_async install_won with_files discard commit
    completed_async-outcome (rows, false) e = inl ((λ u f. cc f), gone)
    completed_async-outcome (rows, true) e =
        let w1 : World = record { files = w.files; local = rows; remote = w.remote } in
        let done = install_won hash p c o user now id media_type upload_name w1 s in
        elim (Bool-cases o.rename_ok) [
          | inl good ↦
              subst (λ x. Leaves w (done x) ⊎ Wins w (done x)) (sym (commit_good o s w.files good))
                (inr (
                  refl,
                  ap (complete_local_media w.local id) (sym same_completion) ∙ e,
                  ap (λ x. find_file x (rename_file s.tmp_path s.path w.files)) (sym st.for_path)
                      ∙ find-rename_file s.tmp_path s.path body w.files at_tmp,
                  st.small,
                ))
          | inr bad ↦
              subst (λ x. Leaves w (done x) ⊎ Wins w (done x)) (sym (commit_bad o s w.files bad))
                (inl ((λ u f. cc f), gone))
        ]

    admit_async-outcome :
        (limit : Option UploadReply)
        → ((r : UploadReply) → limit ≡ some r → IsFailure r)
        → Leaves w (admit_async hash p c o user now id media_type upload_name w s limit)
          ⊎ Wins w (admit_async hash p c o user now id media_type upload_name w s limit)
    unfolding admit_async with_files discard
    admit_async-outcome (some r) h = inl (h r refl, gone)
    admit_async-outcome none h =
        choose w o.row_ok
          (completed_async hash p c o user now id media_type upload_name w s
            (complete_local_media w.local id (completion w s.length s.sha256)))
          (with_files w (remove_file s.tmp_path w.files), failed)
          (λ good. completed_async-outcome _ refl) (λ bad. inl ((λ u f. cc f), gone))

  module _ (others : World → World)
      (kept : (x : World) → find_file tmp (others x).files ≡ find_file tmp x.files) where
    -- Nothing but the temporary file changes, or the outcome is one of the two above on the store as
    -- the other requests left it.
    abbrev pub WinnerOnly : World → Files → World × UploadReply → Type 0
    WinnerOnly w files r =
        Leaves w r ⊎ (Leaves (others (with_files w files)) r ⊎ Wins (others (with_files w files)) r)

    store_async-WinnerOnly :
        (w : World) (r : Files × Result UploadError StoredUpload)
        → Staged hash p c o tmp path named fits body w.files r
        → WinnerOnly w r.0 (store_async hash p c o user now id media_type upload_name others w r)
    unfolding store_async with_files discard
    store_async-WinnerOnly w (files, err e) same = inl ((λ u f. cc f), same)
    store_async-WinnerOnly w (files, ok s) (same, st) =
        let w1 = others (with_files w files) in
        let again : IsStaged hash p c o tmp path named fits body w1.files s = record {
          at_tmp = st.at_tmp;
          for_path = st.for_path;
          whole = kept (with_files w files) ∙ st.whole;
          size = st.size;
          digest = st.digest;
          small = st.small;
        } in
        let limit = within_limits hash p c o w1 user s.length (now * 1000000) in
        inr (
          choose w1 o.quarantine_ok
            (admit_async hash p c o user now id media_type upload_name w1 s limit)
            (with_files w1 (remove_file s.tmp_path w1.files), failed)
            (λ good.
              admit_async-outcome w1 s again limit
                (within_limits-IsFailure hash p c o w1 user s.length (now * 1000000)))
            (λ bad. inl ((λ u f. cc f), gone w1 s again)))

    Refuses : Option UploadReply → Type 0
    Refuses none = Unit {0}
    Refuses (some r) = IsFailure r

    pick :
        (b : Bool) (x y : Option UploadReply) → Refuses x → Refuses y → Refuses (if b then x else y)
    pick true x y h k = h
    pick false x y h k = k

    check_pending-Refuses :
        (m : Option LocalMedia)
        → Refuses (check_pending hash p c o user now id media_type upload_name m)
    unfolding check_pending Refuses
    check_pending-Refuses none = λ u f. cc f
    check_pending-Refuses (some m) =
        pick (not (str_eq m.user_id user)) _ _ (λ u f. cc f)
          (pick (not (is_null m.length)) _ _ (λ u f. cc f)
            (pick (ltb m.created_ts (now - c.unused_expiration)) _ _ (λ u f. cc f) tt))

    answer_async-WinnerOnly :
        (w : World) (checked : Option UploadReply)
        → Refuses checked
        → WinnerOnly w
            (stage hash p c o id body w.files).0
            (answer_async hash p c o user now id media_type upload_name others body w checked)
    unfolding answer_async Refuses
    answer_async-WinnerOnly w (some r) h = inl (h, λ y k. refl)
    answer_async-WinnerOnly w none h =
        store_async-WinnerOnly w (stage hash p c o id body w.files)
          (stage-Staged hash p c o tmp path named fits body id w.files located)

    either :
        (w : World) (files : Files) (b : Bool) (x y : World × UploadReply)
        → WinnerOnly w files x
        → WinnerOnly w files y
        → WinnerOnly w files (if b then x else y)
    either w files true x y h k = h
    either w files false x y h k = k

    -- An asynchronous upload touches the media's file only if the database gave it the row, and then the
    -- file is its complete body, which is within the size limit and which the row describes. In all other cases, a lost race and every
    -- failure among them, the answer is an error and no file but the temporary one differs from what
    -- was there before or what the other requests left. The other requests may do anything to the store
    -- but write this request's temporary file; and the size limit is at least one below the largest
    -- int64.
    pub handle_async_upload-WinnerOnly :
        (server : Bytes) (w : World)
        → WinnerOnly w
            (stage hash p c o id body w.files).0
            (handle_async_upload hash p c o user now id media_type upload_name others server body w)
    unfolding handle_async_upload
    handle_async_upload-WinnerOnly server w =
        let files = (stage hash p c o id body w.files).0 in
        let checked =
          check_pending hash p c o user now id media_type upload_name
            (get_local_media w.local id) in
        either w files (not (str_eq server c.server_name)) (w, not_local) _
          (inl ((λ u f. cc f), λ y k. refl))
          (either w files o.lookup_ok
            (answer_async hash p c o user now id media_type upload_name others body w checked)
            (w, failed)
            (answer_async-WinnerOnly w checked (check_pending-Refuses (get_local_media w.local id)))
            (inl ((λ u f. cc f), λ y k. refl)))
