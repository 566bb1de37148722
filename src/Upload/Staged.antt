-- ===== src/Upload/Staged.antt =====
-- What is on disk before an upload is installed.
use synapse_media_worker.Base.{
  ℕ, zero, suc, ◌<◌, ap, [], ◌∷◌, two63, add64, add64_exact, slt64, slt64_exact, lt→ltb, ◌≤◌, ◌≡◌,
  refl, sym, subst, ◌∙◌, Bool, true, false, not, Option, none, some, if◌then◌else◌, Bytes, take,
  length, Result, ok, err, arith,
}
use synapse_media_worker.Paths.{MediaPaths, local_media, writable_path, create_temp_dir}
use synapse_media_worker.Store.{Files, find_file, remove_file, write_file, is_ok}
use synapse_media_worker.Store.Files.{
  find-write_file, find-write_file_other, find-remove_file_other,
}
use synapse_media_worker.Store.Promise.{SameBut}
use synapse_media_worker.Upload.{
  UploadConfig, UploadOutcomes, UploadError, StoredUpload, read_limited, stage_into, stage_temp,
  stage_at, stage,
}

-- A body of which no more than the limit is read has been read as a whole.
take_whole : (n : ℕ) (body : Bytes) → length (take (suc n) body) ≤ n → take (suc n) body ≡ body
take_whole n [] h = refl
take_whole zero (c ∷ body) h = absurd (omega arith)
take_whole (suc n) (c ∷ body) h = ap (λ s. c ∷ s) (take_whole n body (omega arith))

length-take_le : (n : ℕ) (body : Bytes) → length (take n body) ≤ n
length-take_le zero body = omega arith
length-take_le (suc n) [] = omega arith
length-take_le (suc n) (c ∷ body) = omega (arith, length-take_le n body)

read_limited-take :
    (max : ℕ) (body : Bytes) → suc max < two63 → read_limited max body ≡ take (suc max) body
unfolding read_limited
read_limited-take max body h =
    let sum : add64 max 1 ≡ suc max = add64_exact max 1 (omega arith) ∙ omega arith in
    let positive : slt64 0 (suc max) ≡ true =
      slt64_exact 0 (suc max) (omega arith) h ∙ lt→ltb 0 (suc max) (omega arith) in
    rw (sum, positive) refl

-- Below the largest number, a body that passes the test on its length has been read as a whole, and is
-- within the limit.
read_limited-whole :
    (max : ℕ) (body : Bytes)
    → suc max < two63
    → slt64 max (length (read_limited max body)) ≡ false
    → (read_limited max body ≡ body) × (length body ≤ max)
read_limited-whole max body h fits =
    let part = read_limited-take max body h in
    let short = length-take_le (suc max) body in
    let le : length (take (suc max) body) ≤ max =
      ground
        (arith, part, slt64_exact max (length (take (suc max) body)) (omega arith) (omega arith)) in
    let whole = take_whole max body le in (part ∙ whole, subst (λ s. length s ≤ max) whole le)

module _ (hash : Bytes → Bytes) (p : MediaPaths) (c : UploadConfig) (o : UploadOutcomes)
    (tmp path : Bytes) (named : (t : Bytes) → o.temp ≡ some t → t ≡ tmp)
    (fits : suc c.max_upload_size < two63) (body : Bytes) where
  -- A description of the complete body, which is within the limit, in the temporary file.
  pub record IsStaged (files : Files) (s : StoredUpload) : Type 0 where
    pub at_tmp : s.tmp_path ≡ tmp
    pub for_path : s.path ≡ path
    pub whole : find_file tmp files ≡ some body
    pub size : s.length ≡ length body
    pub digest : s.sha256 ≡ hash body
    pub small : length body ≤ c.max_upload_size

  -- Only the temporary file changes; and it holds the body where staging succeeds.
  abbrev pub Staged : Files → Files × Result UploadError StoredUpload → Type 0
  Staged files (files', err e) = SameBut tmp files files'
  Staged files (files', ok s) = SameBut tmp files files' × IsStaged files' s

  branch :
      (files : Files) (b : Bool) (x y : Files × Result UploadError StoredUpload)
      → (b ≡ true → Staged files x)
      → (b ≡ false → Staged files y)
      → Staged files (if b then x else y)
  branch files true x y h k = h refl
  branch files false x y h k = k refl

  stage_into-Staged : (files : Files) → Staged files (stage_into hash p c o path tmp body files)
  unfolding stage_into
  stage_into-Staged files =
      let read = read_limited c.max_upload_size body in
      let others : SameBut tmp files (write_file tmp read files) =
        λ y h. find-write_file_other tmp y read files h in
      let gone : SameBut tmp files (remove_file tmp (write_file tmp read files)) =
        λ y h. find-remove_file_other tmp y (write_file tmp read files) h ∙ others y h in
      branch files (not o.body_ok) _ _ (λ e. gone)
        (λ e.
          branch files (slt64 c.max_upload_size (length read)) _ _ (λ e. gone)
            (λ passed.
              let (whole, small) = read_limited-whole c.max_upload_size body fits passed in
              branch files (not o.sync_ok) _ _ (λ e. gone)
                (λ e.
                  branch files (not o.close_ok) _ _ (λ e. gone)
                    (λ e.
                      branch files (not o.chmod_ok) _ _ (λ e. gone)
                        (λ e. (
                          others,
                          record {
                            at_tmp = refl;
                            for_path = refl;
                            whole = find-write_file tmp read files ∙ ap some whole;
                            size = ap length whole;
                            digest = ap hash whole;
                            small = small;
                          },
                        ))))))

  stage_temp-Staged :
      (temp : Option Bytes) (files : Files)
      → ((t : Bytes) → temp ≡ some t → t ≡ tmp)
      → Staged files (stage_temp hash p c o path temp body files)
  unfolding stage_temp
  stage_temp-Staged none files h = λ y k. refl
  stage_temp-Staged (some t) files h =
      subst (λ x. Staged files (stage_into hash p c o path x body files)) (sym (h t refl))
        (stage_into-Staged files)

  stage_at-Staged : (files : Files) → Staged files (stage_at hash p c o (ok path) body files)
  unfolding stage_at
  stage_at-Staged files =
      branch files (not (is_ok (writable_path p path))) _ _ (λ e y k. refl)
        (λ e.
          branch files (not o.mkdir_ok) _ _ (λ e y k. refl)
            (λ e.
              branch files (not (is_ok (create_temp_dir p path))) _ _ (λ e y k. refl)
                (λ e. stage_temp-Staged o.temp files named)))

  pub stage-Staged :
      (id : Bytes) (files : Files)
      → local_media p id ≡ ok path
      → Staged files (stage hash p c o id body files)
  unfolding stage
  stage-Staged id files located =
      branch files o.acquired _ _
        (λ e.
          subst (λ x. Staged files (stage_at hash p c o x body files)) (sym located)
            (stage_at-Staged files))
        (λ e y k. refl)
