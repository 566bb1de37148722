-- ===== src/Upload/Request.antt =====
-- upload.go: authentication, the headers and the whole of handleUpload.
use synapse_media_worker.Base.{
  ℕ, ◌≡◌, ◌≢◌, refl, sym, ap, ◌∙◌, Bool, true, false, not, ◌||◌, Option, none, some, [],
  if◌then◌else◌, Bytes, bytes, str_eq, Result, ok, err, ◌==◌, Bool-cases, Option-cases, inl, inr,
  ◌⊎◌, slt64,
}
use synapse_media_worker.Decimal.{parse_int}
use synapse_media_worker.Paths.{MediaPaths}
use synapse_media_worker.Store.{World}
use synapse_media_worker.Tokens.{Credentials, TokenVerdict, AuthError, MatrixError}
use synapse_media_worker.Upload.{
  UploadConfig, UploadOutcomes, UploadReply, uploaded, upload_metadata, handle_upload,
}

-- The answers of `handleUpload` as a whole. `proxied` hands the request to Synapse.
pub data RequestReply : Type 0 where
  unknown_path proxied missing_token auth_unavailable masquerade_forbidden unknown_token :
      RequestReply
  rejected : ℕ → MatrixError → RequestReply
  answered : UploadReply → RequestReply

unfoldable pub valid_legacy_version : Bytes → Bool
valid_legacy_version v = str_eq v (bytes "r0") || str_eq v (bytes "v1") || str_eq v (bytes "v3")

unfoldable pub refusal : Credentials → TokenVerdict → Option MatrixError → RequestReply
refusal creds v (some e) = rejected (if v.status == 0 then 403 else v.status) e
refusal creds v none = if not (str_eq creds.user_id []) then masquerade_forbidden else unknown_token

unfoldable pub judge : Credentials → Result AuthError TokenVerdict → Result RequestReply Bytes
judge creds (err e) = err auth_unavailable
judge creds (ok v) = if v.valid then ok v.user_id else err (refusal creds v v.rejection)

-- `authenticateUploader`, where `verdict` is what AuthenticateAs brings.
unfoldable pub authenticate_uploader :
    Credentials → Result AuthError TokenVerdict → Result RequestReply Bytes
authenticate_uploader creds verdict =
    if str_eq creds.token [] then err missing_token else judge creds verdict

-- What `handleUpload` reads of a request.
pub record UploadRequest : Type 0 where
  pub version : Bytes
  pub credentials : Credentials
  pub content_length : Bytes
  pub content_type : Bytes
  pub filename : Bytes
  pub body : Bytes

unfoldable pub reply_of : World × UploadReply → World × RequestReply
reply_of (w, r) = (w, answered r)

module _ (hash : Bytes → Bytes) (p : MediaPaths) (c : UploadConfig) (o : UploadOutcomes) (now : ℕ)
    (id : Bytes) (enabled : Bool) (verdict : Result AuthError TokenVerdict)
    (r : UploadRequest) where
  unfoldable pub with_metadata :
      Bytes → World → Result UploadReply (Bytes × Bytes × ℕ) → World × RequestReply
  with_metadata user w (err reply) = (w, answered reply)
  with_metadata user w (ok (media_type, upload_name, size)) =
      reply_of (handle_upload hash p c o user now id media_type upload_name r.body w)

  unfoldable pub with_user : World → Result RequestReply Bytes → World × RequestReply
  with_user w (err reply) = (w, reply)
  with_user w (ok user) =
      with_metadata user w (upload_metadata c r.content_length r.content_type r.filename)

  -- `handleUpload`. `enabled` is whether this worker accepts uploads.
  unfoldable pub post_upload : World → World × RequestReply
  post_upload w =
      if not (valid_legacy_version r.version)
      then (w, unknown_path)
      else if not enabled
      then (w, proxied)
      else with_user w (authenticate_uploader r.credentials verdict)

  -- The request is stored for this user.
  pub record IsStoredFor (w : World) (v : TokenVerdict) : Type 0 where
    pub accepted : verdict ≡ ok v
    pub valid : v.valid ≡ true
    pub has_token : str_eq r.credentials.token [] ≡ false
    pub accepts_uploads : enabled ≡ true
    pub metadata : Bytes × Bytes × ℕ
    pub read_metadata : upload_metadata c r.content_length r.content_type r.filename ≡ ok metadata
    pub stored :
        post_upload w
        ≡ reply_of (handle_upload hash p c o v.user_id now id metadata.0 metadata.1 r.body w)

  -- The store is left as it was, and the answer is an error: no URI, and not what Synapse answers.
  abbrev pub IsRefused : World → Type 0
  IsRefused w =
      ((post_upload w).0 ≡ w)
      × ((uri : Bytes) → (post_upload w).1 ≢ answered (uploaded uri))
      × ((post_upload w).1 ≢ proxied)

  -- This worker accepts no uploads, and the request is handed to Synapse as it came.
  abbrev pub IsHandedOver : World → Type 0
  IsHandedOver w =
      (enabled ≡ false) × (valid_legacy_version r.version ≡ true) × (post_upload w ≡ (w, proxied))

  turned_away :
      (w : World) (reply : RequestReply)
      → ((uri : Bytes) → reply ≢ answered (uploaded uri))
      → reply ≢ proxied
      → post_upload w ≡ (w, reply)
      → IsRefused w
  turned_away w reply h k e = (
    ap (λ x. x.0) e,
    (λ uri p. h uri (sym (ap (λ x. x.1) e) ∙ p)),
    (λ p. k (sym (ap (λ x. x.1) e) ∙ p)),
  )

  post_upload_judged :
      (w : World)
      → valid_legacy_version r.version ≡ true
      → enabled ≡ true
      → post_upload w ≡ with_user w (authenticate_uploader r.credentials verdict)
  unfolding post_upload
  post_upload_judged w h k =
      ap
        (λ b.
          if not b
          then (w, unknown_path)
          else if not enabled
          then (w, proxied)
          else with_user w (authenticate_uploader r.credentials verdict))
        h
      ∙ ap
          (λ b.
            if not b
            then (w, proxied)
            else with_user w (authenticate_uploader r.credentials verdict))
          k

refusal-no_uri :
    (creds : Credentials) (v : TokenVerdict) (e : Option MatrixError) (uri : Bytes)
    → refusal creds v e ≢ answered (uploaded uri)
unfolding refusal
refusal-no_uri creds v (some e) uri h = cc h
refusal-no_uri creds v none uri h = elim (Bool-cases (str_eq creds.user_id [])) [
  | inl empty ↦ cc (rw empty at h)
  | inr named ↦ cc (rw named at h)
]

judge-no_uri :
    (creds : Credentials) (verdict : Result AuthError TokenVerdict) (reply : RequestReply)
    (uri : Bytes)
    → judge creds verdict ≡ err reply
    → reply ≢ answered (uploaded uri)
unfolding judge
judge-no_uri creds (err e) reply uri h k = cc (h, k)
judge-no_uri creds (ok v) reply uri h k = elim (Bool-cases v.valid) [
  | inl valid ↦ cc (rw valid at h)
  | inr invalid ↦
      let same : refusal creds v v.rejection ≡ reply = cc (rw invalid at h) in
      refusal-no_uri creds v v.rejection uri (same ∙ k)
]

refusal-not_proxied :
    (creds : Credentials) (v : TokenVerdict) (e : Option MatrixError) → refusal creds v e ≢ proxied
unfolding refusal
refusal-not_proxied creds v (some e) h = cc h
refusal-not_proxied creds v none h = elim (Bool-cases (str_eq creds.user_id [])) [
  | inl empty ↦ cc (rw empty at h)
  | inr named ↦ cc (rw named at h)
]

judge-not_proxied :
    (creds : Credentials) (verdict : Result AuthError TokenVerdict) (reply : RequestReply)
    → judge creds verdict ≡ err reply
    → reply ≢ proxied
unfolding judge
judge-not_proxied creds (err e) reply h k = cc (h, k)
judge-not_proxied creds (ok v) reply h k = elim (Bool-cases v.valid) [
  | inl valid ↦ cc (rw valid at h)
  | inr invalid ↦
      let same : refusal creds v v.rejection ≡ reply = cc (rw invalid at h) in
      refusal-not_proxied creds v v.rejection (same ∙ k)
]

upload_metadata-no_uri :
    (c : UploadConfig) (raw content_type filename : Bytes) (reply : UploadReply) (uri : Bytes)
    → upload_metadata c raw content_type filename ≡ err reply
    → reply ≢ uploaded uri
unfolding upload_metadata
upload_metadata-no_uri c raw content_type filename reply uri h k =
    elim (Bool-cases (str_eq raw [])) [
      | inl empty ↦ cc (rw empty at h, k)
      | inr given ↦ elim (Option-cases (parse_int raw)) [
        | inl bad ↦ cc (rw (given, bad, upload_metadata) at h, k)
        | inr (n, parsed) ↦ elim (Bool-cases (slt64 n 0)) [
          | inl negative ↦ cc (rw (given, parsed, upload_metadata, negative) at h, k)
          | inr fine ↦ elim (Bool-cases (slt64 c.max_upload_size n)) [
            | inl large ↦ cc (rw (given, parsed, upload_metadata, fine, large) at h, k)
            | inr small ↦ cc (rw (given, parsed, upload_metadata, fine, small) at h, k)
          ]
        ]
      ]
    ]

module _ (hash : Bytes → Bytes) (p : MediaPaths) (c : UploadConfig) (o : UploadOutcomes) (now : ℕ)
    (id : Bytes) (enabled : Bool) (verdict : Result AuthError TokenVerdict)
    (r : UploadRequest) where
  abbrev Outcome : World → Type 0
  Outcome w =
      ((v : TokenVerdict) × IsStoredFor hash p c o now id enabled verdict r w v)
      ⊎ IsRefused hash p c o now id enabled verdict r w

  -- The verdict lets the request in.
  user_accepted :
      (x : Result AuthError TokenVerdict) (user : Bytes)
      → judge r.credentials x ≡ ok user
      → (v : TokenVerdict) × (x ≡ ok v) × (v.valid ≡ true) × (v.user_id ≡ user)
  unfolding judge
  user_accepted (err e) user h = cc h
  user_accepted (ok v) user h = elim (Bool-cases v.valid) [
    | inl valid ↦ (v, refl, valid, cc (rw valid at h))
    | inr invalid ↦ cc (rw invalid at h)
  ]

  with_metadata-Outcome :
      (w : World) (v : TokenVerdict) (x : Result UploadReply (Bytes × Bytes × ℕ))
      → verdict ≡ ok v
      → v.valid ≡ true
      → str_eq r.credentials.token [] ≡ false
      → enabled ≡ true
      → upload_metadata c r.content_length r.content_type r.filename ≡ x
      → post_upload hash p c o now id enabled verdict r w
        ≡ with_metadata hash p c o now id enabled verdict r v.user_id w x
      → Outcome w
  unfolding with_metadata
  with_metadata-Outcome w v (err reply) a valid t en m e = inr (
      turned_away hash p c o now id enabled verdict r w (answered reply)
        (λ uri k.
          upload_metadata-no_uri c r.content_length r.content_type r.filename reply uri m (cc k))
        (λ k. cc k) e)
  with_metadata-Outcome w v (ok metadata) a valid t en m e = inl (
    v,
    record {
      accepted = a;
      valid = valid;
      has_token = t;
      accepts_uploads = en;
      metadata = metadata;
      read_metadata = m;
      stored = e;
    },
  )

  with_user-Outcome :
      (w : World) (x : Result RequestReply Bytes)
      → str_eq r.credentials.token [] ≡ false
      → enabled ≡ true
      → judge r.credentials verdict ≡ x
      → post_upload hash p c o now id enabled verdict r w
        ≡ with_user hash p c o now id enabled verdict r w x
      → Outcome w
  unfolding with_user
  with_user-Outcome w (err reply) t en j e = inr (
      turned_away hash p c o now id enabled verdict r w reply
        (λ uri k. judge-no_uri r.credentials verdict reply uri j k)
        (judge-not_proxied r.credentials verdict reply j) e)
  with_user-Outcome w (ok user) t en j e =
      let (v, a, valid, same) = user_accepted verdict user j in
      let meta = upload_metadata c r.content_length r.content_type r.filename in
      with_metadata-Outcome w v meta a valid t en refl
        (e ∙ ap (λ u. with_metadata hash p c o now id enabled verdict r u w meta) (sym same))

  widen :
      (w : World)
      → Outcome w
      → ((v : TokenVerdict) × IsStoredFor hash p c o now id enabled verdict r w v)
        ⊎ (IsRefused hash p c o now id enabled verdict r w
            ⊎ IsHandedOver hash p c o now id enabled verdict r w)
  widen w (inl stored) = inl stored
  widen w (inr refused) = inr (inl refused)

  -- An upload is accepted here only for a user that Synapse vouches for. Either the request carries a
  -- token that the verdict accepts, and the outcome is that of storing it in the name of the verdict's
  -- user, whatever user the request names, with the type and name of its headers; or it is refused,
  -- the store is as it was and the answer is an error; or this worker accepts no uploads, and the
  -- request is handed to Synapse with the store as it was.
  pub post_upload-IsStoredFor :
      (w : World)
      → ((v : TokenVerdict) × IsStoredFor hash p c o now id enabled verdict r w v)
        ⊎ (IsRefused hash p c o now id enabled verdict r w
            ⊎ IsHandedOver hash p c o now id enabled verdict r w)
  unfolding post_upload authenticate_uploader with_user
  post_upload-IsStoredFor w = elim (Bool-cases (valid_legacy_version r.version)) [
    | inr bad ↦ inr (
        inl (
          turned_away hash p c o now id enabled verdict r w unknown_path (λ uri k. cc k) (λ k. cc k)
            (rw bad refl)))
    | inl good ↦ elim (Bool-cases enabled) [
      | inr off ↦ inr (inr (off, good, rw (good, off) refl))
      | inl on ↦
          let judged = post_upload_judged hash p c o now id enabled verdict r w good on in
          let go = with_user hash p c o now id enabled verdict r w in
          elim (Bool-cases (str_eq r.credentials.token [])) [
            | inl empty ↦ inr (
                inl (
                  turned_away hash p c o now id enabled verdict r w missing_token (λ uri k. cc k)
                    (λ k. cc k)
                    (judged
                      ∙ ap (λ b. go (if b then err missing_token else judge r.credentials verdict))
                          empty)))
            | inr token ↦ widen w (
                with_user-Outcome w (judge r.credentials verdict) token on refl (
                  judged
                  ∙ ap (λ b. go (if b then err missing_token else judge r.credentials verdict))
                      token))
          ]
    ]
  ]
