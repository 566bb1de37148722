-- ===== src/Config/Valid.antt =====
-- Which configurations pass validation.
use synapse_media_worker.Base.{
  ℕ, ◌<◌, ◌%◌, ◌≡◌, ◌≢◌, refl, ◌⊎◌, inl, inr, ◌↔◌, Bool, true, false, not, ◌&&◌, [], ◌∷◌, ◌++◌,
  Bytes, bytes, contains, has_prefix, has_prefix_sound, has_prefix-append, bind-ok, Result, ok,
  ◌>>◌, ensure, arith, two63, two64, slt64, str_eq_iff, Bool-cases, if◌then◌else◌,
}
use synapse_media_worker.Paths.{clean_abs}
use synapse_media_worker.Synapse.{is_empty}
use synapse_media_worker.Config.{Config}
use synapse_media_worker.Config.Settings.{max_image_pixels_or_default, max_upload_size_or_default}
use synapse_media_worker.Config.Validate.{
  ConfigError, is_positive, validate, validate_uploads, validate_fetches,
}

-- A passed check and what follows it.
module _ {E : Type 0} {next : Result E (Unit {0})} where
  ensure-ok : (b : Bool) (e : E) → (ensure b e >> next) ≡ ok tt → (b ≡ true) × (next ≡ ok tt)
  ensure-ok true e h = (refl, h)
  ensure-ok false e h = cc

  ok-ensure : (b : Bool) (e : E) → b ≡ true → next ≡ ok tt → (ensure b e >> next) ≡ ok tt
  ok-ensure b e h n = rw h n

ensure_iff : {E : Type 0} (b : Bool) (e : E) → (ensure b e ≡ ok tt) ↔ (b ≡ true)
ensure_iff true e = (λ h. refl, λ h. refl)
ensure_iff false e = (λ h. cc, λ h. cc)

is_empty_iff : (s : Bytes) → (not (is_empty s) ≡ true) ↔ (s ≢ [])
unfolding is_empty
is_empty_iff [] = (λ h. cc, λ h. absurd (h refl))
is_empty_iff (c ∷ s) = (λ h e. cc, λ h. refl)

-- The bit pattern of a number above zero.
abbrev pub IsPositive : ℕ → Type 0
IsPositive n = (0 < n % two64) × (n % two64 < two63)

is_positive_iff : (n : ℕ) → (is_positive n ≡ true) ↔ IsPositive n
unfolding is_positive slt64
is_positive_iff n = ground arith

outside_iff : (s t : Bytes) → (not (has_prefix s t) ≡ true) ↔ ((r : Bytes) → s ≢ t ++ r)
outside_iff s t = (
  λ h r e. let p : has_prefix s t ≡ true = rw e (has_prefix-append t r) in cc,
  λ h. elim (Bool-cases (has_prefix s t)) [
    | inl p ↦ let (r, e) = has_prefix_sound s t p in absurd (h r e)
    | inr p ↦ rw p refl
  ],
)

either_iff : (s t : Bytes) → (not (is_empty s && is_empty t) ≡ true) ↔ ((s ≢ []) ⊎ (t ≢ []))
unfolding is_empty
either_iff [] [] = (λ h. cc, λ h. elim h [ inl n ↦ absurd (n refl) | inr n ↦ absurd (n refl) ])
either_iff (c ∷ s) t = (λ h. inl (λ e. cc), λ h. refl)
either_iff [] (c ∷ t) = (λ h. inr (λ e. cc), λ h. refl)

implies_iff : (b c : Bool) → (not (b && not c) ≡ true) ↔ (b ≡ true → c ≡ true)
implies_iff true true = (λ h e. refl, λ h. refl)
implies_iff true false = (λ h e. h, λ h. h refl)
implies_iff false c = (λ h e. cc, λ h. refl)

-- Unset, or one of two values.
abbrev pub IsOneOf : Bytes → Bytes → Bytes → Type 0
IsOneOf first second s = (s ≡ []) ⊎ ((s ≡ first) ⊎ (s ≡ second))

contains_iff : (a b s : Bytes) → (contains ([] ∷ a ∷ b ∷ []) s ≡ true) ↔ IsOneOf a b s
unfolding contains
contains_iff a b s = grind (arith, str_eq_iff [] s, str_eq_iff a s, str_eq_iff b s)

-- A setting that matters under a flag only.
flagged :
    (flag : Bool) (checks : Result ConfigError (Unit {0})) (P : Type 0)
    → ((checks ≡ ok tt) ↔ P)
    → ((if flag then checks else ok tt) ≡ ok tt) ↔ (flag ≡ true → P)
flagged true checks P h = (λ e f. h.0 e, λ k. h.1 (k refl))
flagged false checks P h = (λ e f. cc, λ k. refl)

-- A configuration with which the worker can start: what is required is there, the cache is outside
-- the media store, limits are positive, and what a flag needs is there.
pub record IsUsable (cwd : Bytes) (c : Config) : Type 0 where
  pub has_name : c.server_name ≢ []
  pub has_database : c.database.uri ≢ []
  pub has_store : c.media.store_path ≢ []
  pub has_cache : c.cache.dir ≢ []
  pub outside : (r : Bytes) → clean_abs cwd c.cache.dir ≢ clean_abs cwd c.media.store_path ++ r
  pub has_whoami : (c.auth.whoami_url ≢ []) ⊎ (c.auth.whoami_socket ≢ [])
  pub has_pixels : IsPositive (max_image_pixels_or_default c.media)
  pub writes_fetch : c.media.write_through_thumbnails ≡ true → c.media.fetch_remote ≡ true
  pub policy : IsOneOf (bytes "proxy") (bytes "ignore") c.media.module_upload_limits
  pub thumbnails : IsOneOf (bytes "none") (bytes "synapse") c.media.upload_thumbnails
  pub uploads : c.media.accept_uploads ≡ true → IsPositive (max_upload_size_or_default c.media)
  pub fetches :
      c.media.fetch_remote ≡ true
      → (c.media.signing_key_path ≢ []) × IsPositive (max_upload_size_or_default c.media)

module _ (c : Config) where
  uploads_iff :
      c.server_name ≢ []
      → (validate_uploads c ≡ ok tt)
        ↔ (c.media.accept_uploads ≡ true → IsPositive (max_upload_size_or_default c.media))
  unfolding validate_uploads
  uploads_iff named =
      flagged c.media.accept_uploads _ (IsPositive (max_upload_size_or_default c.media)) (
        λ h. (is_positive_iff _).0 (ensure-ok _ _ h).0,
        λ p.
            ok-ensure _ _ ((is_positive_iff _).1 p) ((ensure_iff _ _).1 ((is_empty_iff _).1 named)),
      )

  fetches_iff : (validate_fetches c ≡ ok tt) ↔ (
      c.media.fetch_remote ≡ true
      → (c.media.signing_key_path ≢ []) × IsPositive (max_upload_size_or_default c.media))
  unfolding validate_fetches
  fetches_iff =
      flagged c.media.fetch_remote _
        ((c.media.signing_key_path ≢ []) × IsPositive (max_upload_size_or_default c.media))
        (
          λ h.
              let (key, size) = ensure-ok _ _ h in
              ((is_empty_iff _).0 key, (is_positive_iff _).0 ((ensure_iff _ _).0 size)),
          λ (key, size).
              ok-ensure _ _ ((is_empty_iff _).1 key)
                ((ensure_iff _ _).1 ((is_positive_iff _).1 size)),
        )

-- Validation accepts exactly the configurations that are usable.
pub validate-IsUsable : (cwd : Bytes) (c : Config) → validate cwd c ≡ ok tt → IsUsable cwd c
unfolding validate
validate-IsUsable cwd c h =
    let (name, h1) = ensure-ok _ _ h in
    let (uri, h2) = ensure-ok _ _ h1 in
    let (store, h3) = ensure-ok _ _ h2 in
    let (dir, h4) = ensure-ok _ _ h3 in
    let (outside, h5) = ensure-ok _ _ h4 in
    let (whoami, h6) = ensure-ok _ _ h5 in
    let (pixels, h7) = ensure-ok _ _ h6 in
    let (writes, h8) = ensure-ok _ _ h7 in
    let (policy, h9) = ensure-ok _ _ h8 in
    let (thumbnails, h10) = ensure-ok _ _ h9 in
    let (done, uploads, fetches) = bind-ok _ _ h10 in
    record {
      has_name = (is_empty_iff _).0 name;
      has_database = (is_empty_iff _).0 uri;
      has_store = (is_empty_iff _).0 store;
      has_cache = (is_empty_iff _).0 dir;
      outside = (outside_iff _ _).0 outside;
      has_whoami = (either_iff _ _).0 whoami;
      has_pixels = (is_positive_iff _).0 pixels;
      writes_fetch = (implies_iff _ _).0 writes;
      policy = (contains_iff _ _ _).0 policy;
      thumbnails = (contains_iff _ _ _).0 thumbnails;
      uploads = (uploads_iff c ((is_empty_iff _).0 name)).0 uploads;
      fetches = (fetches_iff c).0 fetches;
    }

IsUsable-validate : (cwd : Bytes) (c : Config) → IsUsable cwd c → validate cwd c ≡ ok tt
unfolding validate
IsUsable-validate cwd c u = ok-ensure _ _ ((is_empty_iff _).1 u.has_name) (
    ok-ensure _ _ ((is_empty_iff _).1 u.has_database) (
      ok-ensure _ _ ((is_empty_iff _).1 u.has_store) (
        ok-ensure _ _ ((is_empty_iff _).1 u.has_cache) (
          ok-ensure _ _ ((outside_iff _ _).1 u.outside) (
            ok-ensure _ _ ((either_iff _ _).1 u.has_whoami) (
              ok-ensure _ _ ((is_positive_iff _).1 u.has_pixels) (
                ok-ensure _ _ ((implies_iff _ _).1 u.writes_fetch) (
                  ok-ensure _ _ ((contains_iff _ _ _).1 u.policy) (
                    ok-ensure _ _ ((contains_iff _ _ _).1 u.thumbnails) (
                      rw ((uploads_iff c u.has_name).1 u.uploads)
                        ((fetches_iff c).1 u.fetches)))))))))))

-- Validation accepts exactly the usable configurations: server name, database, media store, cache
-- directory and a whoami endpoint are set; the text of the cache directory's path does not begin with
-- that of the media store; the limit on pixels is positive, and so is that on uploads where uploads
-- are accepted or media is fetched; fetching has a signing key; writing thumbnails through goes with
-- fetching; and the two settings with named values have one of them or are empty.
pub validate_iff : (cwd : Bytes) (c : Config) → (validate cwd c ≡ ok tt) ↔ IsUsable cwd c
validate_iff cwd c = (validate-IsUsable cwd c, IsUsable-validate cwd c)
