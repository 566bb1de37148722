-- ===== src/Limits/Quota.antt =====
-- Skipping queries does not change which limit is reported.
use synapse_media_worker.Base.{
  ℕ, ◌+◌, ◌<◌, ◌≤◌, ◌≡◌, refl, true, Option, none, some, List, [], ◌∷◌, ltb, if◌then◌else◌, All,
  arith, Bool-cases, inl, inr, Bytes, Result, ok, add64_exact, slt64_exact, two63,
}
use synapse_media_worker.Database.{LocalMedia, uploaded_size_for_user}
use synapse_media_worker.Database.Usage.{uploaded_size_for_user_antitone}
use synapse_media_worker.Limits.{
  MediaUploadLimit, signed, not_before, over, check_limits, evaluate_upload_limits, exceeded_limit,
  sort_limits,
}
use synapse_media_worker.Limits.Order.{IsLongestFirst, sort_limits-IsLongestFirst}

-- The specification, in which every limit is measured over its own window: the first limit that the
-- upload would take the user over.
unfoldable pub first_exceeded : (ℕ → ℕ) → ℕ → List MediaUploadLimit → Option MediaUploadLimit
first_exceeded used size [] = none
first_exceeded used size (limit ∷ limits) =
    let rest = first_exceeded used size limits in
    if ltb limit.max_bytes (used limit.window + size) then some limit else rest

-- A ceiling that fits an int64.
abbrev pub IsCeiling : MediaUploadLimit → Type 0
IsCeiling limit = limit.max_bytes < two63

over_exact :
    (used size : ℕ) (limit : MediaUploadLimit)
    → used + size < two63
    → IsCeiling limit
    → over used size limit ≡ ltb limit.max_bytes (used + size)
unfolding over
over_exact used size limit h k =
    rw (add64_exact used size (omega arith)) (slt64_exact limit.max_bytes (used + size) k h)

abbrev query : (ℕ → ℕ) → ℕ → Result (Unit {0}) ℕ
query total t = ok (total t)

module _ (total : ℕ → ℕ) (size now : ℕ) (antitone : (s t : ℕ) → s ≤ t → total t ≤ total s)
    (bounded : (t : ℕ) → total t + size < two63) where
  measured_monotone :
      (v w : ℕ) → signed v ≤ signed w → total (not_before now v) ≤ total (not_before now w)
  unfolding not_before
  measured_monotone v w h = antitone (not_before now w) (not_before now v) (omega arith)

  -- A usage that was measured over a window at least as long as those that remain decides as their own.
  check_limits_skips :
      (w : ℕ) (limits : List MediaUploadLimit)
      → IsLongestFirst limits
      → All (λ x. signed x.window ≤ signed w) limits
      → All IsCeiling limits
      → check_limits (query total) size now (some (total (not_before now w))) limits
        ≡ ok (first_exceeded (λ v. total (not_before now v)) size limits)
  unfolding check_limits first_exceeded
  check_limits_skips w [] s b c = refl
  check_limits_skips w (l ∷ limits) (a, s) (bw, b) (cl, c) =
      let own =
        over_exact (total (not_before now l.window)) size l (bounded (not_before now l.window))
          cl in
      let carried = over_exact (total (not_before now w)) size l (bounded (not_before now w)) cl in
      let le = measured_monotone l.window w bw in
      elim (Bool-cases (ltb l.max_bytes (total (not_before now l.window) + size))) [
        | inl exceeded ↦
            let more : ltb l.max_bytes (total (not_before now w) + size) ≡ true = ground arith in
            rw (carried, more, own, exceeded) refl
        | inr under ↦ elim (Bool-cases (ltb l.max_bytes (total (not_before now w) + size))) [
          | inl more ↦ rw (carried, more, own, under) (check_limits_skips l.window limits s a c)
          | inr less ↦ rw (carried, less, under) (check_limits_skips w limits s b c)
        ]
      ]

  pub evaluate_upload_limits_lem :
      (limits : List MediaUploadLimit)
      → IsLongestFirst limits
      → All IsCeiling limits
      → evaluate_upload_limits (query total) size now limits
        ≡ ok (first_exceeded (λ v. total (not_before now v)) size limits)
  unfolding evaluate_upload_limits check_limits first_exceeded
  evaluate_upload_limits_lem [] s c = refl
  evaluate_upload_limits_lem (l ∷ limits) (a, s) (cl, c) =
      let own =
        over_exact (total (not_before now l.window)) size l (bounded (not_before now l.window))
          cl in
      elim (Bool-cases (ltb l.max_bytes (total (not_before now l.window) + size))) [
        | inl exceeded ↦ rw (own, exceeded) refl
        | inr under ↦ rw (own, under) (check_limits_skips l.window limits s a c)
      ]

-- The limit that refuses an upload is the first of the sorted limits whose own window, together with
-- the upload, holds more than its ceiling; and if there is none the upload is within quota, although
-- a limit whose window is known to be within its ceiling is not measured. Sizes stay below 2^63.
pub exceeded_limit_lem :
    (limits : List MediaUploadLimit) (rows : List LocalMedia) (user : Bytes) (size now : ℕ)
    → All IsCeiling (sort_limits limits)
    → uploaded_size_for_user rows user 0 + size < two63
    → exceeded_limit (sort_limits limits) rows user size now
      ≡ ok (
          first_exceeded
            (λ w. uploaded_size_for_user rows user (not_before now w))
            size
            (sort_limits limits))
unfolding exceeded_limit
exceeded_limit_lem limits rows user size now c h =
    evaluate_upload_limits_lem (uploaded_size_for_user rows user) size now
      (uploaded_size_for_user_antitone rows user)
      (λ t. omega (arith, uploaded_size_for_user_antitone rows user 0 t (omega arith)))
      (sort_limits limits) (sort_limits-IsLongestFirst limits) c
