-- ===== src/Limits.antt =====
-- Upload quotas: `evaluateUploadLimits` and `exceededLimit` of upload.go, and the order in which
-- `parseMediaUploadLimits` of config.go puts the limits. Sizes and windows are int64 patterns
-- (Base.Word); a point in time is in nanoseconds since 1970, before which no window reaches.
pub mod Order
pub mod Quota
mod Tests
use synapse_media_worker.Base.{
  ℕ, ◌+◌, ◌-◌, ◌/◌, ◌%◌, two63, two64, ◌≡◌, Bool, true, false, not, ◌||◌, Option, none, some, List,
  [], ◌∷◌, ltb, if◌then◌else◌, Bytes, Result, ok, err, ◌>>=◌, add64, slt64,
}
use synapse_media_worker.Database.{LocalMedia, uploaded_size_for_user}

pub record MediaUploadLimit : Type 0 where
  pub max_bytes : ℕ
  pub window : ℕ
  pub info_uri : Bytes
  pub can_upgrade : Bool

-- The integer that a window's bit pattern stands for, moved up by 2^63.
abbrev pub signed : ℕ → ℕ
signed window = (window + two63) % two64

-- `now.Add(-limit.Window).UnixMilli()`, for a window above -2^63.
unfoldable pub not_before : ℕ → ℕ → ℕ
not_before now window = (now + two63 - signed window) / 1000000

unfoldable pub over : ℕ → ℕ → MediaUploadLimit → Bool
over used size limit = slt64 limit.max_bytes (add64 used size)

module _ {E : Type 0} (usage : ℕ → Result E ℕ) (size now : ℕ) where
  -- The rest of the loop, with the usage that was measured last, if any was.
  unfoldable pub check_limits :
      Option ℕ → List MediaUploadLimit → Result E (Option MediaUploadLimit)
  check_limits used [] = ok none
  check_limits none (limit ∷ limits) = do
    total ← usage (not_before now limit.window)
    let rest = check_limits (some total) limits
    if over total size limit then ok (some limit) else rest
  check_limits (some used) (limit ∷ limits) =
      let skip = check_limits (some used) limits in
      let measure = usage (not_before now limit.window) >>= λ total.
      (let rest = check_limits (some total) limits in
        if over total size limit then ok (some limit) else rest) in
      if over used size limit then measure else skip

  unfoldable pub evaluate_upload_limits : List MediaUploadLimit → Result E (Option MediaUploadLimit)
  evaluate_upload_limits limits = check_limits none limits

-- `sort.SliceStable` by descending window.
unfoldable pub insert_limit : MediaUploadLimit → List MediaUploadLimit → List MediaUploadLimit
unfolding slt64
insert_limit l [] = l ∷ []
insert_limit l (x ∷ limits) =
    let rest = insert_limit l limits in if slt64 l.window x.window then x ∷ rest else l ∷ x ∷ limits

unfoldable pub sort_limits : List MediaUploadLimit → List MediaUploadLimit
sort_limits [] = []
sort_limits (l ∷ limits) = insert_limit l (sort_limits limits)

-- `exceededLimit` over the rows of the database, when no query fails.
unfoldable pub exceeded_limit :
    List MediaUploadLimit
    → List LocalMedia
    → Bytes
    → ℕ
    → ℕ
    → Result (Unit {0}) (Option MediaUploadLimit)
exceeded_limit limits rows user size now =
    evaluate_upload_limits (λ t. ok (uploaded_size_for_user rows user t)) size now limits
