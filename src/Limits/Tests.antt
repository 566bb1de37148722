-- ===== src/Limits/Tests.antt =====
-- Two quotas of one user.
use synapse_media_worker.Base.{
  str_eq, add64, slt64, ◌<◌, ◌+◌, All, two63, ◌≡◌, refl, bytes, List, [], ◌∷◌, true, false, ok,
  some, arith,
}
use synapse_media_worker.Database.{LocalMedia, completed_row, uploaded_size_for_user}
use synapse_media_worker.Limits.{
  over, insert_limit, check_limits, evaluate_upload_limits, MediaUploadLimit, sort_limits,
  exceeded_limit, not_before,
}
use synapse_media_worker.Limits.Quota.{first_exceeded}
use synapse_media_worker.Limits.Quota

abbrev hour : MediaUploadLimit
hour = record {
  max_bytes = 150;
  window = 3600000000000;
  info_uri = bytes "hour";
  can_upgrade = false;
}

abbrev day : MediaUploadLimit
day = record {
  max_bytes = 1000;
  window = 86400000000000;
  info_uri = bytes "day";
  can_upgrade = true;
}

abbrev rows : List LocalMedia
rows =
    completed_row (bytes "aaaaaa") (bytes "image/png") [] 100 (bytes "@a:b") 99990000 true [] []
    ∷ []

exceeded_test :
    exceeded_limit (sort_limits (hour ∷ day ∷ [])) rows (bytes "@a:b") 60 100000000000000
    ≡ ok (some hour)
unfolding exceeded_limit evaluate_upload_limits check_limits sort_limits insert_limit over slt64
    add64 uploaded_size_for_user str_eq completed_row not_before
exceeded_test = refl

ceilings : All (λ l. l.max_bytes < two63) (sort_limits (hour ∷ day ∷ []))
unfolding sort_limits insert_limit
ceilings = ground arith

small : uploaded_size_for_user rows (bytes "@a:b") 0 + 60 < two63
unfolding uploaded_size_for_user str_eq completed_row
small = omega arith

exceeded_limit_lem_example :
    exceeded_limit (sort_limits (hour ∷ day ∷ [])) rows (bytes "@a:b") 60 100000000000000
    ≡ ok (
        first_exceeded
          (λ w. uploaded_size_for_user rows (bytes "@a:b") (not_before 100000000000000 w))
          60
          (sort_limits (hour ∷ day ∷ [])))
exceeded_limit_lem_example =
    Quota.exceeded_limit_lem (hour ∷ day ∷ []) rows (bytes "@a:b") 60 100000000000000 ceilings small
