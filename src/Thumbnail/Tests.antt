-- ===== src/Thumbnail/Tests.antt =====
-- Thumbnails of a 640 by 480 picture.
use synapse_media_worker.Decimal.{parse_int}
use synapse_media_worker.Base.{
  to_lower, slt64, str_eq, ◌≡◌, refl, bytes, arith, false, [], ◌∷◌, ok, some,
}
use synapse_media_worker.Thumbnail.{
  requested_method, positive, matches, ThumbnailRequest, ThumbnailRow, ThumbnailQuery, aspect,
  crop_box, find_exact, parse_thumbnail_request,
}
use synapse_media_worker.Thumbnail.Size.{InRange, Fits, Covers}
use synapse_media_worker.Thumbnail.Size

in_range : InRange 640 480 96 96
in_range = record {
  src_w_pos = omega arith;
  src_h_pos = omega arith;
  w_pos = omega arith;
  h_pos = omega arith;
  w_product = omega arith;
  h_product = omega arith;
  src_w_small = omega arith;
  src_h_small = omega arith;
  w_small = omega arith;
  h_small = omega arith;
}

aspect_test : aspect 640 480 96 96 ≡ (96, 72)
unfolding aspect
aspect_test = refl

aspect-Fits_example : Fits 640 480 96 96 (aspect 640 480 96 96)
aspect-Fits_example = Size.aspect-Fits 640 480 96 96 in_range

crop_box-Covers_example : Covers 96 96 (crop_box 640 480 96 96)
crop_box-Covers_example = Size.crop_box-Covers 640 480 96 96 in_range

abbrev row : ThumbnailRow
row = record {
  width = 96;
  height = 96;
  type = bytes "image/png";
  method = bytes "crop";
  length = 1234;
  filesystem_id = [];
}

abbrev request : ThumbnailRequest
request = record {
  width = 96;
  height = 96;
  method = bytes "crop";
  animated = false;
  type = bytes "image/png";
}

find_exact_test : find_exact (row ∷ []) request ≡ some row
unfolding find_exact matches str_eq
find_exact_test = refl

abbrev query : ThumbnailQuery
query = record { width = bytes "96"; height = bytes "96"; method = bytes "CROP"; animated = [] }

parse_test : parse_thumbnail_request query ≡ ok request
unfolding parse_thumbnail_request positive parse_int slt64 str_eq requested_method to_lower
parse_test = refl
