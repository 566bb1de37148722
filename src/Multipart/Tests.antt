-- ===== src/Multipart/Tests.antt =====
-- The body of a small federation download.
use synapse_media_worker.Serve.{
  base_type, disposition_type, can_encode_filename_as_token, content_disposition,
  content_type_header, sanitize_header_value,
}
use synapse_media_worker.Base.{to_lower, contains, ◌<◌, two63, ◌≡◌, refl, bytes, arith, length}
use synapse_media_worker.Multipart.{
  MultipartParts, new_multipart_parts, content_length, write_body, fixed_overhead,
  multipart_fixed_n,
}
use synapse_media_worker.Multipart.Laws

abbrev parts : MultipartParts
parts =
    new_multipart_parts (bytes "0123456789abcdef0123456789abcdef") (bytes "image/png")
      (bytes "cat.png")

small_test : length (write_body parts (bytes "PNG")) < two63
unfolding write_body new_multipart_parts sanitize_header_value content_type_header contains to_lower
    content_disposition can_encode_filename_as_token disposition_type base_type
small_test = omega arith

boundary_test : length parts.boundary ≡ 32
unfolding new_multipart_parts
boundary_test = refl

content_length-write_body_example :
    content_length parts (length (bytes "PNG")) ≡ length (write_body parts (bytes "PNG"))
content_length-write_body_example = Laws.content_length-write_body parts (bytes "PNG") small_test

fixed_overhead_lem_example : fixed_overhead parts ≡ multipart_fixed_n
fixed_overhead_lem_example = Laws.fixed_overhead_lem parts boundary_test
