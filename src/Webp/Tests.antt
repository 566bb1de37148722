-- ===== src/Webp/Tests.antt =====
-- An animation of one frame, with an alpha channel of odd length.
use synapse_media_worker.Base.{
  ◌<◌, ◌^◌, ◌≡◌, refl, some, [], ◌∷◌, ◌++◌, Bytes, bytes, str_eq, length, All, arith,
}
use synapse_media_worker.Webp.{
  uint32_at, uint24_at, put_uint32, put_uint24, WebpChunk, front_chunk, after_chunk, has_chunk,
  walk_chunks, frame_payload_chunks, webp_chunks, is_webp, is_vp8x, has_anim_bit, any_animated,
  is_animated_webp, raw_chunk, vp8x_chunk, still_body, riff, build_still_webp, frame_alpha,
  is_image, frame_image, still_of, still_of_frame, first_some, first_frame, first_webp_frame,
}
use synapse_media_worker.Webp.Chunks.{IsChunk, raw_chunks}
use synapse_media_worker.Webp.Chunks
use synapse_media_worker.Webp.Still.{IsStill}
use synapse_media_worker.Webp.Still

abbrev alpha : WebpChunk
alpha = record { four_cc = bytes "ALPH"; payload = 7 ∷ [] }

abbrev image : WebpChunk
image = record { four_cc = bytes "VP8 "; payload = 1 ∷ 2 ∷ [] }

frame : WebpChunk
frame = record {
  four_cc = bytes "ANMF";
  payload =
      0
      ∷ 0
      ∷ 0
      ∷ 0
      ∷ 0
      ∷ 0
      ∷ 4
      ∷ 0
      ∷ 0
      ∷ 1
      ∷ 2
      ∷ 0
      ∷ 0
      ∷ 0
      ∷ 0
      ∷ 0
      ∷ (raw_chunk alpha ++ raw_chunk image);
}

animation : Bytes
animation = riff (
    raw_chunk
      (record { four_cc = bytes "VP8X"; payload = 18 ∷ 0 ∷ 0 ∷ 0 ∷ 4 ∷ 0 ∷ 0 ∷ 1 ∷ 2 ∷ 0 ∷ [] })
    ++ raw_chunk frame)

still : Bytes
still = build_still_webp 5 514 (some (7 ∷ [])) (raw_chunk image)

first_webp_frame_test : first_webp_frame animation ≡ some still
unfolding first_webp_frame is_animated_webp is_webp webp_chunks frame_payload_chunks walk_chunks
    has_chunk front_chunk after_chunk uint32_at uint24_at any_animated is_vp8x has_anim_bit
    first_frame first_some still_of_frame still_of frame_image frame_alpha is_image build_still_webp
    still_body riff raw_chunk vp8x_chunk put_uint32 put_uint24 str_eq animation still frame
first_webp_frame_test = refl

small : length animation < 2 ^ 32
unfolding animation frame riff raw_chunk put_uint32
small = omega arith

first_webp_frame-IsStill_example : IsStill still
first_webp_frame-IsStill_example =
    Still.first_webp_frame-IsStill animation still small first_webp_frame_test

fit : All IsChunk (alpha ∷ image ∷ [])
fit = ((refl, omega arith), ((refl, omega arith), tt))

frame_payload_chunks-raw_chunks_example :
    frame_payload_chunks (raw_chunks (alpha ∷ image ∷ [])) ≡ alpha ∷ image ∷ []
frame_payload_chunks-raw_chunks_example =
    Chunks.frame_payload_chunks-raw_chunks (alpha ∷ image ∷ []) fit
