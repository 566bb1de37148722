-- ===== src/Webp/Still.antt =====
-- What firstWebPFrame builds is a still image.
use mathlib.Core.List.{append_assoc, append-nil}
use synapse_media_worker.Base.{
  ℕ, zero, suc, ◌+◌, ◌<◌, ◌^◌, ◌≡◌, refl, sym, ap, subst, ◌∙◌, ◌⊎◌, inl, inr, Bool, true, false,
  ◌&&◌, Option, none, some, List, [], ◌∷◌, ◌++◌, ltb, Bytes, bytes, str_eq, str_eq_sound, length,
  drop, length-take, length-drop, All, arith, Bool-cases,
}
use synapse_media_worker.Webp.{
  uint32_at, uint24_at, put_uint32, put_uint24, WebpChunk, front_chunk, after_chunk, has_chunk,
  walk_chunks, frame_payload_chunks, webp_chunks, is_webp, is_vp8x, has_anim_bit, any_animated,
  is_animated_webp, raw_chunk, vp8x_chunk, still_body, riff, build_still_webp, frame_alpha,
  is_image, frame_image, still_of, still_of_frame, first_some, first_frame, first_webp_frame,
}
use synapse_media_worker.Webp.Chunks.{
  IsChunk, length-after_chunk, frame_payload_chunks-raw_chunk, raw_chunks,
  frame_payload_chunks-raw_chunks,
}

-- The chunks of a file below 4 GiB can be written again.
front_chunk-IsChunk : (s : Bytes) → length s < 2 ^ 32 → has_chunk s ≡ true → IsChunk (front_chunk s)
unfolding front_chunk has_chunk
front_chunk-IsChunk s h there =
    let name = length-take 4 s in
    let payload = length-take (uint32_at s 4) (drop 8 s) in
    let rest = length-drop 8 s in ground arith

walk_chunks-IsChunk : (f : ℕ) (s : Bytes) → length s < 2 ^ 32 → All IsChunk (walk_chunks f s)
unfolding walk_chunks
walk_chunks-IsChunk zero s h = tt
walk_chunks-IsChunk (suc f) s h = elim (Bool-cases (has_chunk s)) [
  | inl there ↦
      let shorter = length-after_chunk s there in
      rw there (front_chunk-IsChunk s h there, walk_chunks-IsChunk f (after_chunk s) (omega arith))
  | inr end ↦ rw end tt
]

-- The image and the alpha channel of a frame are among its chunks.
frame_image-found :
    (found : Option WebpChunk) (chunks : List WebpChunk) (image : WebpChunk)
    → ((c : WebpChunk) → found ≡ some c → IsChunk c × (is_image c ≡ true))
    → All IsChunk chunks
    → frame_image found chunks ≡ some image
    → IsChunk image × (is_image image ≡ true)
unfolding frame_image
frame_image-found found [] image good h e = good image e
frame_image-found found (c ∷ chunks) image good (h, k) e = elim (Bool-cases (is_image c)) [
  | inl yes_image ↦
      frame_image-found (some c) chunks image
        (λ d e'.
          let same : c ≡ d = cc in subst (λ x. IsChunk x × (is_image x ≡ true)) same (h, yes_image))
        k (rw yes_image at e)
  | inr no_image ↦ frame_image-found found chunks image good k (rw no_image at e)
]

frame_alpha-small :
    (found : Option Bytes) (chunks : List WebpChunk) (alpha : Bytes)
    → ((a : Bytes) → found ≡ some a → length a < 2 ^ 32)
    → All IsChunk chunks
    → frame_alpha found chunks ≡ some alpha
    → length alpha < 2 ^ 32
unfolding frame_alpha
frame_alpha-small found [] alpha good h e = good alpha e
frame_alpha-small found (c ∷ chunks) alpha good (h, k) e =
    elim (Bool-cases (str_eq c.four_cc (bytes "ALPH"))) [
      | inl named ↦
          frame_alpha-small (some c.payload) chunks alpha
            (λ d e'. let same : c.payload ≡ d = cc in subst (λ x. length x < 2 ^ 32) same h.1) k
            (rw named at e)
      | inr other ↦ frame_alpha-small found chunks alpha good k (rw other at e)
    ]

other_name :
    (name t u : Bytes) (b : Bool) → name ≡ t → str_eq t u ≡ false → (str_eq name u && b) ≡ false
other_name name t u b e h = rw (e, h) refl

is_image-plain : (c : WebpChunk) → is_image c ≡ true → is_vp8x c ≡ false
unfolding is_image is_vp8x str_eq
is_image-plain c h = elim (Bool-cases (str_eq c.four_cc (bytes "VP8 "))) [
  | inl still ↦ other_name c.four_cc (bytes "VP8 ") (bytes "VP8X") _ (str_eq_sound _ _ still) refl
  | inr other ↦
      other_name c.four_cc (bytes "VP8L") (bytes "VP8X") _ (str_eq_sound _ _ (rw other at h)) refl
]

-- A WebP file whose one image is not animated, alone or behind a header and an alpha channel.
pub record IsStill (s : Bytes) : Type 0 where
  pub webp : is_webp s ≡ true
  pub not_animated : is_animated_webp s ≡ false
  pub image : WebpChunk
  pub is_frame : is_image image ≡ true
  pub chunks :
      (webp_chunks s ≡ image ∷ [])
      ⊎ ((header : WebpChunk) × (alpha : WebpChunk) × (webp_chunks s ≡ header ∷ alpha ∷ image ∷ []))

webp_chunks-riff : (body : Bytes) → webp_chunks (riff body) ≡ frame_payload_chunks body
unfolding webp_chunks riff put_uint32
webp_chunks-riff body = refl

is_webp-riff : (body : Bytes) → is_webp (riff body) ≡ true
unfolding is_webp riff put_uint32 str_eq
is_webp-riff body = ground arith

module _ (image : WebpChunk) (fits : IsChunk image) (drawn : is_image image ≡ true) where
  alone : frame_payload_chunks (raw_chunk image) ≡ image ∷ []
  unfolding raw_chunks
  alone =
      ap frame_payload_chunks (sym (append-nil (raw_chunk image)))
      ∙ frame_payload_chunks-raw_chunks (image ∷ []) (fits, tt)

  any_animated-alone : any_animated (image ∷ []) ≡ false
  unfolding any_animated
  any_animated-alone = rw (is_image-plain image drawn) refl

  alone-IsStill :
      (width height : ℕ) → IsStill (build_still_webp width height none (raw_chunk image))
  unfolding build_still_webp still_body is_animated_webp
  alone-IsStill width height =
      let found = webp_chunks-riff (raw_chunk image) ∙ alone in
      record {
        webp = is_webp-riff (raw_chunk image);
        not_animated = rw (is_webp-riff (raw_chunk image), found) any_animated-alone;
        image = image;
        is_frame = drawn;
        chunks = inl found;
      }

  module _ (width height : ℕ) (alpha : Bytes) (small : length alpha < 2 ^ 32) where
    abbrev alpha_chunk : WebpChunk
    alpha_chunk = record { four_cc = bytes "ALPH"; payload = alpha }

    abbrev body : Bytes
    body = raw_chunk (vp8x_chunk width height) ++ raw_chunk alpha_chunk ++ raw_chunk image

    behind : frame_payload_chunks body ≡ vp8x_chunk width height ∷ alpha_chunk ∷ image ∷ []
    unfolding raw_chunks vp8x_chunk put_uint24
    behind =
        let header : IsChunk (vp8x_chunk width height) = (refl, omega arith) in
        ap frame_payload_chunks (
          append_assoc (raw_chunk (vp8x_chunk width height)) (raw_chunk alpha_chunk)
            (raw_chunk image))
        ∙ frame_payload_chunks-raw_chunk (vp8x_chunk width height)
            (raw_chunk alpha_chunk ++ raw_chunk image) header
        ∙ ap (λ rest. vp8x_chunk width height ∷ rest)
            (frame_payload_chunks-raw_chunk alpha_chunk (raw_chunk image) (refl, small)
              ∙ ap (λ rest. alpha_chunk ∷ rest) alone)

    any_animated-behind : any_animated (vp8x_chunk width height ∷ alpha_chunk ∷ image ∷ []) ≡ false
    unfolding any_animated is_vp8x has_anim_bit vp8x_chunk put_uint24 str_eq
    any_animated-behind = refl

    behind-IsStill : IsStill (build_still_webp width height (some alpha) (raw_chunk image))
    unfolding build_still_webp still_body is_animated_webp
    behind-IsStill =
        let found = webp_chunks-riff body ∙ behind in
        record {
          webp = is_webp-riff body;
          not_animated = rw (is_webp-riff body, found) any_animated-behind;
          image = image;
          is_frame = drawn;
          chunks = inr (vp8x_chunk width height, alpha_chunk, found);
        }

  built-IsStill :
      (width height : ℕ) (alpha : Option Bytes)
      → ((a : Bytes) → alpha ≡ some a → length a < 2 ^ 32)
      → IsStill (build_still_webp width height alpha (raw_chunk image))
  built-IsStill width height none small = alone-IsStill width height
  built-IsStill width height (some alpha) small =
      behind-IsStill width height alpha (small alpha refl)

abbrev Yields : Option Bytes → Type 0
Yields r = (s : Bytes) → r ≡ some s → IsStill s

still_of-Yields :
    (header : Bytes) (subs : List WebpChunk) (image : Option WebpChunk)
    → All IsChunk subs
    → frame_image none subs ≡ image
    → Yields (still_of header subs image)
unfolding still_of
still_of-Yields header subs none all e s h = cc
still_of-Yields header subs (some image) all e s h =
    let (fits, drawn) = frame_image-found none subs image (λ c n. cc) all e in
    subst IsStill (cc) (
      built-IsStill image fits drawn (uint24_at header 6 + 1) (uint24_at header 9 + 1)
        (frame_alpha none subs) (λ a e'. frame_alpha-small none subs a (λ b n. cc) all e'))

still_of_frame-Yields : (c : WebpChunk) → IsChunk c → Yields (still_of_frame c)
unfolding still_of_frame frame_payload_chunks
still_of_frame-Yields c (name, small) s h =
    elim (Bool-cases (str_eq c.four_cc (bytes "ANMF") && ltb 16 (length c.payload))) [
      | inl frame ↦
          let frames = drop 16 c.payload in
          let shorter = length-drop 16 c.payload in
          still_of-Yields c.payload (walk_chunks (length frames) frames) _
            (walk_chunks-IsChunk (length frames) frames (omega arith)) refl s (rw frame at h)
      | inr other ↦ cc (rw other at h)
    ]

first_some-Yields : (a b : Option Bytes) → Yields a → Yields b → Yields (first_some a b)
unfolding first_some
first_some-Yields none b h k = k
first_some-Yields (some t) b h k = h

first_frame-Yields : (chunks : List WebpChunk) → All IsChunk chunks → Yields (first_frame chunks)
unfolding first_frame
first_frame-Yields [] h s e = cc
first_frame-Yields (c ∷ chunks) (h, k) s e =
    first_some-Yields (still_of_frame c) (first_frame chunks) (still_of_frame-Yields c h)
      (first_frame-Yields chunks k) s e

-- What is built from an animation in a file below 4 GiB is a WebP file that is not animated, and
-- whose chunks are one image, alone or behind a header and an alpha channel.
pub first_webp_frame-IsStill :
    (s t : Bytes) → length s < 2 ^ 32 → first_webp_frame s ≡ some t → IsStill t
unfolding first_webp_frame webp_chunks frame_payload_chunks
first_webp_frame-IsStill s t small h = elim (Bool-cases (is_animated_webp s)) [
  | inl animated ↦
      let frames = drop 12 s in
      let shorter = length-drop 12 s in
      first_frame-Yields (walk_chunks (length frames) frames)
        (walk_chunks-IsChunk (length frames) frames (omega arith)) t (rw animated at h)
  | inr still ↦ cc (rw still at h)
]
