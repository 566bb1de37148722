-- ===== src/Webp.antt =====
-- webpanim.go: the first frame of an animated WebP as a still image. A slice of bytes is a list; an
-- offset into it is the list that is left from there. `nil` is `none`, which the empty slice is not.
pub mod Chunks
pub mod Still
mod Tests
use synapse_media_worker.Base.{
  ℕ, zero, suc, ◌+◌, ◌-◌, ◌*◌, ◌/◌, ◌%◌, Bool, true, false, not, ◌&&◌, ◌||◌, Option, none, some,
  List, [], ◌∷◌, ◌++◌, ltb, leb, ◌==◌, if◌then◌else◌, Bytes, bytes, str_eq, length, take, drop,
  get_elem?, or_else,
}

-- A byte that a length check has shown to be there.
abbrev pub at : Bytes → ℕ → ℕ
at s i = or_else (get_elem? s i) 0

-- `binary.LittleEndian.Uint32(s[i : i+4])`.
unfoldable pub uint32_at : Bytes → ℕ → ℕ
uint32_at s i = at s i + 256 * at s (i + 1) + 65536 * at s (i + 2) + 16777216 * at s (i + 3)

unfoldable pub uint24_at : Bytes → ℕ → ℕ
uint24_at s i = at s i + 256 * at s (i + 1) + 65536 * at s (i + 2)

-- `binary.LittleEndian.PutUint32`.
unfoldable pub put_uint32 : ℕ → Bytes
put_uint32 n = n % 256 ∷ n / 256 % 256 ∷ n / 65536 % 256 ∷ n / 16777216 % 256 ∷ []

unfoldable pub put_uint24 : ℕ → Bytes
put_uint24 n = n % 256 ∷ n / 256 % 256 ∷ n / 65536 % 256 ∷ []

pub record WebpChunk : Type 0 where
  pub four_cc : Bytes
  pub payload : Bytes

-- The chunk at the front, for one that is there whole.
unfoldable pub front_chunk : Bytes → WebpChunk
unfolding uint32_at
front_chunk s = record { four_cc = take 4 s; payload = take (uint32_at s 4) (drop 8 s) }

-- What follows it: chunks are padded to an even length.
unfoldable pub after_chunk : Bytes → Bytes
unfolding uint32_at
after_chunk s = drop (uint32_at s 4 % 2) (drop (uint32_at s 4) (drop 8 s))

-- Whether there is room for a header, and for what it announces.
unfoldable pub has_chunk : Bytes → Bool
unfolding uint32_at
has_chunk s = leb 8 (length s) && leb (8 + uint32_at s 4) (length s)

-- The walk of `framePayloadChunks`, and that of `webpChunks` behind its header.
unfoldable pub walk_chunks : ℕ → Bytes → List WebpChunk
unfolding has_chunk front_chunk after_chunk
walk_chunks zero s = []
walk_chunks (suc fuel) s =
    let rest = walk_chunks fuel (after_chunk s) in if has_chunk s then front_chunk s ∷ rest else []

unfoldable pub frame_payload_chunks : Bytes → List WebpChunk
unfolding walk_chunks
frame_payload_chunks s = walk_chunks (length s) s

unfoldable pub webp_chunks : Bytes → List WebpChunk
unfolding frame_payload_chunks
webp_chunks s = frame_payload_chunks (drop 12 s)

unfoldable pub is_webp : Bytes → Bool
unfolding str_eq
is_webp s =
    leb 12 (length s)
    && (str_eq (take 4 s) (bytes "RIFF") && str_eq (take 4 (drop 8 s)) (bytes "WEBP"))

unfoldable pub is_vp8x : WebpChunk → Bool
unfolding str_eq
is_vp8x c = str_eq c.four_cc (bytes "VP8X") && (length c.payload == 10)

-- `c.payload[0]&vp8xAnimBit != 0`.
unfoldable pub has_anim_bit : WebpChunk → Bool
has_anim_bit c = at c.payload 0 / 2 % 2 == 1

unfoldable pub any_animated : List WebpChunk → Bool
unfolding is_vp8x has_anim_bit
any_animated [] = false
any_animated (c ∷ chunks) =
    let rest = any_animated chunks in if is_vp8x c then has_anim_bit c else rest

unfoldable pub is_animated_webp : Bytes → Bool
unfolding is_webp any_animated webp_chunks
is_animated_webp s = if is_webp s then any_animated (webp_chunks s) else false

unfoldable pub raw_chunk : WebpChunk → Bytes
unfolding put_uint32
raw_chunk c =
    c.four_cc
    ++ put_uint32 (length c.payload)
    ++ c.payload
    ++ (if length c.payload % 2 == 1 then 0 ∷ [] else [])

unfoldable pub vp8x_chunk : ℕ → ℕ → WebpChunk
unfolding put_uint24
vp8x_chunk width height = record {
  four_cc = bytes "VP8X";
  payload = 16 ∷ 0 ∷ 0 ∷ 0 ∷ put_uint24 (width - 1) ++ put_uint24 (height - 1);
}

unfoldable pub still_body : ℕ → ℕ → Option Bytes → Bytes → Bytes
unfolding raw_chunk vp8x_chunk
still_body width height none image = image
still_body width height (some alpha) image =
    raw_chunk (vp8x_chunk width height)
    ++ raw_chunk (record { four_cc = bytes "ALPH"; payload = alpha })
    ++ image

unfoldable pub riff : Bytes → Bytes
unfolding put_uint32
riff body = bytes "RIFF" ++ put_uint32 (length body + 4) ++ bytes "WEBP" ++ body

unfoldable pub build_still_webp : ℕ → ℕ → Option Bytes → Bytes → Bytes
unfolding riff still_body
build_still_webp width height alpha image = riff (still_body width height alpha image)

-- The alpha channel and the image of a frame: the last chunk of each kind.
unfoldable pub frame_alpha : Option Bytes → List WebpChunk → Option Bytes
unfolding str_eq
frame_alpha alpha [] = alpha
frame_alpha alpha (c ∷ chunks) =
    frame_alpha (if str_eq c.four_cc (bytes "ALPH") then some c.payload else alpha) chunks

unfoldable pub is_image : WebpChunk → Bool
unfolding str_eq
is_image c = str_eq c.four_cc (bytes "VP8 ") || str_eq c.four_cc (bytes "VP8L")

unfoldable pub frame_image : Option WebpChunk → List WebpChunk → Option WebpChunk
unfolding is_image
frame_image image [] = image
frame_image image (c ∷ chunks) = frame_image (if is_image c then some c else image) chunks

-- A frame of an animation, and its still image where it has one.
unfoldable pub still_of : Bytes → List WebpChunk → Option WebpChunk → Option Bytes
unfolding build_still_webp uint24_at frame_alpha raw_chunk
still_of header subs none = none
still_of header subs (some image) = some (
    build_still_webp (uint24_at header 6 + 1) (uint24_at header 9 + 1) (frame_alpha none subs)
      (raw_chunk image))

unfoldable pub still_of_frame : WebpChunk → Option Bytes
unfolding still_of frame_image frame_payload_chunks str_eq
still_of_frame c =
    if str_eq c.four_cc (bytes "ANMF") && ltb 16 (length c.payload)
    then (let subs = frame_payload_chunks (drop 16 c.payload) in
        still_of c.payload subs (frame_image none subs))
    else none

unfoldable pub first_some : Option Bytes → Option Bytes → Option Bytes
first_some none rest = rest
first_some (some s) rest = some s

unfoldable pub first_frame : List WebpChunk → Option Bytes
unfolding still_of_frame first_some
first_frame [] = none
first_frame (c ∷ chunks) = first_some (still_of_frame c) (first_frame chunks)

unfoldable pub first_webp_frame : Bytes → Option Bytes
unfolding is_animated_webp first_frame webp_chunks
first_webp_frame s = if is_animated_webp s then first_frame (webp_chunks s) else none
