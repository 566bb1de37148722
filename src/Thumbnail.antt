-- ===== src/Thumbnail.antt =====
-- thumbnail.go: which thumbnail is asked for, which stored one matches, and the sizes of a new one.
-- Go's `int` is a 64-bit pattern (Base.Word).
pub mod Size
pub mod Choice
mod Tests
use synapse_media_worker.Base.{
  ℕ, ◌≡◌, Bool, true, false, not, ◌&&◌, ◌||◌, Option, none, some, List, [], ◌∷◌, ltb, ◌==◌,
  if◌then◌else◌, Bytes, bytes, str_eq, contains, to_lower, Result, ok, err, ◌>>=◌, ◌>>◌, ensure,
  or_err, or_else, add64, sub64, mul64, div64, slt64, leb,
}
use synapse_media_worker.Decimal.{parse_int}
use synapse_media_worker.Serve.{base_type}

abbrev pub method_scale : Bytes
method_scale = bytes "scale"

abbrev pub method_crop : Bytes
method_crop = bytes "crop"

abbrev pub type_png : Bytes
type_png = bytes "image/png"

abbrev pub type_jpeg : Bytes
type_jpeg = bytes "image/jpeg"

abbrev pub type_webp : Bytes
type_webp = bytes "image/webp"

pub record ThumbnailRequest : Type 0 where
  pub width : ℕ
  pub height : ℕ
  pub method : Bytes
  pub animated : Bool
  pub type : Bytes

pub record ThumbnailRow : Type 0 where
  pub width : ℕ
  pub height : ℕ
  pub type : Bytes
  pub method : Bytes
  pub length : ℕ
  pub filesystem_id : Bytes

pub data RequestError : Type 0 where
  invalid_width invalid_height unknown_method : RequestError

-- The query parameters, each empty where it is missing.
pub record ThumbnailQuery : Type 0 where
  pub width : Bytes
  pub height : Bytes
  pub method : Bytes
  pub animated : Bytes

-- A number above zero.
unfoldable pub positive : Bytes → RequestError → Result RequestError ℕ
positive text e = elim (parse_int text) [
  | none ↦ err e
  | some n ↦ if slt64 0 n then ok n else err e
]

unfoldable pub requested_method : Bytes → Bytes
requested_method text = to_lower (if str_eq text [] then method_scale else text)

unfoldable pub parse_thumbnail_request : ThumbnailQuery → Result RequestError ThumbnailRequest
parse_thumbnail_request q = do
  width ← positive q.width invalid_width
  height ← positive q.height invalid_height
  let method = requested_method q.method
  ensure (str_eq method method_scale || str_eq method method_crop) unknown_method
  let animated = str_eq q.animated (bytes "true")
  ok (record {
    width = width;
    height = height;
    method = method;
    animated = animated;
    type = if animated then type_webp else type_png;
  })

unfoldable pub matches : ThumbnailRow → ThumbnailRequest → Bool
matches row req =
    row.width == req.width
    && row.height == req.height
    && str_eq row.method req.method
    && str_eq row.type req.type

unfoldable pub find_exact : List ThumbnailRow → ThumbnailRequest → Option ThumbnailRow
find_exact [] req = none
find_exact (row ∷ rows) req =
    let rest = find_exact rows req in if matches row req then some row else rest

unfoldable pub max64 : ℕ → ℕ → ℕ
unfolding slt64
max64 a b = if slt64 a b then b else a

unfoldable pub min64 : ℕ → ℕ → ℕ
unfolding slt64
min64 a b = if slt64 b a then b else a

-- The width and the height.
unfoldable pub aspect : ℕ → ℕ → ℕ → ℕ → ℕ × ℕ
unfolding max64 mul64 div64 slt64
aspect src_w src_h max_w max_h =
    if slt64 (mul64 max_w src_h) (mul64 max_h src_w)
    then (max_w, max64 (div64 (mul64 max_w src_h) src_w) 1)
    else (max64 (div64 (mul64 max_h src_w) src_h) 1, max_h)

pub record Rectangle : Type 0 where
  pub min_x : ℕ
  pub min_y : ℕ
  pub max_x : ℕ
  pub max_y : ℕ

-- `image.Rect` puts the corners in order.
unfoldable pub rect : ℕ → ℕ → ℕ → ℕ → Rectangle
unfolding slt64
rect x0 y0 x1 y1 = record {
  min_x = if slt64 x1 x0 then x1 else x0;
  min_y = if slt64 y1 y0 then y1 else y0;
  max_x = if slt64 x1 x0 then x0 else x1;
  max_y = if slt64 y1 y0 then y0 else y1;
}

pub record Crop : Type 0 where
  pub scaled_w : ℕ
  pub scaled_h : ℕ
  pub box : Rectangle

unfoldable pub crop_box : ℕ → ℕ → ℕ → ℕ → Crop
crop_box src_w src_h w h =
    if slt64 (mul64 h src_w) (mul64 w src_h)
    then (let scaled_h = div64 (mul64 w src_h) src_w in
        let top = div64 (sub64 scaled_h h) 2 in
        record { scaled_w = w; scaled_h = scaled_h; box = rect 0 top w (add64 h top) })
    else (let scaled_w = div64 (mul64 h src_w) src_h in
        let left = div64 (sub64 scaled_w w) 2 in
        record { scaled_w = scaled_w; scaled_h = h; box = rect left 0 (add64 w left) h })

abbrev pub decodable_source_types : List Bytes
decodable_source_types =
    bytes "image/jpeg"
    ∷ bytes "image/jpg"
    ∷ bytes "image/png"
    ∷ bytes "image/webp"
    ∷ bytes "image/gif"
    ∷ []

-- `baseMediaType` cuts, trims and lowers as serve.go does.
unfoldable pub base_media_type : Bytes → Bytes
unfolding base_type
base_media_type media_type = base_type media_type

unfoldable pub can_generate : Bytes → ThumbnailRequest → Bool
can_generate source_type req =
    if not (contains decodable_source_types (base_media_type source_type))
    then false
    else if req.animated || str_eq req.type type_webp
    then false
    else str_eq req.type type_png || str_eq req.type type_jpeg

pub data GenerateError : Type 0 where
  cannot_generate cancelled read_failed encode_failed : GenerateError

-- Decoding, resizing and encoding are the image libraries'.
pub record ImageLibrary : Type 1 where
  pub Image : Type 0
  pub decode : Bytes → Option Image
  pub width : Image → ℕ
  pub height : Image → ℕ
  pub resize : Image → ℕ → ℕ → Image
  pub crop : Image → Rectangle → Image
  pub encode_png : Image → Option Bytes
  pub encode_jpeg : Image → Option Bytes

module _ (lib : ImageLibrary) where
  open lib use {Image, decode, width, height, resize, crop, encode_png, encode_jpeg}

  abbrev encoded : Option Bytes → Result GenerateError Bytes
  encoded none = err encode_failed
  encoded (some data') = ok data'

  unfoldable pub encode_image : Image → Bytes → Result GenerateError Bytes
  encode_image img media_type =
      if str_eq media_type type_png
      then encoded (encode_png img)
      else if str_eq media_type type_jpeg
      then encoded (encode_jpeg img)
      else err cannot_generate

  -- The switch on the method: the image that is encoded.
  unfoldable pub resized : Image → ThumbnailRequest → Result GenerateError Image
  resized img req =
      if str_eq req.method method_crop
      then (let c = crop_box (width img) (height img) req.width req.height in
          ok (crop (resize img c.scaled_w c.scaled_h) c.box))
      else if str_eq req.method method_scale
      then (let size = aspect (width img) (height img) req.width req.height in
          ok (resize img (min64 (width img) size.0) (min64 (height img) size.1)))
      else err cannot_generate

  -- `Generate` with the outcome of waiting for a slot, the file's bytes if it can be read, and the
  -- steps of webpanim.go and exif.go as functions.
  unfoldable pub generate :
      ℕ
      → (Bytes → Option Bytes)
      → (Bytes → ℕ)
      → (ℕ → Image → Image)
      → Bool
      → Option Bytes
      → Bytes
      → ThumbnailRequest
      → Result GenerateError Bytes
  generate max_image_pixels first_frame orientation orient acquired file source_type req = do
    ensure (can_generate source_type req) cannot_generate
    ensure acquired cancelled
    contents ← or_err file read_failed
    let raw = or_else (first_frame contents) contents
    decoded ← or_err (decode raw) cannot_generate
    let img = orient (orientation raw) decoded
    ensure (slt64 0 (width img) && slt64 0 (height img)) cannot_generate
    ensure (slt64 (mul64 (width img) (height img)) max_image_pixels) cannot_generate
    out ← resized img req
    encode_image out req.type
