-- ===== src/Exif.antt =====
-- exif.go: the orientation of a JPEG. A slice of bytes is the list that is left from its start.
pub mod Range
pub mod Photo
mod Tests
use synapse_media_worker.Base.{
  ℕ, zero, suc, ◌+◌, ◌-◌, ◌*◌, Bool, true, false, not, ◌&&◌, ◌||◌, Option, none, some, List, [],
  ◌∷◌, ltb, leb, ◌==◌, if◌then◌else◌, Bytes, bytes, str_eq, length, take, drop, or_else,
}
use synapse_media_worker.Webp.{at, uint32_at}

-- `binary.ByteOrder`.
pub data ByteOrder : Type 0 where
  little_endian big_endian : ByteOrder

unfoldable pub uint16 : ByteOrder → Bytes → ℕ → ℕ
uint16 little_endian s i = at s i + 256 * at s (i + 1)
uint16 big_endian s i = 256 * at s i + at s (i + 1)

unfoldable pub uint32 : ByteOrder → Bytes → ℕ → ℕ
unfolding uint32_at
uint32 little_endian s i = uint32_at s i
uint32 big_endian s i = 16777216 * at s i + 65536 * at s (i + 1) + 256 * at s (i + 2) + at s (i + 3)

unfoldable pub byte_order : Bytes → Option ByteOrder
byte_order tiff =
    if (at tiff 0 == b'I') && (at tiff 1 == b'I')
    then some little_endian
    else if (at tiff 0 == b'M') && (at tiff 1 == b'M')
    then some big_endian
    else none

-- The entry that holds the orientation.
unfoldable pub entry_value : ByteOrder → Bytes → Option ℕ
unfolding uint16
entry_value order e =
    let v = uint16 order e 8 in
    if uint16 order e 2 == 3 then (if ltb v 1 || ltb 8 v then none else some v) else none

-- The loop over the entries of the directory, each of twelve bytes.
unfoldable pub find_orientation : ByteOrder → ℕ → Bytes → Option ℕ
unfolding uint16 entry_value
find_orientation order zero entries = none
find_orientation order (suc n) entries =
    let rest = find_orientation order n (drop 12 entries) in
    if uint16 order entries 0 == 274 then entry_value order (take 12 entries) else rest

-- The directory at `offset`.
unfoldable pub directory : ByteOrder → Bytes → ℕ → Option ℕ
unfolding uint16 find_orientation
directory order tiff offset =
    if ltb offset 8 || ltb (length tiff) (offset + 2)
    then none
    else (let count = uint16 order tiff offset in
        let entries = drop (offset + 2) tiff in
        if ltb (length entries) (count * 12) then none else find_orientation order count entries)

unfoldable pub read_tiff : Option ByteOrder → Bytes → Option ℕ
unfolding uint16 uint32 directory
read_tiff none tiff = none
read_tiff (some order) tiff =
    if uint16 order tiff 2 == 42 then directory order tiff (uint32 order tiff 4) else none

-- `"Exif\x00\x00"`.
abbrev pub exif_header : Bytes
exif_header = b'E' ∷ b'x' ∷ b'i' ∷ b'f' ∷ 0 ∷ 0 ∷ []

unfoldable pub orientation_from_exif : Bytes → Option ℕ
unfolding read_tiff byte_order str_eq
orientation_from_exif p =
    if leb 14 (length p) && str_eq (take 6 p) exif_header
    then read_tiff (byte_order (drop 6 p)) (drop 6 p)
    else none

unfoldable pub is_standalone : ℕ → Bool
is_standalone marker = marker == 216 || marker == 1 || (leb 208 marker && leb marker 215)

-- What one marker segment at the front of `s` says: go on behind it, or stop with a value.
pub data Segment : Type 0 where
  skip : ℕ → Segment
  stop : ℕ → Segment

unfoldable pub after_app1 : ℕ → Option ℕ → Segment
after_app1 size none = skip size
after_app1 size (some o) = stop o

-- The segment that `length` bytes from the third on make up; APP1 holds the EXIF data.
unfoldable pub read_segment : ℕ → ℕ → Bytes → Segment
unfolding after_app1 orientation_from_exif
read_segment marker size s =
    if ltb size 2 || ltb (length s) (2 + size)
    then stop 1
    else if marker == 225
    then after_app1 (2 + size) (orientation_from_exif (take (size - 2) (drop 4 s)))
    else skip (2 + size)

unfoldable pub front_segment : Bytes → Segment
unfolding is_standalone read_segment uint16
front_segment s =
    let marker = at s 1 in
    if not (at s 0 == 255)
    then stop 1
    else if is_standalone marker
    then skip 2
    else if marker == 218 || marker == 217
    then stop 1
    else read_segment marker (uint16 big_endian s 2) s

unfoldable pub walk_on : (Bytes → ℕ) → Bytes → Segment → ℕ
walk_on again s (skip n) = again (drop n s)
walk_on again s (stop o) = o

-- The loop over the marker segments.
unfoldable pub walk_segments : ℕ → Bytes → ℕ
unfolding front_segment walk_on
walk_segments zero s = 1
walk_segments (suc fuel) s =
    if leb 4 (length s) then walk_on (walk_segments fuel) s (front_segment s) else 1

-- One round takes two bytes or more, so that the length is enough fuel.
unfoldable pub read_jpeg_orientation : Bytes → ℕ
unfolding walk_segments
read_jpeg_orientation s =
    if leb 4 (length s) && ((at s 0 == 255) && (at s 1 == 216))
    then walk_segments (length s) (drop 2 s)
    else 1

-- The package `imaging`.
pub record Imaging (Image : Type 0) : Type 0 where
  pub flip_h : Image → Image
  pub flip_v : Image → Image
  pub rotate90 : Image → Image
  pub rotate180 : Image → Image
  pub rotate270 : Image → Image
  pub transpose : Image → Image
  pub transverse : Image → Image

unfoldable pub apply_orientation : {Image : Type 0} → Imaging Image → Image → ℕ → Image
apply_orientation imaging img o =
    if o == 2
    then imaging.flip_h img
    else if o == 3
    then imaging.rotate180 img
    else if o == 4
    then imaging.flip_v img
    else if o == 5
    then imaging.transpose img
    else if o == 6
    then imaging.rotate270 img
    else if o == 7
    then imaging.transverse img
    else if o == 8
    then imaging.rotate90 img
    else img
