-- ===== src/Exif/Photo.antt =====
-- The orientation that a camera writes is the one that is read.
use synapse_media_worker.Base.{
  ℕ, suc, ◌+◌, ◌≡◌, refl, true, false, ◌&&◌, some, Bytes, ◌∷◌, [], ◌++◌, str_eq, take, drop, length,
  ltb, leb, ◌==◌, arith,
}
use synapse_media_worker.Webp.{uint32_at, at}
use synapse_media_worker.Exif.{
  little_endian, uint16, uint32, entry_value, find_orientation, directory, read_tiff, byte_order,
  orientation_from_exif, stop, after_app1, is_standalone, read_segment, front_segment, walk_on,
  walk_segments, read_jpeg_orientation,
}
use synapse_media_worker.Exif.Range.{IsOrientation}

-- A TIFF header in little-endian order, and a directory of one entry at offset 8.
abbrev pub exif_payload : ℕ → Bytes
exif_payload o =
    b'E' ∷ b'x' ∷ b'i' ∷ b'f' ∷ 0 ∷ 0 ∷ b'I' ∷ b'I' ∷ 42 ∷ 0 ∷ 8 ∷ 0 ∷ 0 ∷ 0 ∷ 1 ∷ 0 ∷ 18 ∷ 1 ∷ 3
    ∷ 0 ∷ 1 ∷ 0 ∷ 0 ∷ 0 ∷ o ∷ 0 ∷ 0 ∷ 0 ∷ []

entry_value-read :
    (o : ℕ)
    → IsOrientation o
    → entry_value little_endian (take 12 (drop 16 (exif_payload o))) ≡ some o
unfolding entry_value uint16
entry_value-read o h = ground arith

orientation_from_exif-read :
    (o : ℕ) → IsOrientation o → orientation_from_exif (exif_payload o) ≡ some o
unfolding orientation_from_exif read_tiff byte_order directory find_orientation uint16 uint32
    uint32_at str_eq
orientation_from_exif-read o h = entry_value-read o h

-- The start of an image and its APP1 segment of 30 bytes.
abbrev pub photo : ℕ → Bytes → Bytes
photo o rest = 255 ∷ 216 ∷ 255 ∷ 225 ∷ 0 ∷ 30 ∷ exif_payload o ++ rest

front_segment-photo :
    (o : ℕ) (rest : Bytes) → IsOrientation o → front_segment (drop 2 (photo o rest)) ≡ stop o
unfolding front_segment is_standalone read_segment uint16 after_app1
front_segment-photo o rest h =
    let fits : ltb (length (drop 2 (photo o rest))) 32 ≡ false = ground arith in
    rw (fits, orientation_from_exif-read o h) refl

walk_step :
    (f : ℕ) (s : Bytes) (o : ℕ)
    → leb 4 (length s) ≡ true
    → front_segment s ≡ stop o
    → walk_segments (suc f) s ≡ o
unfolding walk_segments walk_on
walk_step f s o h k = rw (h, k) refl

read_step :
    (s : Bytes) (f o : ℕ)
    → length s ≡ suc f
    → leb 4 (length s) ≡ true
    → ((at s 0 == 255) && (at s 1 == 216)) ≡ true
    → walk_segments (suc f) (drop 2 s) ≡ o
    → read_jpeg_orientation s ≡ o
unfolding read_jpeg_orientation
read_step s f o n h k e = rw (k, h, n) e

-- A photo whose first segment is EXIF data with the orientation `o`, one of 1 to 8, in little-endian
-- order, is read as `o`, whatever follows the segment.
pub read_jpeg_orientation-photo :
    (o : ℕ) (rest : Bytes) → IsOrientation o → read_jpeg_orientation (photo o rest) ≡ o
read_jpeg_orientation-photo o rest h =
    let long : leb 4 (length (photo o rest)) ≡ true = ground arith in
    let more : leb 4 (length (drop 2 (photo o rest))) ≡ true = ground arith in
    read_step (photo o rest) (33 + length rest) o (omega arith) long refl
      (walk_step _ (drop 2 (photo o rest)) o more (front_segment-photo o rest h))
