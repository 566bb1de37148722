-- ===== src/Exif/Range.antt =====
-- The orientation of a JPEG is one of the eight, and the walk ends by itself.
use synapse_media_worker.Base.{
  ℕ, zero, suc, ◌+◌, ◌*◌, ◌-◌, ◌≤◌, ◌≡◌, refl, ◌∙◌, Bool, true, false, not, ◌&&◌, Option, none,
  some, Bytes, str_eq, length, drop, ltb, leb, leb→le, ◌||◌, ◌==◌, take, length-drop, if◌then◌else◌,
  arith, Bool-cases, inl, inr,
}
use synapse_media_worker.Webp.{at}
use synapse_media_worker.Exif.{
  ByteOrder, uint16, uint32, big_endian, entry_value, find_orientation, directory, read_tiff,
  byte_order, exif_header, orientation_from_exif, Segment, skip, stop, after_app1, is_standalone,
  read_segment, front_segment, walk_on, walk_segments, read_jpeg_orientation,
}

abbrev pub IsOrientation : ℕ → Type 0
IsOrientation o = (1 ≤ o) × (o ≤ 8)

-- An optional value that is an orientation where it is there.
data Holds : Option ℕ → Type 0 where
  absent : Holds none
  present : {o : ℕ} → IsOrientation o → Holds (some o)

choose-Holds : (b : Bool) (x y : Option ℕ) → Holds x → Holds y → Holds (if b then x else y)
choose-Holds true x y h k = h
choose-Holds false x y h k = k

refused-Holds :
    (b : Bool) (v : ℕ) → (b ≡ false → IsOrientation v) → Holds (if b then none else some v)
refused-Holds true v h = absent
refused-Holds false v h = present (h refl)

checked : (v : ℕ) → Holds (if ltb v 1 || ltb 8 v then none else some v)
checked v = refused-Holds (ltb v 1 || ltb 8 v) v (λ h. ground arith)

entry_value-Holds : (order : ByteOrder) (e : Bytes) → Holds (entry_value order e)
unfolding entry_value
entry_value-Holds order e =
    choose-Holds (uint16 order e 2 == 3) _ none (checked (uint16 order e 8)) absent

find_orientation-Holds :
    (order : ByteOrder) (n : ℕ) (entries : Bytes) → Holds (find_orientation order n entries)
unfolding find_orientation
find_orientation-Holds order zero entries = absent
find_orientation-Holds order (suc n) entries =
    choose-Holds _ (entry_value order (take 12 entries))
      (find_orientation order n (drop 12 entries)) (entry_value-Holds order (take 12 entries))
      (find_orientation-Holds order n (drop 12 entries))

directory-Holds :
    (order : ByteOrder) (tiff : Bytes) (offset : ℕ) → Holds (directory order tiff offset)
unfolding directory
directory-Holds order tiff offset =
    let count = uint16 order tiff offset in
    let entries = drop (offset + 2) tiff in
    choose-Holds (ltb offset 8 || ltb (length tiff) (offset + 2)) none _ absent (
      choose-Holds (ltb (length entries) (count * 12)) none _ absent
        (find_orientation-Holds order count entries))

read_tiff-Holds : (order : Option ByteOrder) (tiff : Bytes) → Holds (read_tiff order tiff)
unfolding read_tiff
read_tiff-Holds none tiff = absent
read_tiff-Holds (some order) tiff =
    choose-Holds (uint16 order tiff 2 == 42) _ none
      (directory-Holds order tiff (uint32 order tiff 4)) absent

orientation_from_exif-Holds : (p : Bytes) → Holds (orientation_from_exif p)
unfolding orientation_from_exif
orientation_from_exif-Holds p =
    choose-Holds (leb 14 (length p) && str_eq (take 6 p) exif_header) _ none
      (read_tiff-Holds (byte_order (drop 6 p)) (drop 6 p)) absent

-- A segment that is left behind takes two bytes or more; a value that ends the walk is an orientation.
data IsStep : Segment → Type 0 where
  onward : {n : ℕ} → 2 ≤ n → IsStep (skip n)
  ended : {o : ℕ} → IsOrientation o → IsStep (stop o)

choose-IsStep : (b : Bool) (x y : Segment) → IsStep x → IsStep y → IsStep (if b then x else y)
choose-IsStep true x y h k = h
choose-IsStep false x y h k = k

after_app1-IsStep : (n : ℕ) (o : Option ℕ) → 2 ≤ n → Holds o → IsStep (after_app1 n o)
unfolding after_app1
after_app1-IsStep n none h k = onward h
after_app1-IsStep n (some o) h (present k) = ended k

upright : IsOrientation 1
upright = omega arith

stopped : IsStep (stop 1)
stopped = ended upright

read_segment-IsStep : (marker size : ℕ) (s : Bytes) → IsStep (read_segment marker size s)
unfolding read_segment
read_segment-IsStep marker size s =
    let payload = take (size - 2) (drop 4 s) in
    choose-IsStep (ltb size 2 || ltb (length s) (2 + size)) (stop 1) _ stopped (
      choose-IsStep (marker == 225) (after_app1 (2 + size) (orientation_from_exif payload))
        (skip (2 + size))
        (after_app1-IsStep (2 + size) _ (omega arith) (orientation_from_exif-Holds payload))
        (onward (omega arith)))

front_segment-IsStep : (s : Bytes) → IsStep (front_segment s)
unfolding front_segment
front_segment-IsStep s = choose-IsStep (not (at s 0 == 255)) (stop 1) _ stopped (
    choose-IsStep (is_standalone (at s 1)) (skip 2) _ (onward (omega arith)) (
      choose-IsStep (at s 1 == 218 || at s 1 == 217) (stop 1) _ stopped
        (read_segment-IsStep (at s 1) (uint16 big_endian s 2) s)))

walk_on-IsOrientation :
    (again : Bytes → ℕ) (s : Bytes) (segment : Segment)
    → IsStep segment
    → ((t : Bytes) → IsOrientation (again t))
    → IsOrientation (walk_on again s segment)
unfolding walk_on
walk_on-IsOrientation again s (skip n) h k = k (drop n s)
walk_on-IsOrientation again s (stop o) (ended h) k = h

choose-IsOrientation :
    (b : Bool) (x y : ℕ) → IsOrientation x → IsOrientation y → IsOrientation (if b then x else y)
choose-IsOrientation true x y h k = h
choose-IsOrientation false x y h k = k

walk_segments-IsOrientation : (f : ℕ) (s : Bytes) → IsOrientation (walk_segments f s)
unfolding walk_segments
walk_segments-IsOrientation zero s = upright
walk_segments-IsOrientation (suc f) s =
    choose-IsOrientation (leb 4 (length s)) _ 1
      (walk_on-IsOrientation (walk_segments f) s (front_segment s) (front_segment-IsStep s)
        (walk_segments-IsOrientation f))
      upright

-- Whatever the bytes are, the orientation that is read from them is one of 1 to 8.
pub read_jpeg_orientation-IsOrientation : (s : Bytes) → IsOrientation (read_jpeg_orientation s)
unfolding read_jpeg_orientation
read_jpeg_orientation-IsOrientation s =
    choose-IsOrientation (leb 4 (length s) && ((at s 0 == 255) && (at s 1 == 216))) _ 1
      (walk_segments-IsOrientation (length s) (drop 2 s)) upright

-- More fuel than bytes changes nothing.
walk_on-same :
    (again other : Bytes → ℕ) (s : Bytes) (segment : Segment)
    → IsStep segment
    → 4 ≤ length s
    → ((t : Bytes) → length t + 2 ≤ length s → again t ≡ other t)
    → walk_on again s segment ≡ walk_on other s segment
unfolding walk_on
walk_on-same again other s (skip n) (onward h) k same =
    let shorter = length-drop n s in same (drop n s) (omega arith)
walk_on-same again other s (stop o) h k same = refl

short : (s : Bytes) → length s ≤ 0 → leb 4 (length s) ≡ false
short s h = ground arith

walk_segments-fuel :
    (f g : ℕ) (s : Bytes) → length s ≤ f → length s ≤ g → walk_segments f s ≡ walk_segments g s
unfolding walk_segments
walk_segments-fuel zero zero s h k = refl
walk_segments-fuel zero (suc g) s h k = rw (short s h) refl
walk_segments-fuel (suc f) zero s h k = rw (short s k) refl
walk_segments-fuel (suc f) (suc g) s h k = elim (Bool-cases (leb 4 (length s))) [
  | inl long ↦ rw long (
      walk_on-same (walk_segments f) (walk_segments g) s (front_segment s) (front_segment-IsStep s)
        (leb→le 4 (length s) long)
        (λ t shorter. walk_segments-fuel f g t (omega arith) (omega arith)))
  | inr end ↦ rw end refl
]

-- The walk over the segments goes on until one of them ends it or fewer than four bytes are left:
-- with the length as fuel it never ends for want of fuel.
pub walk_segments_lem :
    (s : Bytes)
    → walk_segments (length s) s ≡ (
        if leb 4 (length s)
        then walk_on (λ t. walk_segments (length t) t) s (front_segment s)
        else 1)
unfolding walk_segments
walk_segments_lem s =
    walk_segments-fuel (length s) (suc (length s)) s (omega arith) (omega arith)
    ∙ elim (Bool-cases (leb 4 (length s))) [
      | inl long ↦ rw long (
          walk_on-same (walk_segments (length s)) (λ t. walk_segments (length t) t) s
            (front_segment s) (front_segment-IsStep s) (leb→le 4 (length s) long)
            (λ t shorter. walk_segments-fuel (length s) (length t) t (omega arith) (omega arith)))
      | inr end ↦ rw end refl
    ]
