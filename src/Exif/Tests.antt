-- ===== src/Exif/Tests.antt =====
-- A photo that is stored upside down, with four bytes behind its EXIF data.
use synapse_media_worker.Base.{◌≡◌, refl, bytes, Bytes}
use synapse_media_worker.Exif.{read_jpeg_orientation, Imaging, apply_orientation}
use synapse_media_worker.Exif.Range.{IsOrientation}
use synapse_media_worker.Exif.Range

-- Pictures are named by the last turn that they were given.
abbrev names : Imaging Bytes
names = record {
  flip_h = λ s. bytes "flip_h";
  flip_v = λ s. bytes "flip_v";
  rotate90 = λ s. bytes "rotate90";
  rotate180 = λ s. bytes "rotate180";
  rotate270 = λ s. bytes "rotate270";
  transpose = λ s. bytes "transpose";
  transverse = λ s. bytes "transverse";
}

turned_test : apply_orientation names (bytes "photo") 6 ≡ bytes "rotate270"
unfolding apply_orientation
turned_test = refl

read_jpeg_orientation-IsOrientation_example : IsOrientation (read_jpeg_orientation (bytes "GIF89a"))
read_jpeg_orientation-IsOrientation_example =
    Range.read_jpeg_orientation-IsOrientation (bytes "GIF89a")
