-- ===== src/Examples/Imaging.antt =====
-- The package imaging at concrete inputs.
use foto.Base.{ℕ, ◌^◌, ◌*◌, ◌≤◌, ◌<◌, ◌≡◌, ◌↔◌, refl, arith, [], ◌∷◌, Bytes, codes, some, ok, err}
use foto.Base.Int.{pos}
use foto.Imaging.Image.{Image, Same}
use foto.Imaging.Exif.{big_endian, read_orientation}
use foto.Imaging.Exif.Total.{read_orientation_total}
use foto.Imaging.Exif.Written.{Entry, tiff_bytes}
use foto.Imaging.Exif.RoundTrip.{Segment, jpeg_bytes}
use foto.Imaging.Orient.{apply_orientation}
use foto.Imaging.Orient.Inverse.{corrected, apply_orientation-corrected}
use foto.Imaging.Fit.{fit, box_start, box_end}
use foto.Imaging.Fit.Size.{fit_bounds}
use foto.Imaging.Fit.Size.{fit_bounds}
use foto.Imaging.Fit.Tiles.{boxes_tile}
use foto.Imaging.Fit.Range.{IsBetween, fit-IsBetween}
use foto.Imaging.Bounds.{too_large, check_bounds, check_bounds_iff, IsBounded}
use foto.Imaging.Prepare.{Codec, Photo, dimensions}
use foto.Examples.Toy.{small_image, toy_codec, upload, rendered}

-- An application segment before the Exif segment, and another entry before the orientation 6.
abbrev comment : Segment
comment = record { marker = 0xE0; payload = codes "JFIF" }

abbrev maker : Entry
maker = record { tag = 0x010F; body = 0 ∷ 2 ∷ 0 ∷ 0 ∷ 0 ∷ 2 ∷ b'f' ∷ 0 ∷ 0 ∷ 0 ∷ [] }

abbrev turned : Bytes
turned = jpeg_bytes (comment ∷ []) (tiff_bytes big_endian (maker ∷ []) 6 2 []) []

read_orientation_total_example :
    (v : ℕ) × (read_orientation (codes "not a photo") ≡ ok v) × (1 ≤ v) × (v ≤ 8)
read_orientation_total_example = read_orientation_total (codes "not a photo")

apply_orientation-corrected_example :
    Same (apply_orientation small_image 7) (corrected small_image 7)
apply_orientation-corrected_example = apply_orientation-corrected small_image 7

boxes_tile_example :
    ((i : ℕ) × (i < 3) × (box_start i 7 3 ≤ 4) × (4 < box_end i 7 3))
    × ((i j : ℕ)
        → box_start i 7 3 ≤ 4
        → 4 < box_end i 7 3
        → box_start j 7 3 ≤ 4
        → 4 < box_end j 7 3
        → i ≡ j)
    × ((i : ℕ) → i < 3 → box_end i 7 3 ≤ 7)
boxes_tile_example = boxes_tile 7 3 4 (omega arith) (omega arith) (omega arith)

small_image-IsBetween :
    (x y : ℕ)
    → x < small_image.width
    → y < small_image.height
    → IsBetween 0 255 (small_image.pixel x y)
small_image-IsBetween x y p q = record {
  r_lo = omega arith;
  r_hi = omega arith;
  g_lo = omega arith;
  g_hi = omega arith;
  b_lo = omega arith;
  b_hi = omega arith;
  a_lo = omega arith;
  a_hi = omega arith;
}

small_image-fits : 255 * (small_image.width * small_image.height) < 2 ^ 64
small_image-fits = omega arith

small_image-width : 0 < (fit small_image 2).width
small_image-width = (fit_bounds small_image 2 (omega arith) (omega arith) (omega arith)).0

small_image-height : 0 < (fit small_image 2).height
small_image-height = (fit_bounds small_image 2 (omega arith) (omega arith) (omega arith)).3

fit-IsBetween_example : IsBetween 0 255 ((fit small_image 2).pixel 0 0)
fit-IsBetween_example =
    fit-IsBetween 0 255 small_image (omega arith) small_image-fits small_image-IsBetween 2 0 0
      (omega arith) small_image-width small_image-height

check_bounds_iff_example :
    (check_bounds (pos 30000) (pos 4000) ≡ ok tt) ↔ IsBounded (pos 30000) (pos 4000)
check_bounds_iff_example = check_bounds_iff (pos 30000) (pos 4000)

abbrev prepared : Photo
prepared = record {
  display = record { name = []; bytes = rendered; width = 3; height = 2 };
  thumbs = record { name = codes "thumb256"; bytes = rendered; width = 3; height = 2 } ∷ [];
  orientation = 1;
  format = codes "png";
}

-- A header that declares too large an image.
abbrev bomb : Codec
bomb = record toy_codec { decode_config = λ raw. some (pos 40000, pos 40000) }

refused : dimensions bomb upload ≡ err too_large
unfolding dimensions check_bounds
refused = refl
