-- ===== src/Imaging/Orient/Inverse.antt =====
-- The orientations as moves of the pixels.
use foto.Base.{ℕ, ◌≤◌, ◌<◌, ◌-◌, arith, ◌==◌, if◌then◌else◌}
use foto.Imaging.Image.{Image, Same}
use foto.Imaging.Orient.{source, out_size, apply_orientation}

-- Below the size of the turned image, every pixel is read from inside the source, for every orientation
-- up to 8.
pub source_in_range :
    (o w h x y : ℕ)
    → x < (out_size o w h).0
    → y < (out_size o w h).1
    → o ≤ 8
    → ((source o w h x y).0 < w) × ((source o w h x y).1 < h)
unfolding source out_size
source_in_range o w h x y p q r = ground arith

-- The orientation that undoes another: the two quarter turns undo each other, the rest themselves.
abbrev pub inverse : ℕ → ℕ
inverse o = if o == 6 then 8 else if o == 8 then 6 else o

-- Applying an orientation and then its inverse gives the image back, for every orientation: each of
-- the eight moves keeps every pixel and mixes up none.
pub apply_orientation-inverse :
    (img : Image) (o : ℕ) → Same (apply_orientation (apply_orientation img o) (inverse o)) img
unfolding apply_orientation
apply_orientation-inverse img o = record {
  width_eq = ground arith;
  height_eq = ground arith;
  pixel_eq = λ x y p q. ground arith;
}

-- The two moves that generate the eight: a mirror image, and rows for columns.
abbrev pub mirror : Image → Image
mirror img = record img { pixel = λ x y. img.pixel (img.width - 1 - x) y }

abbrev pub transpose : Image → Image
transpose img = record { width = img.height; height = img.width; pixel = λ x y. img.pixel y x }

-- The EXIF orientations through these.
abbrev pub corrected : Image → ℕ → Image
corrected img o =
    if o == 2
    then mirror img
    else if o == 3
    then mirror (transpose (mirror (transpose img)))
    else if o == 4
    then transpose (mirror (transpose img))
    else if o == 5
    then transpose img
    else if o == 6
    then mirror (transpose img)
    else if o == 7
    then mirror (transpose (mirror img))
    else if o == 8
    then transpose (mirror img)
    else img

-- The one coordinate mapping of the code is, for each of the eight orientations, the composition of
-- mirror images and transpositions that the orientation stands for; other values change nothing.
pub apply_orientation-corrected :
    (img : Image) (o : ℕ) → Same (apply_orientation img o) (corrected img o)
unfolding apply_orientation
apply_orientation-corrected img o = record {
  width_eq = ground arith;
  height_eq = ground arith;
  pixel_eq = λ x y p q. ground arith;
}
