-- ===== src/Imaging/Image.antt =====
-- Decoded images, as `toRGBA` of go/internal/imaging/imaging.go hands them on: anchored at the origin.
use foto.Base.{ℕ, ◌<◌, ◌≡◌}

-- The four bytes of a pixel.
pub record Pixel : Type 0 where
  pub r : ℕ
  pub g : ℕ
  pub b : ℕ
  pub a : ℕ

-- An RGBA buffer: its size, and the pixel at a column and a row. Only columns below the width and
-- rows below the height are in the buffer.
pub record Image : Type 0 where
  pub width : ℕ
  pub height : ℕ
  pub pixel : ℕ → ℕ → Pixel

-- The same size, and the same pixels in the buffer.
pub record Same (i j : Image) : Type 0 where
  pub width_eq : i.width ≡ j.width
  pub height_eq : i.height ≡ j.height
  pub pixel_eq : (x y : ℕ) → x < j.width → y < j.height → i.pixel x y ≡ j.pixel x y
