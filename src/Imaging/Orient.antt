-- ===== src/Imaging/Orient.antt =====
-- `applyOrientation` of go/internal/imaging/imaging.go.
pub mod Inverse
use foto.Base.{ℕ, ◌-◌, ◌||◌, leb, ltb, ◌==◌, if◌then◌else◌}
use foto.Imaging.Image.{Image, Pixel}

-- The switch: the source column and row of the pixel at column `x` and row `y`.
pub source : ℕ → ℕ → ℕ → ℕ → ℕ → ℕ × ℕ
source o w h x y =
    if o == 2
    then (w - 1 - x, y)
    else if o == 3
    then (w - 1 - x, h - 1 - y)
    else if o == 4
    then (x, h - 1 - y)
    else if o == 5
    then (y, x)
    else if o == 6
    then (y, h - 1 - x)
    else if o == 7
    then (w - 1 - y, h - 1 - x)
    else if o == 8
    then (w - 1 - y, x)
    else (x, y)

-- The size of the result: 5 to 8 involve a quarter turn.
unfoldable pub out_size : ℕ → ℕ → ℕ → ℕ × ℕ
out_size o w h = if leb 5 o then (h, w) else (w, h)

unfoldable pub apply_orientation : Image → ℕ → Image
unfolding source out_size
apply_orientation img o = if leb o 1 || ltb 8 o then img else record {
  width = (out_size o img.width img.height).0;
  height = (out_size o img.width img.height).1;
  pixel =
      λ x y. img.pixel (source o img.width img.height x y).0 (source o img.width img.height x y).1;
}
