-- ===== src/Imaging/Fit.antt =====
-- `Fit` and `mean` of go/internal/imaging/imaging.go. A `uint64` sum is kept modulo 2^64.
pub mod Size
pub mod Tiles
pub mod Range
use foto.Base.{
  ℕ, zero, suc, ◌+◌, ◌-◌, ◌*◌, ◌/◌, ◌%◌, ◌^◌, ◌&&◌, ◌||◌, leb, ltb, ◌==◌, if◌then◌else◌,
}
use foto.Imaging.Image.{Image, Pixel}

-- `mean`: the quotient, clamped, as a byte.
pub mean : ℕ → ℕ → ℕ
mean sum n = let v = sum / n in (if ltb 255 v then 255 else v) % 256

-- A side of at least one pixel.
at_least_one : ℕ → ℕ
at_least_one n = if ltb n 1 then 1 else n

-- `newW` and `newH`.
unfoldable pub new_size : ℕ → ℕ → ℕ → ℕ × ℕ
unfolding at_least_one
new_size w h edge =
    if leb h w
    then (at_least_one edge, at_least_one (h * edge / w))
    else (at_least_one (w * edge / h), at_least_one edge)

-- The source rows `y0 ≤ sy < y1` (or columns) that the destination row `i` of `new` covers.
pub box_start : ℕ → ℕ → ℕ → ℕ
box_start i len new = i * len / new

pub box_end : ℕ → ℕ → ℕ → ℕ
unfolding box_start
box_end i len new =
    if leb ((i + 1) * len / new) (box_start i len new)
    then box_start i len new + 1
    else (i + 1) * len / new

-- The accumulators `r, g, b, a, n`.
pub record Sums : Type 0 where
  pub r : ℕ
  pub g : ℕ
  pub b : ℕ
  pub a : ℕ
  pub n : ℕ

abbrev pub no_sums : Sums
no_sums = record { r = 0; g = 0; b = 0; a = 0; n = 0 }

pub add_pixel : Pixel → Sums → Sums
add_pixel p s = record {
  r = (s.r + p.r) % 2 ^ 64;
  g = (s.g + p.g) % 2 ^ 64;
  b = (s.b + p.b) % 2 ^ 64;
  a = (s.a + p.a) % 2 ^ 64;
  n = (s.n + 1) % 2 ^ 64;
}

module _ (img : Image) where
  -- `for sx := x0; sx < x1; sx++`: the first argument counts the columns left.
  pub sum_row : ℕ → ℕ → ℕ → Sums → Sums
  sum_row zero sx sy s = s
  sum_row (suc k) sx sy s = sum_row k (sx + 1) sy (add_pixel (img.pixel sx sy) s)

  -- `for sy := y0; sy < y1; sy++`: the first argument counts the rows left.
  pub sum_rows : ℕ → ℕ → ℕ → ℕ → Sums → Sums
  sum_rows zero columns x0 sy s = s
  sum_rows (suc k) columns x0 sy s = sum_rows k columns x0 (sy + 1) (sum_row columns x0 sy s)

abbrev blank : Pixel
blank = record { r = 0; g = 0; b = 0; a = 0 }

-- A pixel that no sum was made for stays as `NewRGBA` leaves it.
pub mean_pixel : Sums → Pixel
unfolding mean
mean_pixel s =
    if s.n == 0
    then blank
    else record { r = mean s.r s.n; g = mean s.g s.n; b = mean s.b s.n; a = mean s.a s.n }

-- The sums over the box of the destination pixel at column `x` and row `y`.
pub box_sums : Image → ℕ → ℕ → ℕ → ℕ → Sums
unfolding box_start box_end sum_rows sum_row add_pixel
box_sums img new_w new_h x y =
    let x0 = box_start x img.width new_w in
    let y0 = box_start y img.height new_h in
    sum_rows img (box_end y img.height new_h - y0) (box_end x img.width new_w - x0) x0 y0 no_sums

pub shrink : Image → ℕ × ℕ → Image
unfolding box_sums mean_pixel
shrink img (new_w, new_h) = record {
  width = new_w;
  height = new_h;
  pixel = λ x y. mean_pixel (box_sums img new_w new_h x y);
}

unfoldable pub fit : Image → ℕ → Image
unfolding new_size shrink
fit img edge =
    if leb img.width 0 || leb img.height 0
    then img
    else if leb img.width edge && leb img.height edge
    then img
    else shrink img (new_size img.width img.height edge)
