-- ===== src/Imaging/Bounds.antt =====
-- `checkBounds` and the limits of go/internal/imaging/imaging.go.
use foto.Base.{
  ℕ, ◌-◌, ◌*◌, ◌%◌, ◌^◌, ◌≤◌, ◌<◌, ◌≡◌, ◌↔◌, arith, ◌||◌, ltb, if◌then◌else◌, Result, ok, err,
  dec_le,
}
use foto.Base.Int.{ℤ, pos, negsuc, pos_part, ltb_ℤ, leb_ℤ, ◌≤ℤ◌}
use foto.Imaging.Exif.{Fault}

-- `ErrNotAnImage`, `ErrTooLarge`, a failure of the encoder, and a panic.
pub data Error : Type 0 where
  not_an_image : Error
  too_large : Error
  encode_failed : Error
  panic : Fault → Error

abbrev pub max_edge : ℕ
max_edge = 30000

abbrev pub max_pixels : ℕ
max_pixels = 100 * 1000 * 1000

-- The product of two numbers as an `int64`.
mul_int64 : ℕ → ℕ → ℤ
mul_int64 a b = let m = a * b % 2 ^ 64 in if ltb m (2 ^ 63) then pos m else negsuc (2 ^ 64 - 1 - m)

unfoldable pub check_bounds : ℤ → ℤ → Result Error (Unit {0})
unfolding mul_int64
check_bounds w h =
    if leb_ℤ w (pos 0) || leb_ℤ h (pos 0)
    then err not_an_image
    else if ltb_ℤ (pos max_edge) w || ltb_ℤ (pos max_edge) h
    then err too_large
    else if ltb_ℤ (pos max_pixels) (mul_int64 (pos_part w) (pos_part h))
    then err too_large
    else ok tt

-- What may be decoded.
pub record IsBounded (w h : ℤ) : Type 0 where
  pub w_pos : pos 1 ≤ℤ w
  pub h_pos : pos 1 ≤ℤ h
  pub w_edge : w ≤ℤ pos max_edge
  pub h_edge : h ≤ℤ pos max_edge
  pub area : pos_part w * pos_part h ≤ max_pixels

mul_int64_small : (a b : ℕ) → a ≤ max_edge → b ≤ max_edge → mul_int64 a b ≡ pos (a * b)
unfolding mul_int64
mul_int64_small a b p q = ground (arith, product a b p q)
  where
    product : (a b : ℕ) → a ≤ max_edge → b ≤ max_edge → a * b < 2 ^ 63
    product a b p q = grind arith

-- The check passes exactly the sizes with both sides between 1 and 30000 and at most 100 million
-- pixels: in particular the product does not overflow.
pub check_bounds_iff : (w h : ℤ) → (check_bounds w h ≡ ok tt) ↔ IsBounded w h
unfolding check_bounds
check_bounds_iff (negsuc w) h = (λ e. ground arith, λ b. absurd (omega (arith, b.w_pos)))
check_bounds_iff (pos w) (negsuc h) = (λ e. ground arith, λ b. absurd (omega (arith, b.h_pos)))
check_bounds_iff (pos w) (pos h) = elim (dec_le w max_edge) [
  | no p ↦ (λ e. ground arith, λ b. absurd (omega (arith, b.w_edge)))
  | yes p ↦ elim (dec_le h max_edge) [
    | no q ↦ (λ e. ground arith, λ b. absurd (omega (arith, b.h_edge)))
    | yes q ↦ (
      λ e. ground (arith, mul_int64_small w h p q),
      λ b. ground (arith, mul_int64_small w h p q, b.area),
    )
  ]
]
