-- ===== src/Imaging/Fit/Size.antt =====
-- The size of what `Fit` returns.
use foto.Base.{
  ℕ, ◌+◌, ◌*◌, ◌/◌, ◌≤◌, ◌<◌, ◌≡◌, arith, ◌&&◌, ◌||◌, true, false, leb, dec_le, dec_lt, ◌⊎◌, inl,
  inr,
}
use foto.Imaging.Image.{Image}
use foto.Imaging.Fit.{at_least_one, new_size, shrink, fit}

scaled-le : (a b edge : ℕ) → a ≤ b → 0 < b → a * edge / b ≤ edge
scaled-le a b edge h pos = grind arith

scaled-le_self : (a b edge : ℕ) → edge ≤ b → 0 < b → a * edge / b ≤ a
scaled-le_self a b edge h pos = grind arith

pub new_size_bounds :
    (w h edge : ℕ)
    → 0 < w
    → 0 < h
    → 1 ≤ edge
    → (edge < w) ⊎ (edge < h)
    → (1 ≤ (new_size w h edge).0)
      × ((new_size w h edge).0 ≤ edge)
      × ((new_size w h edge).0 ≤ w)
      × (1 ≤ (new_size w h edge).1)
      × ((new_size w h edge).1 ≤ edge)
      × ((new_size w h edge).1 ≤ h)
unfolding new_size
new_size_bounds w h edge pw ph pe big = elim (dec_le h w) [
  | yes p ↦ ground (arith, scaled-le h w edge p pw, scaled-le_self h w edge)
  | no p ↦ ground (arith, scaled-le w h edge, scaled-le_self w h edge)
]

-- With a positive limit the result of `Fit` is no larger than the image in either direction, keeps at
-- least one pixel of each side that had one, and has no side above the limit.
pub fit_bounds :
    (img : Image) (edge : ℕ)
    → 0 < img.width
    → 0 < img.height
    → 1 ≤ edge
    → (1 ≤ (fit img edge).width)
      × ((fit img edge).width ≤ edge)
      × ((fit img edge).width ≤ img.width)
      × (1 ≤ (fit img edge).height)
      × ((fit img edge).height ≤ edge)
      × ((fit img edge).height ≤ img.height)
unfolding fit
fit_bounds img edge pw ph pe = elim (dec_le img.width edge) [
  | yes p ↦ elim (dec_le img.height edge) [
    | yes q ↦ ground arith
    | no q ↦ ground (arith, new_size_bounds img.width img.height edge pw ph pe (inr (omega arith)))
  ]
  | no p ↦ ground (arith, new_size_bounds img.width img.height edge pw ph pe (inl (omega arith)))
]

-- The side that is scaled along: what the exact ratio gives, rounded down, or one pixel.
abbrev pub IsScaled : ℕ → ℕ → ℕ → ℕ → Type 0
IsScaled short long edge new =
    ((new * long ≤ short * edge) × (short * edge < (new + 1) * long))
    ⊎ ((new ≡ 1) × (short * edge < long))

at_least_one-IsScaled : (a b edge : ℕ) → 0 < b → IsScaled a b edge (at_least_one (a * edge / b))
unfolding at_least_one
at_least_one-IsScaled a b edge pos = elim (dec_lt (a * edge / b) 1) [
  | yes p ↦ inr (ground arith, grind arith)
  | no p ↦ inl (rw (not_small p) (grind arith), rw (not_small p) (grind arith))
]
  where
    not_small : ¬ (a * edge / b < 1) → at_least_one (a * edge / b) ≡ a * edge / b
    not_small p = ground arith

new_size_wide :
    (w h edge : ℕ) → h ≤ w → new_size w h edge ≡ (at_least_one edge, at_least_one (h * edge / w))
unfolding new_size
new_size_wide w h edge p = ground arith

new_size_tall :
    (w h edge : ℕ) → w < h → new_size w h edge ≡ (at_least_one (w * edge / h), at_least_one edge)
unfolding new_size
new_size_tall w h edge p = ground arith

at_least_one_of_pos : (n : ℕ) → 1 ≤ n → at_least_one n ≡ n
unfolding at_least_one
at_least_one_of_pos n h = ground arith

-- The sides of a pair, the long one at the limit and the other in proportion.
abbrev pub IsReduced : ℕ → ℕ → ℕ → ℕ × ℕ → Type 0
IsReduced w h edge s =
    ((h ≤ w) × (s.0 ≡ edge) × IsScaled h w edge s.1)
    ⊎ ((w < h) × (s.1 ≡ edge) × IsScaled w h edge s.0)

new_size-IsReduced :
    (w h edge : ℕ) → 0 < w → 0 < h → 1 ≤ edge → IsReduced w h edge (new_size w h edge)
new_size-IsReduced w h edge pw ph pe = elim (dec_le h w) [
  | yes p ↦
      rw (new_size_wide w h edge p)
        (inl (p, at_least_one_of_pos edge pe, at_least_one-IsScaled h w edge pw))
  | no p ↦
      let q : w < h = omega arith in
      rw (new_size_tall w h edge q)
        (inr (q, at_least_one_of_pos edge pe, at_least_one-IsScaled w h edge ph))
]

pub fit_large :
    (img : Image) (edge : ℕ)
    → 0 < img.width
    → 0 < img.height
    → (edge < img.width) ⊎ (edge < img.height)
    → fit img edge ≡ shrink img (new_size img.width img.height edge)
unfolding fit
fit_large img edge pw ph big = rw (some_pixel, too_large)
  where
    some_pixel : (leb img.width 0 || leb img.height 0) ≡ false
    some_pixel = ground arith

    too_large : (leb img.width edge && leb img.height edge) ≡ false
    too_large = ground arith

-- An image that is too large gets its longer side reduced to the limit, and the other side in
-- proportion, rounded down and kept at one pixel at least.
pub fit_ratio :
    (img : Image) (edge : ℕ)
    → 0 < img.width
    → 0 < img.height
    → 1 ≤ edge
    → (edge < img.width) ⊎ (edge < img.height)
    → IsReduced img.width img.height edge ((fit img edge).width, (fit img edge).height)
fit_ratio img edge pw ph pe big =
    rw (fit_large img edge pw ph big)
      (unfold shrink in new_size-IsReduced img.width img.height edge pw ph pe)

-- An image within the limit is returned untouched; so is one without pixels.
pub fit_small : (img : Image) (edge : ℕ) → img.width ≤ edge → img.height ≤ edge → fit img edge ≡ img
unfolding fit
fit_small img edge p q = ground arith

pub fit_empty : (img : Image) (edge : ℕ) → (img.width ≡ 0) ⊎ (img.height ≡ 0) → fit img edge ≡ img
unfolding fit
fit_empty img edge h = rw no_pixel
  where
    no_pixel : (leb img.width 0 || leb img.height 0) ≡ true
    no_pixel = ground arith
