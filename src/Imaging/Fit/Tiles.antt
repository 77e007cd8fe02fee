-- ===== src/Imaging/Fit/Tiles.antt =====
-- The boxes that `Fit` averages over.
use foto.Base.{ℕ, zero, suc, ◌+◌, ◌-◌, ◌*◌, ◌/◌, ◌≤◌, ◌<◌, ◌≡◌, ap, arith, dec_lt}
use foto.Imaging.Fit.{box_start, box_end}

ratio_step : (i len new : ℕ) → 0 < new → new ≤ len → i * len / new + 1 ≤ (i + 1) * len / new
ratio_step i len new pos h = grind arith

pub box_end-box_start :
    (i len new : ℕ) → 0 < new → new ≤ len → box_end i len new ≡ box_start (i + 1) len new
unfolding box_end
box_end-box_start i len new pos h = ground (arith, ratio_step i len new pos h)

box_start_zero : (len new : ℕ) → 0 < new → box_start 0 len new ≡ 0
unfolding box_start
box_start_zero len new pos = grind arith

box_start_last : (len new : ℕ) → 0 < new → box_start new len new ≡ len
unfolding box_start
box_start_last len new pos = grind arith

pub box_nonempty : (i len new : ℕ) → box_start i len new < box_end i len new
unfolding box_end
box_nonempty i len new = ground arith

box_start_mono :
    (i k len new : ℕ) → 0 < new → new ≤ len → box_start i len new ≤ box_start (i + k) len new
unfolding box_start
box_start_mono i k len new pos h = grind arith

covered_below :
    (k len new sy : ℕ)
    → 0 < new
    → new ≤ len
    → sy < box_start k len new
    → (i : ℕ) × (i < k) × (box_start i len new ≤ sy) × (sy < box_end i len new)
covered_below zero len new sy pos h below = absurd (omega (arith, box_start_zero len new pos))
covered_below (suc k) len new sy pos h below = elim (dec_lt sy (box_start k len new)) [
  | yes p ↦
      let (i, i_lt, from, to) = covered_below k len new sy pos h p in (i, omega arith, from, to)
  | no p ↦ (k, omega arith, omega arith, last)
]
  where
    last : sy < box_end k len new
    last = rw (box_end-box_start k len new pos h) (
        let e : box_start (k + 1) len new ≡ box_start (suc k) len new =
          ap (λ t. box_start t len new) (omega arith) in
        rw e below)

ends_apart :
    (i j len new : ℕ) → 0 < new → new ≤ len → i < j → box_end i len new ≤ box_start j len new
ends_apart i j len new pos h lt = rw (box_end-box_start i len new pos h) (
    let e : i + 1 + (j - (i + 1)) ≡ j = omega arith in
    rw e at (box_start_mono (i + 1) (j - (i + 1)) len new pos h))

-- A box ends inside the source.
pub box_end-le : (i len new : ℕ) → 0 < new → new ≤ len → i < new → box_end i len new ≤ len
box_end-le i len new pos h lt =
    omega (arith, ends_apart i new len new pos h lt, box_start_last len new pos)

-- When an image is reduced, the boxes tile it: each of the source's rows (or columns) lies in the box
-- of exactly one row (or column) of the result, and none lies outside the source.
pub boxes_tile :
    (len new sy : ℕ)
    → 0 < new
    → new ≤ len
    → sy < len
    → ((i : ℕ) × (i < new) × (box_start i len new ≤ sy) × (sy < box_end i len new))
      × ((i j : ℕ)
          → box_start i len new ≤ sy
          → sy < box_end i len new
          → box_start j len new ≤ sy
          → sy < box_end j len new
          → i ≡ j)
      × ((i : ℕ) → i < new → box_end i len new ≤ len)
boxes_tile len new sy pos h below = (
  covered_below new len new sy pos h (omega (arith, box_start_last len new pos)),
  λ i j p q p' q'. once i j p q p' q',
  λ i i_lt. box_end-le i len new pos h i_lt,
)
  where
    once :
        (i j : ℕ)
        → box_start i len new ≤ sy
        → sy < box_end i len new
        → box_start j len new ≤ sy
        → sy < box_end j len new
        → i ≡ j
    once i j p q p' q' = elim (dec_lt i j) [
      | yes lt ↦ absurd (omega (arith, ends_apart i j len new pos h lt))
      | no ge ↦ elim (dec_lt j i) [
        | yes lt ↦ absurd (omega (arith, ends_apart j i len new pos h lt))
        | no le ↦ omega arith
      ]
    ]
