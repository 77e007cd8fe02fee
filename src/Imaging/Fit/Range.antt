-- ===== src/Imaging/Fit/Range.antt =====
-- The colours of what `Fit` returns.
use foto.Base.{
  ℕ, zero, suc, ◌+◌, ◌-◌, ◌*◌, ◌/◌, ◌%◌, ◌^◌, ◌≤◌, ◌<◌, ◌≡◌, refl, arith, ◌⊎◌, inl, inr, false,
  ◌==◌, dec_le,
}
use foto.Imaging.Image.{Image, Pixel}
use foto.Imaging.Fit.Tiles.{box_end-le, box_nonempty}
use foto.Imaging.Fit.Size.{new_size_bounds, fit_large, fit_small, fit_empty}
use foto.Imaging.Fit.{
  mean, Sums, no_sums, add_pixel, sum_row, sum_rows, mean_pixel, box_start, box_end, box_sums,
  shrink, fit,
}

-- Each channel of a pixel between two values.
pub record IsBetween (lo hi : ℕ) (p : Pixel) : Type 0 where
  pub r_lo : lo ≤ p.r
  pub r_hi : p.r ≤ hi
  pub g_lo : lo ≤ p.g
  pub g_hi : p.g ≤ hi
  pub b_lo : lo ≤ p.b
  pub b_hi : p.b ≤ hi
  pub a_lo : lo ≤ p.a
  pub a_hi : p.a ≤ hi

record IsSum (lo hi n : ℕ) (s : Sums) : Type 0 where
  count : s.n ≡ n
  r_lo : lo * n ≤ s.r
  r_hi : s.r ≤ hi * n
  g_lo : lo * n ≤ s.g
  g_hi : s.g ≤ hi * n
  b_lo : lo * n ≤ s.b
  b_hi : s.b ≤ hi * n
  a_lo : lo * n ≤ s.a
  a_hi : s.a ≤ hi * n

add_channel :
    (lo hi n s c : ℕ)
    → hi ≤ 255
    → 255 * (n + 1) < 2 ^ 64
    → lo * n ≤ s
    → s ≤ hi * n
    → lo ≤ c
    → c ≤ hi
    → (lo * (n + 1) ≤ (s + c) % 2 ^ 64) × ((s + c) % 2 ^ 64 ≤ hi * (n + 1))
add_channel lo hi n s c h small p q u v = grind arith

mean_channel :
    (lo hi n s : ℕ) → hi ≤ 255 → 0 < n → lo * n ≤ s → s ≤ hi * n → (lo ≤ mean s n) × (mean s n ≤ hi)
unfolding mean
mean_channel lo hi n s h pos p q = ground (arith, low, high)
  where
    low : lo ≤ s / n
    low = grind arith

    high : s / n ≤ hi
    high = grind arith

module _ (lo hi : ℕ) (small : hi ≤ 255) where
  add_pixel-IsSum :
      (n : ℕ) (p : Pixel) (s : Sums)
      → 255 * (n + 1) < 2 ^ 64
      → IsBetween lo hi p
      → IsSum lo hi n s
      → IsSum lo hi (n + 1) (add_pixel p s)
  unfolding add_pixel
  add_pixel-IsSum n p s room c h =
      let (r0, r1) = add_channel lo hi n s.r p.r small room h.r_lo h.r_hi c.r_lo c.r_hi in
      let (g0, g1) = add_channel lo hi n s.g p.g small room h.g_lo h.g_hi c.g_lo c.g_hi in
      let (b0, b1) = add_channel lo hi n s.b p.b small room h.b_lo h.b_hi c.b_lo c.b_hi in
      let (a0, a1) = add_channel lo hi n s.a p.a small room h.a_lo h.a_hi c.a_lo c.a_hi in
      record {
        count = omega (arith, h.count);
        r_lo = r0;
        r_hi = r1;
        g_lo = g0;
        g_hi = g1;
        b_lo = b0;
        b_hi = b1;
        a_lo = a0;
        a_hi = a1;
      }

  module _ (img : Image)
      (between : (x y : ℕ) → x < img.width → y < img.height → IsBetween lo hi (img.pixel x y)) where
    sum_row-IsSum :
        (k sx sy n m : ℕ) (s : Sums)
        → n + k ≡ m
        → 255 * m < 2 ^ 64
        → sx + k ≤ img.width
        → sy < img.height
        → IsSum lo hi n s
        → IsSum lo hi m (sum_row img k sx sy s)
    unfolding sum_row
    sum_row-IsSum zero sx sy n m s e room w h i = let e' : n ≡ m = omega arith in rw (← e') i
    sum_row-IsSum (suc k) sx sy n m s e room w h i =
        sum_row-IsSum k (sx + 1) sy (n + 1) m _ (omega arith) room (omega arith) h
          (add_pixel-IsSum n _ s (omega arith) (between sx sy (omega arith) h) i)

    sum_rows-IsSum :
        (k columns x0 sy n m : ℕ) (s : Sums)
        → n + k * columns ≡ m
        → 255 * m < 2 ^ 64
        → x0 + columns ≤ img.width
        → sy + k ≤ img.height
        → IsSum lo hi n s
        → IsSum lo hi m (sum_rows img k columns x0 sy s)
    unfolding sum_rows
    sum_rows-IsSum zero columns x0 sy n m s e room w h i =
        let e' : n ≡ m = grind arith in rw (← e') i
    sum_rows-IsSum (suc k) columns x0 sy n m s e room w h i =
        let e' : n + columns + k * columns ≡ m = grind arith in
        sum_rows-IsSum k columns x0 (sy + 1) (n + columns) m _ e' room w (omega arith)
          (sum_row-IsSum columns x0 sy n (n + columns) s refl (omega arith) w (omega arith) i)

  mean_pixel-IsBetween :
      (n : ℕ) (s : Sums) → 0 < n → IsSum lo hi n s → IsBetween lo hi (mean_pixel s)
  unfolding mean_pixel
  mean_pixel-IsBetween n s pos i =
      rw (i.count, some_pixels)
        (record {
          r_lo = r.0;
          r_hi = r.1;
          g_lo = g.0;
          g_hi = g.1;
          b_lo = b.0;
          b_hi = b.1;
          a_lo = a.0;
          a_hi = a.1;
        })
    where
      some_pixels : (n == 0) ≡ false
      some_pixels = ground arith

      r : (lo ≤ mean s.r n) × (mean s.r n ≤ hi)
      r = mean_channel lo hi n s.r small pos i.r_lo i.r_hi

      g : (lo ≤ mean s.g n) × (mean s.g n ≤ hi)
      g = mean_channel lo hi n s.g small pos i.g_lo i.g_hi

      b : (lo ≤ mean s.b n) × (mean s.b n ≤ hi)
      b = mean_channel lo hi n s.b small pos i.b_lo i.b_hi

      a : (lo ≤ mean s.a n) × (mean s.a n ≤ hi)
      a = mean_channel lo hi n s.a small pos i.a_lo i.a_hi

area-le : (a b w h : ℕ) → a ≤ w → b ≤ h → 255 * (w * h) < 2 ^ 64 → 255 * (b * a) < 2 ^ 64
area-le a b w h p q room = grind arith

area-pos : (a b : ℕ) → 0 < a → 0 < b → 0 < b * a
area-pos a b p q = grind arith

module _ (lo hi : ℕ) (img : Image) (small : hi ≤ 255)
    (room : 255 * (img.width * img.height) < 2 ^ 64)
    (between : (x y : ℕ) → x < img.width → y < img.height → IsBetween lo hi (img.pixel x y)) where
  shrink-IsBetween :
      (new_w new_h x y : ℕ)
      → new_w ≤ img.width
      → new_h ≤ img.height
      → x < new_w
      → y < new_h
      → IsBetween lo hi ((shrink img (new_w, new_h)).pixel x y)
  unfolding shrink box_sums
  shrink-IsBetween new_w new_h x y fw fh xl yl =
      let x0 = box_start x img.width new_w in
      let x1 = box_end x img.width new_w in
      let y0 = box_start y img.height new_h in
      let y1 = box_end y img.height new_h in
      let x_in : x1 ≤ img.width = box_end-le x img.width new_w (omega arith) fw xl in
      let y_in : y1 ≤ img.height = box_end-le y img.height new_h (omega arith) fh yl in
      let x_some : x0 < x1 = box_nonempty x img.width new_w in
      let y_some : y0 < y1 = box_nonempty y img.height new_h in
      let none_yet : IsSum lo hi 0 no_sums = omega arith in
      mean_pixel-IsBetween lo hi small ((y1 - y0) * (x1 - x0)) _
        (area-pos (x1 - x0) (y1 - y0) (omega arith) (omega arith))
        (sum_rows-IsSum lo hi small img between (y1 - y0) (x1 - x0) x0 y0 0 ((y1 - y0) * (x1 - x0))
          no_sums (omega arith)
          (area-le (x1 - x0) (y1 - y0) img.width img.height (omega arith) (omega arith) room)
          (omega arith) (omega arith) none_yet)

  fit_of_eq :
      (edge : ℕ) (j : Image)
      → fit img edge ≡ j
      → ((x y : ℕ) → x < j.width → y < j.height → IsBetween lo hi (j.pixel x y))
      → (x y : ℕ) → x < (fit img edge).width
      → y < (fit img edge).height
      → IsBetween lo hi ((fit img edge).pixel x y)
  fit_of_eq edge j e f x y = rw e (f x y)

  fit_of_large :
      (edge : ℕ)
      → 1 ≤ edge
      → 0 < img.width
      → 0 < img.height
      → (edge < img.width) ⊎ (edge < img.height)
      → (x y : ℕ) → x < (fit img edge).width
      → y < (fit img edge).height
      → IsBetween lo hi ((fit img edge).pixel x y)
  fit_of_large edge pe pw ph big =
      let size = new_size_bounds img.width img.height edge pw ph pe big in
      fit_of_eq edge _ (fit_large img edge pw ph big)
        (unfold shrink in λ x y xl yl. shrink-IsBetween _ _ x y size.2 size.5 xl yl)

  -- Averaging makes no colour that was not there: if every channel of every pixel lies between two
  -- byte values, so does every channel of every pixel of the result. No sum wraps around, as long as
  -- 255 times the area fits a `uint64`.
  pub fit-IsBetween :
      (edge x y : ℕ)
      → 1 ≤ edge
      → x < (fit img edge).width
      → y < (fit img edge).height
      → IsBetween lo hi ((fit img edge).pixel x y)
  fit-IsBetween edge x y pe xl yl = elim (dec_le 1 img.width) [
    | no none_w ↦ fit_of_eq edge img (fit_empty img edge (inl (omega arith))) between x y xl yl
    | yes pw ↦ elim (dec_le 1 img.height) [
      | no none_h ↦ fit_of_eq edge img (fit_empty img edge (inr (omega arith))) between x y xl yl
      | yes ph ↦ elim (dec_le img.width edge) [
        | no big ↦ fit_of_large edge pe pw ph (inl (omega arith)) x y xl yl
        | yes p ↦ elim (dec_le img.height edge) [
          | no big ↦ fit_of_large edge pe pw ph (inr (omega arith)) x y xl yl
          | yes q ↦ fit_of_eq edge img (fit_small img edge p q) between x y xl yl
        ]
      ]
    ]
  ]
