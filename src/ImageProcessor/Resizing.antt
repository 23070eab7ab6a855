-- ===== src/ImageProcessor/Resizing.antt =====
-- The resized images of examples/image_processor/main.go, pixel by pixel.
use native.Mathlib.Nat.{div-lt_iff_lt-mul, mul-lt-mul_of_pos_right, mul_comm}
use spool.Prelude.{
  ℕ, ◌*◌, ◌/◌, ◌<◌, ◌≡◌, ◌∙◌, refl, subst, true, ◌&&◌, ℤ, pos, leb_ℤ, ltb_ℤ, ◌+ℤ◌, ◌-ℤ◌, +ℤ_parts,
  -ℤ_parts, wrap64_id, scale, quot, arith,
}
use spool.ImageProcessor.{
  Image, Rgba, contains, narrow, transparent, rect, from_zero, source_of, resize_image,
}
use spool.ImageProcessor.Loops.{for_points-set}

rect-contains :
    (w h i k : ℕ) → i < w → k < h → contains (rect (pos w) (pos h)) (pos i) (pos k) ≡ true
unfolding rect
rect-contains w h i k a b = ground arith

from_zero-contains :
    (w h i k : ℕ) → i < w → k < h → contains (from_zero (pos w) (pos h)) (pos i) (pos k) ≡ true
from_zero-contains w h i k a b = ground arith

source_of_pos :
    (i n w : ℕ) → i * n < 9223372036854775808 → source_of (pos i) (pos n) (pos w) ≡ pos (i * n / w)
unfolding source_of scale quot
source_of_pos i n w small = rw (wrap64_id (pos (i * n)) small (omega arith)) refl

source_lt : (i n w : ℕ) → i < w → 0 < n → i * n / w < n
source_lt i n w a b =
    (div-lt_iff_lt-mul (omega (arith, a))).1
      (subst (λ k. i * n < k) (mul_comm w n) (mul-lt-mul_of_pos_right a b))

-- A coordinate of the source lies between the bounds.
between :
    (low high : ℤ) (n k : ℕ)
    → high -ℤ low ≡ pos n
    → k < n
    → leb_ℤ low (pos k +ℤ low) && ltb_ℤ (pos k +ℤ low) high ≡ true
between low high n k e a = ground (arith, -ℤ_parts high low, +ℤ_parts (pos k) low, e, a)

-- An image of a positive width and height that is resized to w times h, with products that fit an
-- int64, has at each point i, k the pixel of the source at the nearest place to the left and above,
-- which lies within the source.
pub resize_image_lem :
    (img : Image) (m n w h i k : ℕ)
    → img.bounds.max_x -ℤ img.bounds.min_x ≡ pos m
    → img.bounds.max_y -ℤ img.bounds.min_y ≡ pos n
    → (0 < m) × (0 < n)
    → (w * m < 9223372036854775808) × (h * n < 9223372036854775808)
    → (i < w) × (k < h)
    → let x = pos (i * m / w) +ℤ img.bounds.min_x in
      let y = pos (k * n / h) +ℤ img.bounds.min_y in
      (resize_image img (pos w) (pos h) (pos i) (pos k) ≡ narrow (img.at x y))
      × (contains img.bounds x y ≡ true)
unfolding resize_image
resize_image_lem img m n w h i k em en (m_pos, n_pos) (small_m, small_n) (iw, kh) =
    let xs = source_of_pos i m w (omega (arith, small_m, mul-lt-mul_of_pos_right iw m_pos)) in
    let ys = source_of_pos k n h (omega (arith, small_n, mul-lt-mul_of_pos_right kh n_pos)) in
    let sample : ℤ → ℤ → Rgba = λ x y. narrow (
      img.at (source_of x (img.bounds.max_x -ℤ img.bounds.min_x) (pos w) +ℤ img.bounds.min_x)
        (source_of y (img.bounds.max_y -ℤ img.bounds.min_y) (pos h) +ℤ img.bounds.min_y)) in
    let found : sample (pos i) (pos k)
        ≡ narrow
            (img.at (pos (i * m / w) +ℤ img.bounds.min_x) (pos (k * n / h) +ℤ img.bounds.min_y)) =
      rw (em, en, xs, ys) refl in
    (
      for_points-set (rect (pos w) (pos h)) (from_zero (pos w) (pos h)) (λ x y s. sample x y)
            (pos i) (pos k) (λ p. sample (pos i) (pos k)) (rect-contains w h i k iw kh) (λ s. refl)
            (λ x y. transparent)
          ∙ rw (from_zero-contains w h i k iw kh) found,
      ground (
        arith,
        between img.bounds.min_x img.bounds.max_x m (i * m / w) em (source_lt i m w iw m_pos),
        between img.bounds.min_y img.bounds.max_y n (k * n / h) en (source_lt k n h kh n_pos),
      ),
    )
