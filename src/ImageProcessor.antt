-- ===== src/ImageProcessor.antt =====
-- examples/image_processor/main.go: the images that its handlers make, as package image of Go has them. A
-- colour has 16 bits for each channel, a pixel 8; loops run over the points of a rectangle.
pub mod Loops
pub mod Watermarks
pub mod Resizing
pub mod Handlers
pub mod Demo
use spool.Prelude.{
  ℕ, zero, suc, ◌+◌, ◌*◌, ◌/◌, ◌%◌, Bool, true, false, ◌&&◌, ℤ, pos, negsuc, pos_part, leb_ℤ, ltb_ℤ,
  ◌==ℤ◌, ◌+ℤ◌, ◌-ℤ◌, quot, scale, wrap64, if◌then◌else◌,
}

-- What `color.Color.RGBA` gives.
pub record Color : Type 0 where
  pub red : ℕ
  pub green : ℕ
  pub blue : ℕ
  pub alpha : ℕ

-- `color.RGBA`
pub record Rgba : Type 0 where
  pub r : ℕ
  pub g : ℕ
  pub b : ℕ
  pub a : ℕ

pub record Rectangle : Type 0 where
  pub min_x : ℤ
  pub min_y : ℤ
  pub max_x : ℤ
  pub max_y : ℤ

-- `image.Image`
pub record Image : Type 0 where
  pub bounds : Rectangle
  pub at : ℤ → ℤ → Color

-- The pixels of an `image.RGBA` or an `image.Gray`.
abbrev pub Pixels : Type 0 → Type 0
Pixels P = ℤ → ℤ → P

abbrev pub transparent : Rgba
transparent = record { r = 0; g = 0; b = 0; a = 0 }

abbrev pub contains : Rectangle → ℤ → ℤ → Bool
contains b x y = (leb_ℤ b.min_x x && ltb_ℤ x b.max_x) && (leb_ℤ b.min_y y && ltb_ℤ y b.max_y)

-- `Set`: a point outside of the bounds is not written.
unfoldable pub set : {P : Type 0} → Rectangle → ℤ → ℤ → P → Pixels P → Pixels P
set b x y p pixels u v =
    if contains b x y then (if (u ==ℤ x) && (v ==ℤ y) then p else pixels u v) else pixels u v

-- `color.RGBAModel`
abbrev pub narrow : Color → Rgba
narrow c = record { r = c.red / 256; g = c.green / 256; b = c.blue / 256; a = c.alpha / 256 }

-- `color.GrayModel`
unfoldable pub gray : Color → ℕ
gray c = (19595 * c.red + 38470 * c.green + 7471 * c.blue + 32768) / 16777216

-- `for i := a; ...; i++` with n rounds.
unfoldable pub for_range : {I : Type 0} → ℤ → ℕ → (ℤ → I → I) → I → I
for_range a zero body s = s
for_range a (suc n) body s = for_range (a +ℤ pos 1) n body (body a s)

-- The rounds of `i := a; i < b`.
abbrev pub rounds : ℤ → ℤ → ℕ
rounds a b = pos_part (b -ℤ a)

-- The two loops over the points of a rectangle, rows first.
unfoldable pub for_points : {I : Type 0} → Rectangle → (ℤ → ℤ → I → I) → I → I
unfolding for_range
for_points b body =
    for_range b.min_y (rounds b.min_y b.max_y)
      (λ y. for_range b.min_x (rounds b.min_x b.max_x) (λ x. body x y))

-- `image.Rect(0, 0, width, height)`, which puts its corners in order.
unfoldable pub rect : ℤ → ℤ → Rectangle
rect width height = record {
  min_x = if ltb_ℤ width (pos 0) then width else pos 0;
  min_y = if ltb_ℤ height (pos 0) then height else pos 0;
  max_x = if ltb_ℤ width (pos 0) then pos 0 else width;
  max_y = if ltb_ℤ height (pos 0) then pos 0 else height;
}

unfoldable pub convert_to_grayscale : Image → Pixels ℕ
unfolding for_points set gray
convert_to_grayscale img =
    for_points img.bounds (λ x y. set img.bounds x y (gray (img.at x y))) (λ x y. 0)

-- The coordinate of the source: x is not negative, and the product is an int64.
unfoldable pub source_of : ℤ → ℤ → ℤ → ℤ
source_of x src_width width = quot (wrap64 (scale (pos_part x) src_width)) (pos_part width)

-- The points of `0 <= y < height` and `0 <= x < width`.
abbrev pub from_zero : ℤ → ℤ → Rectangle
from_zero width height = record { min_x = pos 0; min_y = pos 0; max_x = width; max_y = height }

unfoldable pub resize_image : Image → ℤ → ℤ → Pixels Rgba
unfolding for_points set rect source_of
resize_image img width height =
    let src_width = img.bounds.max_x -ℤ img.bounds.min_x in
    let src_height = img.bounds.max_y -ℤ img.bounds.min_y in
    for_points (from_zero width height)
      (λ x y. set (rect width height) x y (
        narrow (
          img.at (source_of x src_width width +ℤ img.bounds.min_x)
            (source_of y src_height height +ℤ img.bounds.min_y))))
      (λ x y. transparent)

-- `At` of an `image.RGBA`.
abbrev pub pixel_at : Rectangle → Pixels Rgba → ℤ → ℤ → Rgba
pixel_at b pixels x y = if contains b x y then pixels x y else transparent

abbrev pub darker : Rgba → Rgba
darker p = record { r = p.r / 2; g = p.g / 2; b = p.b / 2; a = 255 }

abbrev pub watermark_height : ℤ
watermark_height = pos 30

-- The points of the overlay: the last rows, also where they lie above the image.
abbrev pub overlay : Rectangle → Rectangle
overlay b = record b { min_y = b.max_y -ℤ watermark_height }

unfoldable pub add_watermark : Image → Pixels Rgba
unfolding for_points set
add_watermark img =
    let copied =
      for_points img.bounds (λ x y. set img.bounds x y (narrow (img.at x y)))
        (λ x y. transparent) in
    for_points (overlay img.bounds)
      (λ x y pixels. set img.bounds x y (darker (pixel_at img.bounds pixels x y)) pixels) copied

-- It is called with the seeds 1 to 5.
unfoldable pub create_sample_image : ℕ → ℕ → ℕ → Pixels Rgba
unfolding for_points set rect
create_sample_image width height seed =
    for_points (from_zero (pos width) (pos height))
      (λ x y. set (rect (pos width) (pos height)) x y (record {
        r = (pos_part x + seed * 50) % 256;
        g = (pos_part y + seed * 30) % 256;
        b = (pos_part x + pos_part y + seed * 70) % 256;
        a = 255;
      }))
      (λ x y. transparent)
