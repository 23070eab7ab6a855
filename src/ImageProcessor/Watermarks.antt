-- ===== src/ImageProcessor/Watermarks.antt =====
-- The handlers' images of examples/image_processor/main.go that keep the size, pixel by pixel.
use spool.Prelude.{◌≤◌, ◌≡◌, ◌∙◌, refl, ap, true, ℤ, leb_ℤ, ◌-ℤ◌, if◌then◌else◌, arith}
use spool.ImageProcessor.{
  Image, Rectangle, Rgba, Color, Pixels, contains, overlay, watermark_height, narrow, darker, gray,
  pixel_at, transparent, set, for_points, convert_to_grayscale, add_watermark,
}
use spool.ImageProcessor.Loops.{for_points-set}

overlay-contains :
    (b : Rectangle) (u v : ℤ)
    → contains b u v ≡ true
    → contains (overlay b) u v ≡ leb_ℤ (b.max_y -ℤ watermark_height) v
overlay-contains b u v h = ground arith

pixel_at-contains :
    (b : Rectangle) (u v : ℤ) (pixels : Pixels Rgba)
    → contains b u v ≡ true
    → pixel_at b pixels u v ≡ pixels u v
pixel_at-contains b u v pixels h = rw (pixel_at, h) refl

-- Each pixel of a watermarked image is that of the source, but for the last thirty rows, or all rows
-- where the image has fewer, whose pixels are darkened once and made opaque.
pub add_watermark_lem :
    (img : Image) (u v : ℤ)
    → contains img.bounds u v ≡ true
    → add_watermark img u v ≡ (
        if leb_ℤ (img.bounds.max_y -ℤ watermark_height) v
        then darker (narrow (img.at u v))
        else narrow (img.at u v))
unfolding add_watermark
add_watermark_lem img u v h =
    for_points-set img.bounds (overlay img.bounds) (λ x y s. darker (pixel_at img.bounds s x y)) u v
      darker h (λ s. ap darker (pixel_at-contains img.bounds u v s h)) copied
    ∙ rw (overlay-contains img.bounds u v h, one) refl
  where
    copied : Pixels Rgba
    copied =
        for_points img.bounds (λ x y s. set img.bounds x y (narrow (img.at x y)) s)
          (λ x y. transparent)

    one : copied u v ≡ narrow (img.at u v)
    one =
        for_points-set img.bounds img.bounds (λ x y s. narrow (img.at x y)) u v
          (λ p. narrow (img.at u v)) h (λ s. refl) (λ x y. transparent)
        ∙ rw h refl

-- A colour of 16 bits.
pub record IsColor (c : Color) : Type 0 where
  pub red_le : c.red ≤ 65535
  pub green_le : c.green ≤ 65535
  pub blue_le : c.blue ≤ 65535

gray_le : (c : Color) → IsColor c → gray c ≤ 255
unfolding gray
gray_le c k = ground (arith, k.red_le, k.green_le, k.blue_le)

-- Each pixel of the gray image is the gray of that of the source, and fits a byte where the source's
-- colours have 16 bits.
pub convert_to_grayscale_lem :
    (img : Image) (u v : ℤ)
    → contains img.bounds u v ≡ true
    → IsColor (img.at u v)
    → (convert_to_grayscale img u v ≡ gray (img.at u v)) × (convert_to_grayscale img u v ≤ 255)
unfolding convert_to_grayscale
convert_to_grayscale_lem img u v h k =
    let e : convert_to_grayscale img u v ≡ gray (img.at u v) =
      for_points-set img.bounds img.bounds (λ x y s. gray (img.at x y)) u v (λ p. gray (img.at u v))
        h (λ s. refl) (λ x y. 0)
      ∙ rw h refl in
    (e, ground (arith, e, gray_le (img.at u v) k))
