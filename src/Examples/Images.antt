-- ===== src/Examples/Images.antt =====
-- A small image, larger and with a watermark.
use spool.Prelude.{
  ◌*◌, ◌/◌, ◌≡◌, refl, true, pos, pos_part, arith, ◌+ℤ◌, ◌-ℤ◌, if◌then◌else◌, leb_ℤ,
}
use spool.ImageProcessor.{
  Image, contains, narrow, darker, watermark_height, resize_image, add_watermark,
}
use spool.ImageProcessor.Resizing.{resize_image_lem}
use spool.ImageProcessor.Watermarks.{add_watermark_lem}

-- Forty rows of twenty points, the red of which grows from left to right.
abbrev stripes : Image
stripes = record {
  bounds = record { min_x = pos 0; min_y = pos 0; max_x = pos 20; max_y = pos 40 };
  at = λ x y. record { red = 1000 * pos_part x; green = 0; blue = 0; alpha = 65535 };
}

resize_image_lem_example :
    (resize_image stripes (pos 150) (pos 150) (pos 149) (pos 75)
      ≡ narrow (stripes.at (pos (149 * 20 / 150) +ℤ pos 0) (pos (75 * 40 / 150) +ℤ pos 0)))
    × (contains stripes.bounds (pos (149 * 20 / 150) +ℤ pos 0) (pos (75 * 40 / 150) +ℤ pos 0)
        ≡ true)
unfolding ◌-ℤ◌
resize_image_lem_example =
    resize_image_lem stripes 20 40 150 150 149 75 refl refl (omega arith, omega arith)
      (omega arith, omega arith) (omega arith, omega arith)

add_watermark_lem_example : add_watermark stripes (pos 3) (pos 10) ≡ (
    if leb_ℤ (stripes.bounds.max_y -ℤ watermark_height) (pos 10)
    then darker (narrow (stripes.at (pos 3) (pos 10)))
    else narrow (stripes.at (pos 3) (pos 10)))
add_watermark_lem_example = add_watermark_lem stripes (pos 3) (pos 10) refl
