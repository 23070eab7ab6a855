-- ===== src/ImageProcessor/Handlers.antt =====
-- The handlers of examples/image_processor/main.go. Files, the image codecs and JSON come from Go's
-- library and are parameters; log lines are left out.
use Prim.Native.String.{◌++◌}
use spool.Prelude.{ℕ, ◌*◌, String, Option, none, some, [], ◌∷◌, Map, lookup, ℤ, pos, if◌then◌else◌}
use spool.Env.{World}
use spool.Effect.{Result, ok, err}
use spool.Task.Registry.{Outcome, encoded, raised}
use spool.ImageProcessor.{
  Color, Rgba, Image, Rectangle, Pixels, pixel_at, contains, rect, convert_to_grayscale,
  resize_image, add_watermark,
}

-- A value of the payload's object. A type assertion at another type panics.
pub data Field : Type 0 where
  text : String → Field
  number : ℤ → Field
  other : Field

-- What a handler's call comes to.
pub data Handled : Type 0 where
  returned : Outcome → Handled
  panicked : Handled

abbrev pub widen : Rgba → Color
widen p = record { red = p.r * 257; green = p.g * 257; blue = p.b * 257; alpha = p.a * 257 }

-- An `image.RGBA` and an `image.Gray` as images.
unfoldable pub rgba_image : Rectangle → Pixels Rgba → Image
rgba_image b pixels = record { bounds = b; at = λ x y. widen (pixel_at b pixels x y) }

unfoldable pub gray_image : Rectangle → Pixels ℕ → Image
gray_image b pixels = record {
  bounds = b;
  at = λ x y.
      let v = pixels x y * 257 in
      if contains b x y
      then record { red = v; green = v; blue = v; alpha = 65535 }
      else record { red = 0; green = 0; blue = 0; alpha = 65535 };
}

-- `data[key].(string)` and `int(data[key].(float64))`
abbrev pub text_field : String → Map Field → Option String
text_field key fields = elim (lookup key fields) [
  | none ↦ none
  | some v ↦ elim v [ text t ↦ some t | number n ↦ none | other ↦ none ]
]

abbrev pub number_field : String → Map Field → Option ℤ
number_field key fields = elim (lookup key fields) [
  | none ↦ none
  | some v ↦ elim v [ text t ↦ none | number n ↦ some n | other ↦ none ]
]

module _ (w : World) where
  open w use {S}

  -- `os.Open` with the file's content, `png.Decode` and `jpeg.Decode` of it, `os.Create`, and
  -- `png.Encode` into a file; `json.Unmarshal` of a payload, and the JSON of a handler's output.
  pub record Library : Type 0 where
    pub open_file : String → S → Result String String × S
    pub png_decode : String → Option Image
    pub jpeg_decode : String → Result String Image
    pub create_file : String → S → Option String × S
    pub png_encode : String → Image → S → Option String × S
    pub unmarshal : String → Result String (Map Field)
    pub output_text : String → String

  module _ (l : Library) where
    abbrev pub ImageHandler : Type 0
    ImageHandler = String → S → Handled × S

    -- A file that is no PNG is read again as a JPEG.
    unfoldable pub load_image : String → S → Result String Image × S
    load_image path s =
        let (opened, s') = l.open_file path s in
        elim opened [
          | err e ↦ (err e, s')
          | ok bytes ↦ elim (l.png_decode bytes) [
            | some img ↦ (ok img, s')
            | none ↦ (l.jpeg_decode bytes, s')
          ]
        ]

    -- The error, with none for nil.
    unfoldable pub save_image : String → Image → S → Option String × S
    save_image path img s =
        let (failed, s') = l.create_file path s in
        elim failed [ some e ↦ (some e, s') | none ↦ l.png_encode path img s' ]

    -- What each handler does once it has its paths.
    unfoldable pub process : (Image → Image) → String → String → S → Handled × S
    unfolding load_image save_image
    process f input_path output_path s =
        let (loaded, s1) = load_image input_path s in
        elim loaded [
          | err e ↦ (returned (raised ("failed to load image: " ++ e)), s1)
          | ok img ↦
              let (failed, s2) = save_image output_path (f img) s1 in
              elim failed [
                | some e ↦ (returned (raised ("failed to save image: " ++ e)), s2)
                | none ↦ (returned (encoded (l.output_text output_path)), s2)
              ]
        ]

    -- The start of each handler: the payload and its two paths.
    with_paths : (Map Field → String → String → S → Handled × S) → ImageHandler
    with_paths next payload s = elim (l.unmarshal payload) [
      | err e ↦ (returned (raised e), s)
      | ok fields ↦ elim (text_field "input_path" fields) [
        | none ↦ (panicked, s)
        | some input_path ↦ elim (text_field "output_path" fields) [
          | none ↦ (panicked, s)
          | some output_path ↦ next fields input_path output_path s
        ]
      ]
    ]

    unfoldable pub handle_grayscale : ImageHandler
    unfolding with_paths process gray_image
    handle_grayscale =
        with_paths λ fields. process λ img. gray_image img.bounds (convert_to_grayscale img)

    resized : ℤ → ℤ → Image → Image
    unfolding rgba_image rect
    resized width height img = rgba_image (rect width height) (resize_image img width height)

    unfoldable pub handle_resize : ImageHandler
    unfolding with_paths process resized
    handle_resize = with_paths λ fields input_path output_path s.
        elim (number_field "width" fields) [
          | none ↦ (panicked, s)
          | some width ↦ elim (number_field "height" fields) [
            | none ↦ (panicked, s)
            | some height ↦ process (resized width height) input_path output_path s
          ]
        ]

    unfoldable pub handle_thumbnail : ImageHandler
    unfolding with_paths process resized
    handle_thumbnail = with_paths λ fields. process (resized (pos 150) (pos 150))

    unfoldable pub handle_watermark : ImageHandler
    unfolding with_paths process rgba_image
    handle_watermark = with_paths λ fields. process λ img. rgba_image img.bounds (add_watermark img)

    unfoldable pub register_handlers : Map ImageHandler
    unfolding handle_grayscale handle_resize handle_thumbnail handle_watermark
    register_handlers =
        ("image_grayscale", handle_grayscale)
        ∷ ("image_resize", handle_resize)
        ∷ ("image_thumbnail", handle_thumbnail)
        ∷ ("image_watermark", handle_watermark)
        ∷ []
