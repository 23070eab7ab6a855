-- ===== src/ImageProcessor/Loops.antt =====
-- What the loops over the points of a rectangle leave of each point.
use spool.Prelude.{
  ℕ, zero, suc, ◌≡◌, ◌≢◌, refl, sym, ◌∙◌, Bool, true, false, ◌&&◌, ℤ, pos, negsuc, leb_ℤ, ltb_ℤ,
  ◌==ℤ◌, ◌+ℤ◌, +ℤ_parts, -ℤ_parts, eq_of_parts, if◌then◌else◌, arith, Bool-cases, inl, inr,
}
use spool.ImageProcessor.{for_range, for_points, set, Pixels, Rectangle, contains, rounds}

abbrev pub within : ℤ → ℕ → ℤ → Bool
within a n p = leb_ℤ a p && ltb_ℤ p (a +ℤ pos n)

pub ==ℤ_eq : (a b : ℤ) → a ==ℤ b ≡ true → a ≡ b
==ℤ_eq (pos a) (pos b) h = ground arith
==ℤ_eq (pos a) (negsuc b) h = ground arith
==ℤ_eq (negsuc a) (pos b) h = ground arith
==ℤ_eq (negsuc a) (negsuc b) h = ground arith

pub ==ℤ_refl : (a : ℤ) → a ==ℤ a ≡ true
==ℤ_refl (pos a) = ground arith
==ℤ_refl (negsuc a) = ground arith

pub ==ℤ_ne : (a b : ℤ) → a ≢ b → a ==ℤ b ≡ false
==ℤ_ne a b n = elim (Bool-cases (a ==ℤ b)) [ inl e ↦ absurd (n (==ℤ_eq a b e)) | inr e ↦ e ]

within_first : (a : ℤ) (n : ℕ) → (within (a +ℤ pos 1) n a ≡ false) × (within a (suc n) a ≡ true)
within_first a n = (ground (arith, +ℤ_parts a (pos 1)), ground (arith, +ℤ_parts a (pos (suc n))))

within_next : (a p : ℤ) (n : ℕ) → a ≢ p → within (a +ℤ pos 1) n p ≡ within a (suc n) p
within_next a p n e = ground (
  arith,
  +ℤ_parts a (pos 1),
  +ℤ_parts (a +ℤ pos 1) (pos n),
  +ℤ_parts a (pos (suc n)),
  eq_of_parts a p,
)

within_none : (a p : ℤ) → within a 0 p ≡ false
within_none a p = ground (arith, +ℤ_parts a (pos 0))

module _ {I V : Type 0} (obs : I → V) where
  -- Rounds that change nothing of what is observed.
  pub for_range_kept :
      (body : ℤ → I → I)
      → ((x : ℤ) (s : I) → obs (body x s) ≡ obs s)
      → (n : ℕ) (a : ℤ) (s : I) → obs (for_range a n body s) ≡ obs s
  unfolding for_range
  for_range_kept body h zero a s = refl
  for_range_kept body h (suc n) a s = for_range_kept body h n (a +ℤ pos 1) (body a s) ∙ h a s

  -- One round changes it, if the loop reaches it.
  pub for_range_at :
      (body : ℤ → I → I) (p : ℤ) (g : V → V)
      → ((x : ℤ) (s : I) → x ≢ p → obs (body x s) ≡ obs s)
      → ((s : I) → obs (body p s) ≡ g (obs s))
      → (n : ℕ) (a : ℤ) (s : I)
      → obs (for_range a n body s) ≡ (if within a n p then g (obs s) else obs s)
  unfolding for_range
  for_range_at body p g other here zero a s = rw (within_none a p) refl
  for_range_at body p g other here (suc n) a s =
      let rest = for_range_at body p g other here n (a +ℤ pos 1) (body a s) in
      elim (Bool-cases (a ==ℤ p)) [
        | inl e ↦ rest ∙ rw (==ℤ_eq a p e, (within_first p n).0, (within_first p n).1) (here s)
        | inr e ↦
            (let ne : a ≢ p = λ x. cc (e, x, ==ℤ_refl p) in
              rest ∙ rw (within_next a p n ne, other a s ne) refl)
      ]

within_rounds : (a b p : ℤ) → within a (rounds a b) p ≡ leb_ℤ a p && ltb_ℤ p b
within_rounds a b p = ground (arith, -ℤ_parts b a, +ℤ_parts a (pos (rounds a b)))

and_left : (c d : Bool) → c ≡ false → c && d ≡ false
and_left c d h = rw h refl

and_right : (c d : Bool) → d ≡ false → c && d ≡ false
and_right c d h = ground (arith, h)

-- A test in two steps.
nested_if :
    {P : Type 0} (c d : Bool) (x y : P)
    → (if d then (if c then x else y) else y) ≡ (if c && d then x else y)
nested_if true true x y = refl
nested_if true false x y = refl
nested_if false true x y = refl
nested_if false false x y = refl

module _ {P : Type 0} (b : Rectangle) where
  set_other :
      (x y u v : ℤ) (p : P) (pixels : Pixels P)
      → (u ==ℤ x) && (v ==ℤ y) ≡ false
      → set b x y p pixels u v ≡ pixels u v
  unfolding set
  set_other x y u v p pixels h = elim (Bool-cases (contains b x y)) [
    | inl e ↦ rw (e, h) refl
    | inr e ↦ rw e refl
  ]

  set_here :
      (x y : ℤ) (p : P) (pixels : Pixels P) → contains b x y ≡ true → set b x y p pixels x y ≡ p
  unfolding set
  set_here x y p pixels h = rw (h, ==ℤ_refl x, ==ℤ_refl y) refl

  -- Loops that write each point of an area from what stands there: a point of the image is written
  -- once if the area has it, and is kept otherwise.
  pub for_points-set :
      (area : Rectangle) (f : ℤ → ℤ → Pixels P → P) (u v : ℤ) (g : P → P)
      → contains b u v ≡ true
      → ((pixels : Pixels P) → f u v pixels ≡ g (pixels u v))
      → (pixels : Pixels P)
      → for_points area (λ x y s. set b x y (f x y s) s) pixels u v
        ≡ (if contains area u v then g (pixels u v) else pixels u v)
  unfolding for_points
  for_points-set area f u v g h local pixels =
      for_range_at look row v across rows_other row_here (rounds area.min_y area.max_y) area.min_y
        pixels
      ∙ rw (within_rounds area.min_y area.max_y v, within_rounds area.min_x area.max_x u)
          (nested_if (leb_ℤ area.min_x u && ltb_ℤ u area.max_x)
            (leb_ℤ area.min_y v && ltb_ℤ v area.max_y) (g (pixels u v)) (pixels u v))
    where
      look : Pixels P → P
      look s = s u v

      cell : ℤ → ℤ → Pixels P → Pixels P
      cell y x s = set b x y (f x y s) s

      row : ℤ → Pixels P → Pixels P
      row y = for_range area.min_x (rounds area.min_x area.max_x) (cell y)

      across : P → P
      across p = if within area.min_x (rounds area.min_x area.max_x) u then g p else p

      rows_other : (y : ℤ) (s : Pixels P) → y ≢ v → look (row y s) ≡ look s
      rows_other y s n =
          for_range_kept look (cell y)
            (λ x t.
              set_other x y u v (f x y t) t
                (and_right (u ==ℤ x) (v ==ℤ y) (==ℤ_ne v y (λ e. n (sym e)))))
            (rounds area.min_x area.max_x) area.min_x s

      row_here : (s : Pixels P) → look (row v s) ≡ across (look s)
      row_here s =
          for_range_at look (cell v) u g
            (λ x t n.
              set_other x v u v (f x v t) t
                (and_left (u ==ℤ x) (v ==ℤ v) (==ℤ_ne u x (λ e. n (sym e)))))
            (λ t. set_here u v (f u v t) t h ∙ local t) (rounds area.min_x area.max_x) area.min_x s
