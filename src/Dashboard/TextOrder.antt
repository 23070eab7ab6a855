-- ===== src/Dashboard/TextOrder.antt =====
-- The order of texts that `<` of Go gives, as web/server.go sorts by it.
use spool.Prelude.{◌≡◌, refl, sym, ap, ◌∙◌, String, Bool, true, false, arith}
use Prim.Native.String.{[], ◌∷◌, compare}
use Prim.Native.String.compare
use text.Mathlib.Text.{is_lt}

abbrev pub text_lt : String → String → Bool
text_lt s t = is_lt (compare s t)

pub text_lt-asym : (s t : String) → text_lt s t ≡ true → text_lt t s ≡ false
text_lt-asym [] [] h = refl
text_lt-asym [] (d ∷ t) h = ground (arith, compare.cons-nil d t)
text_lt-asym (c ∷ s) [] h = let e : true ≡ false = sym h ∙ ap is_lt (compare.cons-nil c s) in cc
text_lt-asym (c ∷ s) (d ∷ t) h =
    ground (arith, compare.cons-cons c d s t, compare.cons-cons d c t s, text_lt-asym s t)

-- What is not less than a text that is not less than a third is not less than the third.
pub text_lt-not_trans :
    (s t u : String) → text_lt s t ≡ false → text_lt t u ≡ false → text_lt s u ≡ false
text_lt-not_trans [] [] u h k = k
text_lt-not_trans [] (d ∷ t) u h k = absurd (ground (arith, compare.nil-cons d t))
text_lt-not_trans (c ∷ s) t [] h k = ground (arith, compare.cons-nil c s)
text_lt-not_trans (c ∷ s) [] (e ∷ u) h k = absurd (ground (arith, compare.nil-cons e u))
text_lt-not_trans (c ∷ s) (d ∷ t) (e ∷ u) h k = ground (
  arith,
  compare.cons-cons c d s t,
  compare.cons-cons d e t u,
  compare.cons-cons c e s u,
  text_lt-not_trans s t u,
)
