-- ===== src/Examples/Codecs/Values.antt =====
-- Texts for the values that a task is made of: each value is written in front of the rest of the text,
-- and read off it again.
use Prim.Native.String.{[], ◌∷◌}
use Prim.Native.Char.{code}
use spool.Prelude.{
  ℕ, zero, suc, ◌==◌, ◌≡◌, refl, ap, String, Option, none, some, ℤ, pos, negsuc, if◌then◌else◌,
}

-- What is written is read back, with the rest of the text.
pub record Code (A : Type 0) : Type 0 where
  pub put : A → String → String
  pub get : String → Option (A × String)
  pub get-put : (a : A) (rest : String) → get (put a rest) ≡ some (a, rest)

pub put_nat : ℕ → String → String
put_nat zero rest = "0" ∷ rest
put_nat (suc n) rest = "1" ∷ put_nat n rest

pub get_nat : String → Option (ℕ × String)
get_nat [] = none
get_nat (c ∷ s) =
    let more = get_nat s in
    if code c == 48
    then some (0, s)
    else elim more [ none ↦ none | some (n, rest) ↦ some (suc n, rest) ]

pub get_nat-put_nat : (n : ℕ) (rest : String) → get_nat (put_nat n rest) ≡ some (n, rest)
unfolding get_nat put_nat
get_nat-put_nat zero rest = refl
get_nat-put_nat (suc n) rest = rw (get_nat-put_nat n rest) refl

pub nat_code : Code ℕ
nat_code = record { put = put_nat; get = get_nat; get-put = get_nat-put_nat }

put_text : String → String → String
put_text [] rest = "0" ∷ rest
put_text (c ∷ s) rest = "1" ∷ c ∷ put_text s rest

get_text : String → Option (String × String)
get_text [] = none
get_text (c ∷ []) = if code c == 48 then some ([], []) else none
get_text (c ∷ d ∷ s) =
    let more = get_text s in
    if code c == 48
    then some ([], d ∷ s)
    else elim more [ none ↦ none | some (t, rest) ↦ some (d ∷ t, rest) ]

get_text-put_text : (s rest : String) → get_text (put_text s rest) ≡ some (s, rest)
unfolding get_text put_text
get_text-put_text [] [] = refl
get_text-put_text [] (c ∷ rest) = refl
get_text-put_text (c ∷ s) rest = rw (get_text-put_text s rest) refl

pub text_code : Code String
text_code = record { put = put_text; get = get_text; get-put = get_text-put_text }

-- One value and then another.
pub pair_code : {A B : Type 0} → Code A → Code B → Code (A × B)
pair_code a b = record {
  put = λ x rest. a.put x.0 (b.put x.1 rest);
  get = λ s. elim (a.get s) [
    | none ↦ none
    | some (x, s') ↦ elim (b.get s') [ none ↦ none | some (y, rest) ↦ some ((x, y), rest) ]
  ];
  get-put = λ x rest. rw (a.get-put x.0 (b.put x.1 rest), b.get-put x.1 rest) refl;
}

-- A value that another stands for.
pub via : {A B : Type 0} (f : A → B) (g : B → A) → ((a : A) → g (f a) ≡ a) → Code B → Code A
via f g e b = record {
  put = λ a rest. b.put (f a) rest;
  get = λ s. elim (b.get s) [ none ↦ none | some (y, rest) ↦ some (g y, rest) ];
  get-put = λ a rest. rw (b.get-put (f a) rest) (ap (λ x. some (x, rest)) (e a));
}

pub int_code : Code ℤ
int_code = via parts whole whole_parts (pair_code nat_code nat_code)
  where
    parts : ℤ → ℕ × ℕ
    parts (pos n) = (0, n)
    parts (negsuc n) = (1, n)

    whole : ℕ × ℕ → ℤ
    whole (zero, n) = pos n
    whole (suc m, n) = negsuc n

    whole_parts : (a : ℤ) → whole (parts a) ≡ a
    whole_parts (pos n) = refl
    whole_parts (negsuc n) = refl

pub time_code : Code (Option ℕ)
time_code = via parts whole whole_parts (pair_code nat_code nat_code)
  where
    parts : Option ℕ → ℕ × ℕ
    parts none = (0, 0)
    parts (some n) = (1, n)

    whole : ℕ × ℕ → Option ℕ
    whole (zero, n) = none
    whole (suc m, n) = some n

    whole_parts : (a : Option ℕ) → whole (parts a) ≡ a
    whole_parts none = refl
    whole_parts (some n) = refl
