-- ===== src/Dashboard/Sorting.antt =====
-- The sort of web/server.go: each place is compared with those behind it, and the two are swapped where
-- the key behind is the greater one.
use spool.Prelude.{
  ℕ, zero, suc, ◌≡◌, ◌≤◌, ◌-◌, arith, refl, Bool, true, false, List, [], ◌∷◌, length, if◌then◌else◌,
  inl, inr, Bool-cases,
}
use mathlib.Core.List.{Perm}
use mathlib.Core.List.Perm

module _ {A : Type 0} (lt : A → A → Bool) where
  -- One round of the outer loop: what it leaves in its place, and behind it.
  unfoldable pub sweep : A → List A → A × List A
  sweep x [] = (x, [])
  sweep x (y ∷ ys) =
      let swapped = sweep y ys in
      let kept = sweep x ys in if lt x y then (swapped.0, x ∷ swapped.1) else (kept.0, y ∷ kept.1)

  -- The rounds that are left.
  unfoldable pub sort_rounds : ℕ → List A → List A
  unfolding sweep
  sort_rounds zero xs = xs
  sort_rounds (suc n) [] = []
  sort_rounds (suc n) (x ∷ xs) = let (y, ys) = sweep x xs in y ∷ sort_rounds n ys

  -- The last place needs no round.
  unfoldable pub sort : List A → List A
  unfolding sort_rounds
  sort xs = sort_rounds (length xs - 1) xs

  -- No later element is greater than an earlier one.
  abbrev pub AllBelow : A → List A → Type 0
  AllBelow x [] = Unit
  AllBelow x (y ∷ ys) = (lt x y ≡ false) × AllBelow x ys

  abbrev pub IsDescending : List A → Type 0
  IsDescending [] = Unit
  IsDescending (x ∷ xs) = AllBelow x xs × IsDescending xs

  sweep-Perm : (x : A) (xs : List A) → Perm (x ∷ xs) ((sweep x xs).0 ∷ (sweep x xs).1)
  unfolding sweep
  sweep-Perm x [] = Perm.refl (x ∷ [])
  sweep-Perm x (y ∷ ys) = elim (Bool-cases (lt x y)) [
    | inl e ↦
        rw e
          (Perm.trans (Perm.cons x (sweep-Perm y ys)) (Perm.swap (sweep y ys).0 x (sweep y ys).1))
    | inr e ↦ rw e (
        Perm.trans (Perm.swap y x ys)
          (Perm.trans (Perm.cons y (sweep-Perm x ys)) (Perm.swap (sweep x ys).0 y (sweep x ys).1)))
  ]

  sort_rounds-Perm : (n : ℕ) (xs : List A) → Perm xs (sort_rounds n xs)
  unfolding sort_rounds
  sort_rounds-Perm zero xs = Perm.refl xs
  sort_rounds-Perm (suc n) [] = Perm.refl []
  sort_rounds-Perm (suc n) (x ∷ xs) =
      Perm.trans (sweep-Perm x xs) (Perm.cons (sweep x xs).0 (sort_rounds-Perm n (sweep x xs).1))

  sweep-length : (x : A) (xs : List A) → length (sweep x xs).1 ≡ length xs
  unfolding sweep
  sweep-length x [] = refl
  sweep-length x (y ∷ ys) = ground (arith, sweep-length y ys, sweep-length x ys)

  sweep-AllBelow :
      (z x : A) (xs : List A)
      → lt z x ≡ false
      → AllBelow z xs
      → (lt z (sweep x xs).0 ≡ false) × AllBelow z (sweep x xs).1
  unfolding sweep
  sweep-AllBelow z x [] h k = (h, k)
  sweep-AllBelow z x (y ∷ ys) h k = elim (Bool-cases (lt x y)) [
    | inl e ↦ rw e (let (first, others) = sweep-AllBelow z y ys k.0 k.1 in (first, (h, others)))
    | inr e ↦ rw e (let (first, others) = sweep-AllBelow z x ys h k.1 in (first, (k.0, others)))
  ]

  sort_rounds-AllBelow :
      (n : ℕ) (z : A) (xs : List A) → AllBelow z xs → AllBelow z (sort_rounds n xs)
  unfolding sort_rounds
  sort_rounds-AllBelow zero z xs h = h
  sort_rounds-AllBelow (suc n) z [] h = h
  sort_rounds-AllBelow (suc n) z (x ∷ xs) h =
      let (first, others) = sweep-AllBelow z x xs h.0 h.1 in
      (first, sort_rounds-AllBelow n z (sweep x xs).1 others)

  module _ (asym : (x y : A) → lt x y ≡ true → lt y x ≡ false)
      (not_trans : (x y z : A) → lt x y ≡ false → lt y z ≡ false → lt x z ≡ false) where
    irreflexive : (x : A) → lt x x ≡ false
    irreflexive x = elim (Bool-cases (lt x x)) [ inl e ↦ asym x x e | inr e ↦ e ]

    -- The place gets the greatest of what stood there and behind.
    sweep-greatest :
        (x : A) (xs : List A)
        → (lt (sweep x xs).0 x ≡ false) × AllBelow (sweep x xs).0 (sweep x xs).1
    unfolding sweep
    sweep-greatest x [] = (irreflexive x, tt)
    sweep-greatest x (y ∷ ys) = elim (Bool-cases (lt x y)) [
      | inl e ↦
          (let (first, others) = sweep-greatest y ys in
            let below = not_trans (sweep y ys).0 y x first (asym x y e) in
            rw e (below, (below, others)))
      | inr e ↦
          (let (first, others) = sweep-greatest x ys in
            rw e (first, (not_trans (sweep x ys).0 x y first e, others)))
    ]

    sort_rounds-IsDescending :
        (n : ℕ) (xs : List A) → length xs ≤ suc n → IsDescending (sort_rounds n xs)
    unfolding sort_rounds
    sort_rounds-IsDescending zero [] h = tt
    sort_rounds-IsDescending zero (x ∷ []) h = (tt, tt)
    sort_rounds-IsDescending zero (x ∷ y ∷ xs) h = absurd (omega arith)
    sort_rounds-IsDescending (suc n) [] h = tt
    sort_rounds-IsDescending (suc n) (x ∷ xs) h = (
      sort_rounds-AllBelow n (sweep x xs).0 (sweep x xs).1 (sweep-greatest x xs).1,
      sort_rounds-IsDescending n (sweep x xs).1 (omega (arith, sweep-length x xs)),
    )

    -- The sorted list has the same elements, each as often, and none is greater than one before it.
    pub sort-IsDescending : (xs : List A) → Perm xs (sort xs) × IsDescending (sort xs)
    unfolding sort
    sort-IsDescending xs = (
      sort_rounds-Perm (length xs - 1) xs,
      sort_rounds-IsDescending (length xs - 1) xs (omega arith),
    )
