-- ===== src/Scaler/History.antt =====
-- The decisions that internal/monitoring/scaler.go keeps, and what GetDecisionHistory gives of them.
use spool.Prelude.{
  ℕ, suc, zero, ◌+◌, ◌-◌, ◌≤◌, ◌≡◌, refl, List, [], ◌∷◌, ◌++◌, pos, arith, length, drop,
  length-append, length-drop, ap, ◌∙◌, inl, inr, Bool-cases, ltb,
}
use spool.Scaler.{AutoScaler, ScalingDecision, record_decision, get_decision_history}

suc_add : (n m : ℕ) → suc (n + m) ≡ suc n + m
suc_add n m = omega arith

module _ {A : Type 0} where
  append-nil : (xs : List A) → xs ++ [] ≡ xs
  append-nil [] = refl
  append-nil (x ∷ xs) = ap (λ ys. x ∷ ys) (append-nil xs)

  drop-drop : (m n : ℕ) (xs : List A) → drop m (drop n xs) ≡ drop (n + m) xs
  drop-drop m zero xs = ap (λ k. drop k xs) (omega arith)
  drop-drop zero (suc n) [] = ap (λ k. drop k []) (suc_add n 0)
  drop-drop (suc m) (suc n) [] = ap (λ k. drop k []) (suc_add n (suc m))
  drop-drop m (suc n) (x ∷ xs) = drop-drop m n xs ∙ ap (λ k. drop k (x ∷ xs)) (suc_add n m)

  drop-append : (n : ℕ) (xs ys : List A) → n ≤ length xs → drop n xs ++ ys ≡ drop n (xs ++ ys)
  drop-append zero xs ys h = refl
  drop-append (suc n) [] ys h = absurd (omega arith)
  drop-append (suc n) (x ∷ xs) ys h = drop-append n xs ys (omega arith)

  append-assoc_one : (x : A) (xs ys : List A) → (xs ++ (x ∷ [])) ++ ys ≡ xs ++ (x ∷ ys)
  append-assoc_one x [] ys = refl
  append-assoc_one x (y ∷ xs) ys = ap (λ zs. y ∷ zs) (append-assoc_one x xs ys)

  -- The last elements of a list, at most as many as a number says.
  abbrev pub last : ℕ → List A → List A
  last n xs = drop (length xs - n) xs

  -- Keeping the last n of what is kept of a first part and a rest keeps the last n of both.
  pub last-append : (n : ℕ) (xs ys : List A) → last n (last n xs ++ ys) ≡ last n (xs ++ ys)
  last-append n xs ys =
      let k = length xs - n in
      let e = drop-append k xs ys (omega arith) in
      let l : length (drop k (xs ++ ys)) - n ≡ length (xs ++ ys) - k - n =
        ground (arith, length-drop k (xs ++ ys)) in
      let d = drop-drop (length (xs ++ ys) - k - n) k (xs ++ ys) in
      rw (e, l, d) (ap (λ m. drop m (xs ++ ys)) (omega (arith, length-append xs ys)))

module _ {F : Type 0} where
  -- The scaler after it has recorded some decisions, the first one first.
  abbrev pub record_all : AutoScaler F → List (ScalingDecision F) → AutoScaler F
  record_all s [] = s
  record_all s (d ∷ ds) = record_all (record_decision s d) ds

  record_decision_lem :
      (s : AutoScaler F) (d : ScalingDecision F)
      → length s.decisions ≤ 100
      → (record_decision s d).decisions ≡ last 100 (s.decisions ++ (d ∷ []))
  unfolding record_decision
  record_decision_lem s d h =
      let e = length-append s.decisions (d ∷ []) in
      elim (Bool-cases (ltb 100 (length (s.decisions ++ (d ∷ []))))) [
        | inl full ↦
            (let one : length (s.decisions ++ (d ∷ [])) - 100 ≡ 1 = ground (arith, e) in
              rw (full, one) refl)
        | inr room ↦
            (let none : length (s.decisions ++ (d ∷ [])) - 100 ≡ 0 = ground (arith, e) in
              rw (room, none) refl)
      ]

  get_decision_history_lem :
      (s : AutoScaler F) (limit : ℕ)
      → get_decision_history s (pos (suc limit)) ≡ last (suc limit) s.decisions
  unfolding get_decision_history
  get_decision_history_lem s limit = ground arith

  -- A scaler that keeps a hundred decisions at most and records more of them keeps the last hundred
  -- of all, and GetDecisionHistory with a positive limit gives the last of these, as many as the
  -- limit says or all there are.
  pub history_kept :
      (s : AutoScaler F) (ds : List (ScalingDecision F)) (limit : ℕ)
      → length s.decisions ≤ 100
      → let kept = record_all s ds in
        (kept.decisions ≡ last 100 (s.decisions ++ ds))
        × (get_decision_history kept (pos (suc limit)) ≡ last (suc limit) kept.decisions)
  history_kept s [] limit h = (
    (let none : length s.decisions - 100 ≡ 0 = omega arith in
        rw (append-nil s.decisions, none) refl),
    get_decision_history_lem s limit,
  )
  history_kept s (d ∷ ds) limit h =
      let e = record_decision_lem s d h in
      let rest = history_kept (record_decision s d) ds limit (
        ground (
          arith,
          e,
          length-append s.decisions (d ∷ []),
          length-drop (length (s.decisions ++ (d ∷ [])) - 100) (s.decisions ++ (d ∷ [])),
        )) in
      (
        rest.0
            ∙ rw e (last-append 100 (s.decisions ++ (d ∷ [])) ds)
            ∙ ap (last 100) (append-assoc_one d s.decisions ds),
        rest.1,
      )
