-- ===== src/Worker/Draining/Totals.antt =====
-- Sums over the tasks that wait in the four lines of internal/queue/redis.go, and how they change where
-- a task leaves its line or joins one.
use spool.Prelude.{
  ℕ, ◌+◌, ◌≤◌, ◌≡◌, ◌≢◌, refl, ap, String, true, none, some, List, [], ◌∷◌, ◌++◌, str_eq, eq_iff,
  arith, Bool-cases, inl, inr, if◌then◌else◌,
}
use spool.Task.{Task}
use spool.Redis.Keys.{Level, critical, high, normal, low}
use spool.Redis.KeyEquality.{Level-discrete}
use spool.Queue.RedisQueue.Lines.{All, put, line_of, by_urgency, first, join}

module _ (f : Task → ℕ) where
  abbrev pub sum : List Task → ℕ
  sum [] = 0
  sum (t ∷ ts) = f t + sum ts

  abbrev pub total : (Level → List Task) → ℕ
  total q = sum (q critical) + sum (q high) + sum (q normal) + sum (q low)

  sum-append : (ts : List Task) (t : Task) → sum (ts ++ (t ∷ [])) ≡ sum ts + f t
  sum-append [] t = omega arith
  sum-append (u ∷ ts) t = omega (arith, sum-append ts t)

  total-put :
      (q : Level → List Task) (l : Level) (ts : List Task)
      → total (put q l ts) + sum (q l) ≡ total q + sum ts
  unfolding Level-discrete
  total-put q critical ts = omega arith
  total-put q high ts = omega arith
  total-put q normal ts = omega arith
  total-put q low ts = omega arith

  -- The first task of a line leaves it.
  pub total-leave :
      (q : Level → List Task) (l : Level) (t : Task) (behind : List Task)
      → q l ≡ t ∷ behind
      → total (put q l behind) + f t ≡ total q
  total-leave q l t behind e =
      let whole : sum (q l) ≡ f t + sum behind = ap sum e in
      omega (arith, whole, total-put q l behind)

  -- A task joins the line of its priority.
  pub total-join :
      (q : Level → List Task) (l : Level) (t : Task)
      → line_of t.priority ≡ some l
      → total (join t q) ≡ total q + f t
  total-join q l t e =
      rw (join, e) (omega (arith, total-put q l (q l ++ (t ∷ [])), sum-append (q l) t))

  pub total-empty : (q : Level → List Task) → ((l : Level) → q l ≡ []) → total q ≡ 0
  total-empty q e =
      let a : sum (q critical) ≡ 0 = ap sum (e critical) in
      let b : sum (q high) ≡ 0 = ap sum (e high) in
      let c : sum (q normal) ≡ 0 = ap sum (e normal) in
      let d : sum (q low) ≡ 0 = ap sum (e low) in omega (arith, a, b, c, d)

-- Where no line has a first task, nothing waits.
pub first-none : (q : Level → List Task) → first q by_urgency ≡ none → (l : Level) → q l ≡ []
first-none q e l = go (q critical) (q high) (q normal) (q low) refl refl refl refl l
  where
    go :
        (a b c d : List Task)
        → q critical ≡ a
        → q high ≡ b
        → q normal ≡ c
        → q low ≡ d
        → (l : Level) → q l ≡ []
    go [] [] [] [] ha hb hc hd critical = ha
    go [] [] [] [] ha hb hc hd high = hb
    go [] [] [] [] ha hb hc hd normal = hc
    go [] [] [] [] ha hb hc hd low = hd
    go (t ∷ a) b c d ha hb hc hd k = ground (arith, e, ha)
    go [] (t ∷ b) c d ha hb hc hd k = ground (arith, e, ha, hb)
    go [] [] (t ∷ c) d ha hb hc hd k = ground (arith, e, ha, hb, hc)
    go [] [] [] (t ∷ d) ha hb hc hd k = ground (arith, e, ha, hb, hc, hd)

-- How many tasks have an id.
abbrev pub named : String → Task → ℕ
named id t = if str_eq t.id id then 1 else 0

-- No two tasks that wait have the same id.
abbrev pub AreDistinct : (Level → List Task) → Type 0
AreDistinct q = (id : String) → total (named id) q ≤ 1

none_named :
    (id : String) (ts : List Task) → sum (named id) ts ≡ 0 → All (λ (t : Task). t.id ≢ id) ts
none_named id [] e = tt
none_named id (t ∷ ts) e = elim (Bool-cases (str_eq t.id id)) [
  | inl same ↦ absurd (omega (arith, e, one same))
  | inr other ↦ ((λ x. cc (other, (eq_iff t.id id).1 x)), none_named id ts (omega (arith, e)))
]
  where
    one : str_eq t.id id ≡ true → named id t ≡ 1
    one same = rw same refl

-- An id that no waiting task has, by the count of those that have it.
pub none_waits :
    (id : String) (q : Level → List Task)
    → total (named id) q ≡ 0
    → (l : Level) → All (λ (t : Task). t.id ≢ id) (q l)
none_waits id q e critical = none_named id (q critical) (omega (arith, e))
none_waits id q e high = none_named id (q high) (omega (arith, e))
none_waits id q e normal = none_named id (q normal) (omega (arith, e))
none_waits id q e low = none_named id (q low) (omega (arith, e))
