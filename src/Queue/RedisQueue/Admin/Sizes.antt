-- ===== src/Queue/RedisQueue/Admin/Sizes.antt =====
-- The counts of internal/queue/redis.go: Size does not depend on the order of the range over a map.
use mathlib.Core.List.{Perm, Permᴰ}
use mathlib.Core.Logic.{∥∥₁_elim}
use mathlib.Core.Path.{fun_ext}
use native.Mathlib.Nat.{ℕ_set}
use spool.Prelude.{
  ℕ, ◌+◌, ◌≡◌, refl, sym, ap, subst, ◌∙◌, some, List, [], ◌∷◌, arith, length, Option-cases, inl,
  inr,
}
use spool.Env.{World}
use spool.Effect.{ok}
use spool.Redis.{Redis}
use spool.Redis.Laws.{Laws, IsUp, HoldsList, Entry, items_of}
use spool.Redis.Keys.{Key, Level, queue, critical, high, normal, low}
use spool.Queue.RedisQueue.{Codec}
use spool.Queue.RedisQueue.Admin.{size, size_from}

-- The lengths of the queues, added up.
abbrev pub total_length : (Key → Entry) → List Level → ℕ
total_length held [] = 0
total_length held (l ∷ rest) = length (items_of (held (queue l))) + total_length held rest

total_length-permᴰ :
    (held : Key → Entry) {xs ys : List Level}
    → Permᴰ xs ys
    → total_length held xs ≡ total_length held ys
total_length-permᴰ held Permᴰ.nil = refl
total_length-permᴰ held (Permᴰ.cons {l₁ = xs} {l₂ = ys} e p) =
    omega (arith, ap (λ l. length (items_of (held (queue l)))) e, total_length-permᴰ held p)
total_length-permᴰ held (Permᴰ.swap e f) = omega (
  arith,
  ap (λ l. length (items_of (held (queue l)))) e,
  ap (λ l. length (items_of (held (queue l)))) f,
)
total_length-permᴰ held (Permᴰ.trans p q) = total_length-permᴰ held p ∙ total_length-permᴰ held q

total_length-perm :
    (held : Key → Entry) {xs ys : List Level}
    → Perm xs ys
    → total_length held xs ≡ total_length held ys
total_length-perm held p = ∥∥₁_elim p (ℕ_set _ _) (total_length-permᴰ held)

module _ (w : World) (r : Redis w) (j : Codec) (laws : Laws w r) where
  open w use {S, Ctx}
  open laws use {at}

  llen_lem :
      (c : Ctx) (up : IsUp w r laws c) (k : Key) (s : S)
      → HoldsList (at s k)
      → (r.llen c k s).0 ≡ some (length (items_of (at s k)))
  llen_lem c up k s h = elim (Option-cases (r.llen c k s).0) [
    | inl e ↦ absurd (up.llen_up k s h e)
    | inr (n, e) ↦ e ∙ ap some (laws.llen_some c k s n e)
  ]

  size_from-total :
      (c : Ctx) (up : IsUp w r laws c) (order : List Level) (n : ℕ) (s : S) (held : Key → Entry)
      → at s ≡ held
      → ((l : Level) → HoldsList (held (queue l)))
      → (size_from w r j c order n s).0 ≡ ok (n + total_length held order)
  unfolding size_from
  size_from-total c up [] n s held e h = ap ok (omega arith)
  size_from-total c up (l ∷ rest) n s held e h =
      let m = length (items_of (held (queue l))) in
      let here = llen_lem c up (queue l) s (subst (λ f. HoldsList (f (queue l))) (sym e) (h l)) in
      let later =
        size_from-total c up rest (n + m) (r.llen c (queue l) s).1 held
          (fun_ext (laws.llen_frame c (queue l) s) ∙ e) h in
      ground (arith, here, ap (λ f. f (queue l)) e, later)

  -- With the connection up and a list or nothing under each queue's key, Size is the sum of the
  -- four lengths, in whatever order Go ranges over the map of queue keys.
  pub size-total :
      (c : Ctx) (order : List Level) (s : S)
      → IsUp w r laws c
      → Perm order (critical ∷ high ∷ normal ∷ low ∷ [])
      → ((l : Level) → HoldsList (at s (queue l)))
      → (size w r j order c s).0 ≡ ok (total_length (at s) (critical ∷ high ∷ normal ∷ low ∷ []))
  unfolding size
  size-total c order s up p h =
      size_from-total c up order 0 s (at s) refl h
      ∙ ap ok (omega (arith, total_length-perm (at s) p))
