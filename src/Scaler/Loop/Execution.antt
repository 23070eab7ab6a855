-- ===== src/Scaler/Loop/Execution.antt =====
-- The loops of scaleUp and scaleDown of internal/monitoring/scaler.go with any controller that keeps
-- its number of workers within bounds.
use spool.Prelude.{
  ltb, ltb→lt, ℕ, zero, suc, ◌+◌, ◌-◌, ◌≤◌, ◌<◌, ◌≡◌, ◌≢◌, arith, none, min, Option-cases,
  Bool-cases, inl, inr,
}
use spool.Env.{World}
use spool.Scaler.Loop.{Controller, add_workers}

module _ (w : World) (control : Controller w) where
  open w use {S, Ctx}

  -- A controller that adds a worker exactly if it has less than a number of them, and otherwise does
  -- not change how many there are.
  pub record Fills (most : ℕ) (size : S → ℕ) : Type 0 where
    pub adds :
        (ctx : Ctx) (s : S)
        → size s < most
        → ((control.add_worker ctx s).0 ≢ none) × (size (control.add_worker ctx s).1 ≡ suc (size s))
    pub refuses :
        (ctx : Ctx) (s : S)
        → most ≤ size s
        → ((control.add_worker ctx s).0 ≡ none) × (size (control.add_worker ctx s).1 ≡ size s)

  -- The loop of scaleUp adds as many workers as it is asked for or as there is room for, and counts
  -- one error for each of the others.
  pub add_workers_lem :
      (most : ℕ) (size : S → ℕ)
      → Fills most size
      → (n : ℕ) (ctx : Ctx) (errors : ℕ) (s : S) → size s ≤ most
      → let (failed, s') = add_workers w control n ctx errors s in
        (size s' ≡ size s + min n (most - size s)) × (failed ≡ errors + (n - (most - size s)))
  unfolding add_workers
  add_workers_lem most size fills zero ctx errors s h = (omega arith, omega arith)
  add_workers_lem most size fills (suc n) ctx errors s h = elim (Bool-cases (ltb (size s) most)) [
    | inl below ↦
        (let lt = ltb→lt (size s) most below in
          let one = fills.adds ctx s lt in
          let rest =
            add_workers_lem most size fills n ctx errors (control.add_worker ctx s).1
              (omega (arith, one.1, lt)) in
          elim (Option-cases (control.add_worker ctx s).0) [
            | inl none_added ↦ absurd (one.0 none_added)
            | inr added ↦
                rw (add_workers, added.1)
                  (omega (arith, one.1, rest.0, lt), omega (arith, one.1, rest.1, lt))
          ])
    | inr full ↦
        (let le : most ≤ size s = ground (arith, full) in
          let no = fills.refuses ctx s le in
          let rest =
            add_workers_lem most size fills n ctx (errors + 1) (control.add_worker ctx s).1
              (omega (arith, no.1, h)) in
          rw (add_workers, no.0)
            (omega (arith, no.1, rest.0, le, h), omega (arith, no.1, rest.1, le, h)))
  ]
