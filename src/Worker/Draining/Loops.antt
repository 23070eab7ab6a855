-- ===== src/Worker/Draining/Loops.antt =====
-- The loop of internal/worker/worker.go terminates its work: after enough ticks nothing waits.
use spool.Prelude.{ℕ, zero, suc, ◌≤◌, ◌≡◌, Option, List, [], ◌∷◌, ap, ◌∙◌, arith, refl}
use spool.Env.{World}
use spool.Task.{Task}
use spool.Task.Registry.{Registry}
use spool.Redis.{Redis}
use spool.Redis.Keys.{Level, critical, high, normal, low, queue}
use spool.Redis.Laws.{Laws, missing, of_items}
use spool.Queue.RedisQueue.{Codec}
use spool.Queue.RedisQueue.Refinement.Parts.{ids}
use spool.Storage.{Storage}
use spool.Worker.{Worker}
use spool.Worker.Polling.{Format, poll_and_execute}
use spool.Worker.Running.{Case, ticked, run}
use spool.Worker.Draining.Totals.{sum, total}
use spool.Worker.Draining.Families.{executions_left}
use spool.Worker.Draining.Settling.{Holds, redis}
use spool.Worker.Draining.Polls.{IsServed, poll-Polled}

-- The ticker fires n times.
abbrev pub ticks : ℕ → List Case
ticks zero = []
ticks (suc n) = ticked ∷ ticks n

-- A line whose tasks may be executed no more is empty.
line_empty : (ts : List Task) → sum executions_left ts ≡ 0 → ts ≡ []
line_empty [] e = refl
line_empty (t ∷ ts) e = absurd (omega (arith, e))

all_empty : (q : Level → List Task) → total executions_left q ≡ 0 → (l : Level) → q l ≡ []
all_empty q e critical = line_empty (q critical) (omega (arith, e))
all_empty q e high = line_empty (q high) (omega (arith, e))
all_empty q e normal = line_empty (q normal) (omega (arith, e))
all_empty q e low = line_empty (q low) (omega (arith, e))

module _ (w : World) (f : Format) (r : Redis w) (j : Codec) (laws : Laws w r) (order : List Level)
    (registry : Registry w) (storage : Option (Storage w)) (P : Task → Type 0) where
  open w use {S, Ctx}
  open laws use {at}

  -- A worker that is served, on a queue whose waiting tasks have different ids, empties the queue: the
  -- ticker needs to fire no more often than the waiting tasks may be executed together, each once and
  -- once for each retry that is left.
  pub run_empties :
      (n : ℕ) (ctx : Ctx) (v : Worker) (s : S) (q : Level → List Task)
      → IsServed w f r j laws order registry storage P ctx
      → Holds w f r j laws order registry storage P s q
      → total executions_left q ≤ n
      → (l : Level)
      → at
          (run w f registry
            (redis w f r j laws order registry storage P)
            storage
            ctx
            (ticks n)
            v
            s).1
          (queue l)
        ≡ missing
  unfolding run
  run_empties zero ctx v s q served h le l =
      h.stands.listed l ∙ ap (λ ts. of_items (ids ts)) (all_empty q (omega (arith, le)) l)
  run_empties (suc n) ctx v s q served h le l =
      let (result, v', s') =
        poll_and_execute w f registry (redis w f r j laws order registry storage P) storage v ctx
          s in
      let next = poll-Polled w f r j laws order registry storage P ctx served v s q h in
      run_empties n ctx v' s' next.lines served next.holds (omega (arith, next.fewer, le)) l
