-- ===== src/Worker/Polling/Executing.antt =====
-- The execution of a task in internal/worker/worker.go, for what it leaves of the task and of the queue.
use spool.Prelude.{ℕ, ◌≡◌, ◌⊎◌, refl, ◌∙◌, Bool, true, false, Option, none, some, List, ℤ, inl, inr}
use spool.Env.{World}
use spool.Task.{Task, mark_completed}
use spool.Task.Registry.{Registry, execute}
use spool.Task.Registry
use spool.Redis.{Redis}
use spool.Redis.Keys.{Level}
use spool.Redis.Laws.{Laws}
use spool.Queue.{Queue}
use spool.Queue.RedisQueue.{Codec}
use spool.Storage.{Storage}
use spool.Worker.Polling.{
  Format, execute_task, conclude_error, conclude_result, save_result, save_result?, default_timeout,
}
use spool.Worker.Polling.Failures.{q, Same}

-- A task as an execution leaves it: as it was, or completed.
abbrev pub Executed : Task → Task → Type 0
Executed t u = (u ≡ t) ⊎ ((n : ℕ) × (u ≡ mark_completed t n))

module _ (w : World) (f : Format) (r : Redis w) (j : Codec) (laws : Laws w r) (order : List Level)
    (registry : Registry w) (storage : Option (Storage w)) where
  open w use {S, Ctx, now}

  abbrev pub IsSame : S → S → Type 0
  IsSame = Same w f r j laws order registry storage

  abbrev pub queue : Queue w
  queue = q w f r j laws order registry storage

  -- Handlers, and what the task store does with a result, leave the queue's keys alone.
  pub record IsQuiet : Type 0 where
    pub handling : (ctx : Ctx) (t : Task) (s : S) → IsSame (execute w registry ctx t s).2 s
    pub recording :
        (ctx : Ctx) (result : Registry.Result) (s : S)
        → IsSame (save_result w f registry queue storage ctx result s) s

  save_result?-Same :
      (quiet : IsQuiet) (ctx : Ctx) (result : Option Registry.Result) (duration : ℤ) (s : S)
      → IsSame (save_result? w f registry queue storage ctx result duration s) s
  unfolding save_result?
  save_result?-Same quiet ctx none duration s = λ k h. refl
  save_result?-Same quiet ctx (some x) duration s = quiet.recording ctx _ s

  conclude_error-Same :
      (quiet : IsQuiet) (ctx : Ctx) (t : Task) (timeout duration : ℤ) (timed_out : Bool)
      (result : Option Registry.Result) (e : Registry.Error) (s : S)
      → IsSame
          (conclude_error w f registry queue storage ctx t timeout duration timed_out result e s).1
          s
  unfolding conclude_error
  conclude_error-Same quiet ctx t timeout duration true result e s = quiet.recording ctx _ s
  conclude_error-Same quiet ctx t timeout duration false result e s =
      save_result?-Same quiet ctx result duration s

  conclude_result-Executed :
      (quiet : IsQuiet) (ctx : Ctx) (t : Task) (duration : ℤ) (result : Option Registry.Result)
      (s : S)
      → Executed t (conclude_result w f registry queue storage ctx t duration result s).1
        × IsSame (conclude_result w f registry queue storage ctx t duration result s).2 s
  unfolding conclude_result
  conclude_result-Executed quiet ctx t duration none s = (inr (now s, refl), λ k h. refl)
  conclude_result-Executed quiet ctx t duration (some x) s =
      (inr (now s, refl), quiet.recording ctx _ s)

  -- An execution completes the task or leaves it as it was, and leaves the queue's keys alone.
  pub execute_task-Executed :
      (ctx : Ctx) (t : Task) (s : S)
      → IsQuiet
      → Executed t (execute_task w f registry queue storage ctx t s).1
        × IsSame (execute_task w f registry queue storage ctx t s).2 s
  unfolding execute_task
  execute_task-Executed ctx t s quiet = go (execute w registry inner t s).1 refl
    where
      inner : Ctx
      inner = w.with_timeout ctx (default_timeout w f registry queue storage t.timeout) s

      ran : IsSame (execute w registry inner t s).2 s
      ran = quiet.handling inner t s

      go :
          (e : Option Registry.Error)
          → (execute w registry inner t s).1 ≡ e
          → Executed t (execute_task w f registry queue storage ctx t s).1
            × IsSame (execute_task w f registry queue storage ctx t s).2 s
      go none e =
          let done = conclude_result-Executed quiet ctx t _ _ (execute w registry inner t s).2 in
          rw (e, execute_task) (done.0, λ k h. done.1 k h ∙ ran k h)
      go (some x) e =
          rw (e, execute_task)
            (
              inl refl,
              λ k h.
                  conclude_error-Same quiet ctx t _ _ _ _ x (execute w registry inner t s).2 k h
                  ∙ ran k h,
            )
