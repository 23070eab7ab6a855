-- ===== src/Demos/Autoscaling.antt =====
-- examples/autoscaling/main.go: its configuration, its handler and the burst of tasks.
use spool.Prelude.{
  ℕ, zero, suc, ◌+◌, ◌*◌, ◌<◌, ◌≡◌, ◌≢◌, ap, ◌∙◌, String, true, Option, none, some, pos, arith,
  Option-cases, inl, inr,
}
use spool.Env.{World}
use spool.Effect.{Result, ok, err}
use spool.Task.{new_task, second}
use spool.Task.Registry.{Outcome, encoded, raised}
use spool.Queue.{Queue}
use spool.Metrics.{Metrics}
use spool.Metrics.Tasks.{record_task_enqueued}
use spool.Pool.Soundness.{wrap64-next}
use spool.Config.{AutoScalingConfig}

-- The changes to the default configuration.
unfoldable pub demo_config : AutoScalingConfig → AutoScalingConfig
demo_config c = record c {
  enabled = true;
  min_workers = pos 2;
  max_workers = pos 10;
  scale_up_threshold = pos 20;
  scale_down_idle_time = pos (5 * second);
  check_interval = pos (2 * second);
}

module _ (w : World) where
  open w use {S, Ctx, now, sleep}

  -- `unmarshal` gives the error of `json.Unmarshal`, or the JSON text of the handler's result.
  unfoldable pub heavy_task : (String → Result String String) → Ctx → String → S → Outcome × S
  heavy_task unmarshal ctx payload s = elim (unmarshal payload) [
    | err e ↦ (raised e, s)
    | ok output ↦ (encoded output, sleep (pos 500000000) s)
  ]

  -- The state after the first task of a burst, whose payload is p.
  abbrev after : Queue w → (S → String × S) → Ctx → ℕ → String → S → S
  after q new_id ctx i p s =
      let (id, s1) = new_id s in
      elim (new_task "heavy_task" (some p) id (now s1)) [
        | none ↦ s1
        | some t ↦ (q.enqueue ctx (some t) s1).1
      ]

  module _ {F : Type 0} (q : Queue w) (new_id : S → String × S) (payload : ℕ → Option String) where
    -- The tasks i + 1, i + 2 and so on, n of them. An error of Enqueue is only logged.
    unfoldable pub enqueue_burst : Ctx → ℕ → ℕ → Metrics F → S → Metrics F × S
    unfolding new_task record_task_enqueued
    enqueue_burst ctx zero i m s = (m, s)
    enqueue_burst ctx (suc n) i m s =
        let (id, s1) = new_id s in
        elim (new_task "heavy_task" (payload (suc i)) id (now s1)) [
          | none ↦ enqueue_burst ctx n (suc i) m s1
          | some t ↦
              let (result, s2) = q.enqueue ctx (some t) s1 in
              enqueue_burst ctx n (suc i) (record_task_enqueued m) s2
        ]

    -- Whatever Enqueue returns, a burst of n tasks that can be made counts n tasks as enqueued.
    pub enqueue_burst_lem :
        (ctx : Ctx) (n i a : ℕ) (m : Metrics F) (s : S)
        → ((k : ℕ) → payload k ≢ none)
        → m.tasks_enqueued ≡ pos a
        → a + n < 9223372036854775808
        → (enqueue_burst ctx n i m s).0.tasks_enqueued ≡ pos (a + n)
    unfolding enqueue_burst new_task record_task_enqueued
    enqueue_burst_lem ctx zero i a m s h e small = rw e (ap pos (omega arith))
    enqueue_burst_lem ctx (suc n) i a m s h e small =
        let rest = λ (p : String).
          enqueue_burst_lem ctx n (suc i) (a + 1) (record_task_enqueued m)
            (after q new_id ctx i p s) h
            (rw e (wrap64-next a (omega (arith, small)) ∙ ap pos (omega arith)))
            (omega (arith, small)) in
        elim (Option-cases (payload (suc i))) [
          | inl missing ↦ absurd (h (suc i) missing)
          | inr (p, made) ↦ rw (made, enqueue_burst) (rest p ∙ ap pos (omega arith))
        ]
