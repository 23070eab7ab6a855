-- ===== src/Demos/LiveDashboard.antt =====
-- examples/dashboard/main.go: its workers, the tasks that it generates and the events that it tells the
-- dashboard. What it draws at random comes in as an argument.
pub mod Doubled
use spool.Prelude.{
  ℕ, zero, suc, ◌*◌, String, Option, none, some, List, [], ◌∷◌, ℤ, pos, pos_part, ltb_ℤ, ◌-ℤ◌,
  wrap64, if◌then◌else◌,
}
use spool.Env.{World}
use spool.Effect.{Result, ok, err}
use spool.Task.{Task, Priority, second, new_task, with_priority, with_max_retries, with_timeout}
use spool.Queue.{Queue}
use spool.Worker.{Outcome, returns_nil, returns_error, panics}
use spool.Metrics.{Metrics, register_worker}
use spool.Metrics.Tasks.{Floats, record_task_enqueued}
use spool.Instrumented.{InstrumentedWorker, start}
use spool.Dashboard.Feed.{Feed, TaskEvent, broadcast_task_event}

-- What a tick of the event loop has seen of a worker's counters.
pub record Seen : Type 0 where
  pub last_processed : ℤ
  pub last_failed : ℤ

module _ {F : Type 0} (floats : Floats F) where
  -- A worker is registered, and then started with its instrumentation; a failed start is only logged.
  unfoldable pub start_worker : ℕ → InstrumentedWorker → Metrics F → InstrumentedWorker × Metrics F
  unfolding start
  start_worker now v m =
      let (outcome, v', m') = start floats now v (register_worker now v.worker.id m) in (v', m')

  unfoldable pub start_workers :
      ℕ → List InstrumentedWorker → Metrics F → List InstrumentedWorker × Metrics F
  unfolding start_worker
  start_workers now [] m = ([], m)
  start_workers now (v ∷ vs) m =
      let (v', m1) = start_worker now v m in
      let (vs', m2) = start_workers now vs m1 in (v' ∷ vs', m2)

  module _ (w : World) where
    open w use {S, Ctx}

    -- `id` and `now` are what `task.NewTask` takes from outside.
    unfoldable pub generate_single_task :
        Queue w
        → Ctx
        → String
        → Priority
        → Option String
        → String
        → ℕ
        → Metrics F
        → S
        → Metrics F × S
    unfolding new_task with_priority with_max_retries with_timeout record_task_enqueued
    generate_single_task q ctx task_type priority payload id now m s =
        elim (new_task task_type payload id now) [
          | none ↦ (m, s)
          | some t ↦
              let t' =
                with_timeout (with_max_retries (with_priority t priority) (pos 3))
                  (pos (5 * second)) in
              let (result, s') = q.enqueue ctx (some t') s in
              elim result [ err e ↦ (m, s') | ok _ ↦ (record_task_enqueued m, s') ]
        ]

module _ {U : Type 0} where
  -- The events of n tasks, the last argument of `event` counted down.
  unfoldable pub tell : ℕ → (ℕ → TaskEvent) → Feed U → Feed U
  unfolding broadcast_task_event
  tell zero event f = f
  tell (suc n) event f = tell n event (broadcast_task_event (event n) f)

  -- A tick of startWorkerWithEventBroadcast, with the counters that it reads.
  unfoldable pub tick_events :
      (ℕ → TaskEvent) → (ℕ → TaskEvent) → ℤ → ℤ → Seen → Feed U → Seen × Feed U
  unfolding tell
  tick_events success failure processed failed seen f =
      let f1 =
        if ltb_ℤ seen.last_processed processed
        then tell (pos_part (wrap64 (processed -ℤ seen.last_processed))) success f
        else f in
      let f2 =
        if ltb_ℤ seen.last_failed failed
        then tell (pos_part (wrap64 (failed -ℤ seen.last_failed))) failure f1
        else f1 in
      (
        record {
          last_processed =
              if ltb_ℤ seen.last_processed processed then processed else seen.last_processed;
          last_failed = if ltb_ℤ seen.last_failed failed then failed else seen.last_failed;
        },
        f2,
      )
