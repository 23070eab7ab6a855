-- ===== src/Instrumented.antt =====
-- internal/worker/instrumented.go: a worker whose counters are carried over to the metrics every 100
-- milliseconds. The collector is shared, and so passed along; a tick reads the clock once.
pub mod Sync
pub mod Ticks
pub mod Pools
pub mod Leaving
use spool.Prelude.{
  ℕ, zero, suc, ◌*◌, String, Bool, true, false, ◌||◌, List, [], ◌∷◌, ℤ, pos, pos_part, ltb_ℤ, ◌-ℤ◌,
  wrap64, if◌then◌else◌, length,
}
use spool.Worker.{
  Worker, Outcome, returns_nil, returns_error, panics, millisecond, start as start_worker,
  stop as stop_worker,
}
use spool.Metrics.{
  Metrics, register_worker, unregister_worker, mark_worker_idle, record_worker_task_completed,
}
use spool.Metrics.Tasks.{Floats, record_task_completed}

pub record InstrumentedWorker : Type 0 where
  pub worker : Worker
  pub last_processed : ℤ
  pub last_failed : ℤ
  pub sync_closed : Bool

unfoldable pub new_instrumented_worker : Worker → InstrumentedWorker
new_instrumented_worker v = record {
  worker = v;
  last_processed = pos 0;
  last_failed = pos 0;
  sync_closed = false;
}

-- The durations that the sync puts in the place of those it does not know.
abbrev pub completed_duration : ℤ
completed_duration = pos (100 * millisecond)

abbrev pub failed_duration : ℤ
failed_duration = pos (50 * millisecond)

module _ {F : Type 0} (floats : Floats F) where
  unfoldable pub start :
      ℕ → InstrumentedWorker → Metrics F → Outcome × InstrumentedWorker × Metrics F
  unfolding start_worker
  start now v m =
      let m' = register_worker now v.worker.id m in
      let (outcome, worker) = start_worker v.worker in (outcome, record v { worker = worker }, m')

  -- The two loops of the sync.
  unfoldable pub record_completed : ℕ → String → ℕ → Metrics F → Metrics F
  record_completed now id zero m = m
  record_completed now id (suc n) m = record_completed now id n (
      record_worker_task_completed id completed_duration true
        (record_task_completed floats now completed_duration m))

  unfoldable pub record_failed : String → ℕ → Metrics F → Metrics F
  record_failed id zero m = m
  record_failed id (suc n) m =
      record_failed id n (record_worker_task_completed id failed_duration false m)

  -- One tick of `syncStatsLoop`.
  unfoldable pub sync : ℕ → InstrumentedWorker → Metrics F → InstrumentedWorker × Metrics F
  unfolding record_completed record_failed
  sync now v m =
      let id = v.worker.id in
      let new_tasks = wrap64 (v.worker.tasks_processed -ℤ v.last_processed) in
      let new_failures = wrap64 (v.worker.tasks_failed -ℤ v.last_failed) in
      let recorded =
        record_failed id (pos_part new_failures) (record_completed now id (pos_part new_tasks) m) in
      if v.worker.running
      then (if ltb_ℤ (pos 0) new_tasks || ltb_ℤ (pos 0) new_failures
          then (
            record v {
              last_processed = v.worker.tasks_processed;
              last_failed = v.worker.tasks_failed;
            },
            mark_worker_idle now id recorded,
          )
          else (v, m))
      else (v, m)

  -- A second `close` of the channel panics; the worker is
  -- unregistered whatever its own Stop returns.
  unfoldable pub stop : InstrumentedWorker → Metrics F → Outcome × InstrumentedWorker × Metrics F
  unfolding stop_worker
  stop v m =
      let (outcome, worker) = stop_worker v.worker in
      let v' = record v { sync_closed = true; worker = worker } in
      let m' = unregister_worker v.worker.id m in
      if v.sync_closed then (panics, v, m) else elim outcome [
        | panics ↦ (panics, v', m)
        | returns_nil ↦ (returns_nil, v', m')
        | returns_error ↦ (returns_error, v', m')
      ]

  -- The pool's loops end at the first worker whose call does not return nil.
  unfoldable pub start_all :
      ℕ → List InstrumentedWorker → Metrics F → Outcome × List InstrumentedWorker × Metrics F
  unfolding start
  start_all now [] m = (returns_nil, [], m)
  start_all now (v ∷ vs) m =
      let (outcome, v', m') = start now v m in
      let (rest, vs', m'') = start_all now vs m' in
      elim outcome [
        | returns_nil ↦ (rest, v' ∷ vs', m'')
        | returns_error ↦ (returns_error, v' ∷ vs, m')
        | panics ↦ (panics, v' ∷ vs, m')
      ]

  unfoldable pub stop_all :
      List InstrumentedWorker → Metrics F → Outcome × List InstrumentedWorker × Metrics F
  unfolding stop
  stop_all [] m = (returns_nil, [], m)
  stop_all (v ∷ vs) m =
      let (outcome, v', m') = stop v m in
      let (rest, vs', m'') = stop_all vs m' in
      elim outcome [
        | returns_nil ↦ (rest, v' ∷ vs', m'')
        | returns_error ↦ (returns_error, v' ∷ vs, m')
        | panics ↦ (panics, v' ∷ vs, m')
      ]
