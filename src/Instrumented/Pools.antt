-- ===== src/Instrumented/Pools.antt =====
-- The pool of internal/worker/instrumented.go, the loop of the sync, and the methods that read an
-- instrumented worker.
use spool.Prelude.{ℕ, String, Bool, true, List, [], ◌∷◌, ℤ, length, if◌then◌else◌}
use spool.Worker.{Worker, Outcome, returns_nil, returns_error, panics}
use spool.Worker.Running.{id, is_running, stats as worker_stats, shutdown as shutdown_worker}
use spool.Metrics.{Metrics, unregister_worker}
use spool.Metrics.Tasks.{Floats}
use spool.Instrumented.{InstrumentedWorker, new_instrumented_worker, sync}

unfoldable pub get_id : InstrumentedWorker → String
unfolding id
get_id v = id v.worker

unfoldable pub get_worker : InstrumentedWorker → Worker
get_worker v = v.worker

unfoldable pub stats : InstrumentedWorker → ℤ × ℤ × ℤ
unfolding worker_stats
stats v = worker_stats v.worker

unfoldable pub is_worker_running : InstrumentedWorker → Bool
unfolding is_running
is_worker_running v = is_running v.worker

-- A monitored worker is an instrumented one.
unfoldable pub new_monitored_worker : Worker → InstrumentedWorker
unfolding new_instrumented_worker
new_monitored_worker v = new_instrumented_worker v

-- The cases of the `select` of the sync: a tick comes with the clock's reading and the worker as it
-- is then.
pub data SyncCase : Type 0 where
  sync_ctx_done sync_stopped : SyncCase
  sync_ticked : ℕ → Worker → SyncCase

module _ {F : Type 0} (floats : Floats F) where
  unfoldable pub sync_stats_loop :
      List SyncCase → InstrumentedWorker → Metrics F → InstrumentedWorker × Metrics F
  unfolding sync
  sync_stats_loop [] v m = (v, m)
  sync_stats_loop (sync_ctx_done ∷ cases) v m = (v, m)
  sync_stats_loop (sync_stopped ∷ cases) v m = (v, m)
  sync_stats_loop (sync_ticked now worker ∷ cases) v m =
      let (v', m') = sync floats now (record v { worker = worker }) m in sync_stats_loop cases v' m'

  pub record InstrumentedPool : Type 0 where
    pub workers : List InstrumentedWorker
    pub metrics : Metrics F

  unfoldable pub new_instrumented_pool : List InstrumentedWorker → Metrics F → InstrumentedPool
  new_instrumented_pool workers metrics = record { workers = workers; metrics = metrics }

  unfoldable pub size : InstrumentedPool → ℕ
  size p = length p.workers

  unfoldable pub get_metrics : InstrumentedPool → Metrics F
  get_metrics p = p.metrics

  -- Shutdown of a worker whose loop ends before the context is done, or not.
  unfoldable pub shutdown :
      Bool → InstrumentedWorker → Metrics F → Outcome × InstrumentedWorker × Metrics F
  unfolding shutdown_worker
  shutdown ended v m =
      let (outcome, worker) = shutdown_worker ended v.worker in
      let v' = record v { sync_closed = true; worker = worker } in
      let m' = unregister_worker v.worker.id m in
      if v.sync_closed then (panics, v, m) else elim outcome [
        | panics ↦ (panics, v', m)
        | returns_nil ↦ (returns_nil, v', m')
        | returns_error ↦ (returns_error, v', m')
      ]

  -- `ended` tells of each worker's loop, by its id, whether it ends before the context is done.
  unfoldable pub shutdown_all :
      (String → Bool)
      → List InstrumentedWorker
      → Metrics F
      → Outcome × List InstrumentedWorker × Metrics F
  unfolding shutdown
  shutdown_all ended [] m = (returns_nil, [], m)
  shutdown_all ended (v ∷ vs) m =
      let (outcome, v', m') = shutdown (ended v.worker.id) v m in
      let (rest, vs', m'') = shutdown_all ended vs m' in
      elim outcome [
        | returns_nil ↦ (rest, v' ∷ vs', m'')
        | returns_error ↦ (returns_error, v' ∷ vs, m')
        | panics ↦ (panics, v' ∷ vs, m')
      ]
