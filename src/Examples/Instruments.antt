-- ===== src/Examples/Instruments.antt =====
-- The theorems on instrumented workers at concrete inputs.
use spool.Prelude.{
  ◌≡◌, ◌+◌, ◌-◌, refl, true, false, some, [], ◌∷◌, ℤ, pos, arith, sub_ℕ, lookup, length, String,
  str_eq, eq_iff, ◌≢◌, ◌*◌,
}
use spool.Metrics.{Metrics, new_metrics}
use spool.Instrumented.{InstrumentedWorker, sync}
use spool.Instrumented.Sync.{counts}
use spool.Instrumented.Ticks.{Ahead, sync-counts, sync-totals}
use spool.Instrumented.Pools.{shutdown_all}
use spool.Instrumented.Leaving.{IsUnknown, IsShut, shutdown_all-IsUnknown}
use spool.Queue.RedisQueue.Lines.{All}
use spool.Demos.LiveDashboard.{start_workers}
use spool.Demos.LiveDashboard.Doubled.{start_workers_lem}
use spool.Examples.Monitoring.{integers}

-- It has processed three tasks and failed at two, and the last tick has seen one processed.
abbrev ahead : InstrumentedWorker
ahead = record {
  worker = record {
    id = "a";
    poll_freq = pos 100;
    shutdown_closed = false;
    running = true;
    tasks_processed = pos 3;
    tasks_failed = pos 2;
    tasks_retried = pos 0;
  };
  last_processed = pos 1;
  last_failed = pos 0;
  sync_closed = false;
}

ahead-Ahead : Ahead ahead 3 1 2 0
ahead-Ahead = record {
  running = refl;
  processed_is = refl;
  failed_is = refl;
  seen_is = refl;
  seen_failed_is = refl;
  seen_le = omega arith;
  seen_failed_le = omega arith;
  fits = omega arith;
  failed_fits = omega arith;
}

abbrev known : Metrics ℤ
unfolding new_metrics
known = record (new_metrics 5) {
  worker_stats =
      (
        "a",
        record {
          id = "a";
          state = "busy";
          tasks_completed = pos 1;
          tasks_failed = pos 0;
          total_idle_time = pos 0;
          total_busy_time = pos 0;
          last_idle_start = 5;
          last_busy_start = some 6;
          processing_times = [];
          start_time = 5;
        },
      )
      ∷ [];
}

sync-counts_example :
    let (v', m') = sync integers 9 ahead known in
    (counts "a" m' ≡ some (pos 3, pos 2))
    × (v'.last_processed ≡ pos 3)
    × (v'.last_failed ≡ pos 2)
    × (v'.worker ≡ ahead.worker)
unfolding known lookup
sync-counts_example = sync-counts integers 9 ahead known 3 1 2 0 ahead-Ahead refl

sync-totals_example :
    let m' = (sync integers 9 ahead known).1 in
    (m'.tasks_in_progress ≡ sub_ℕ 0 (0 + (3 - 1))) × (m'.tasks_failed ≡ known.tasks_failed)
unfolding known new_metrics
sync-totals_example = sync-totals integers 9 ahead known 3 1 2 0 0 ahead-Ahead refl (omega arith)

-- Another worker of the same pool, which is idle.
abbrev behind : InstrumentedWorker
behind = record ahead { worker = record ahead.worker { id = "b"; tasks_processed = pos 0 } }

shutdown_all-IsUnknown_example :
    All
      (λ v.
        IsUnknown (shutdown_all integers (λ id. true) (ahead ∷ behind ∷ []) known).2 v.worker.id)
      (ahead ∷ behind ∷ [])
    × All (IsShut integers) (shutdown_all integers (λ id. true) (ahead ∷ behind ∷ []) known).1
unfolding shutdown_all new_metrics
shutdown_all-IsUnknown_example =
    shutdown_all-IsUnknown integers (λ id. true) (ahead ∷ behind ∷ []) known refl

apart : (a b : String) → str_eq a b ≡ false → a ≢ b
apart a b h e = cc (h, (eq_iff a b).1 e)

abbrev new_collector : Metrics ℤ
new_collector = new_metrics 5

-- The demonstration starts both workers with a new collector.
start_workers_lem_example :
    ((start_workers integers 5 (ahead ∷ behind ∷ []) new_collector).1.active_workers
      ≡ pos (0 + 2 * length (ahead ∷ behind ∷ [])))
    × (length (start_workers integers 5 (ahead ∷ behind ∷ []) new_collector).1.worker_stats
        ≡ length new_collector.worker_stats + length (ahead ∷ behind ∷ []))
unfolding new_metrics lookup
start_workers_lem_example =
    start_workers_lem integers 5 (ahead ∷ behind ∷ []) new_collector 0 refl (omega arith)
      ((apart "b" "a" refl, tt), (tt, tt)) (refl, (refl, tt))
