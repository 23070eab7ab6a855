-- ===== src/Examples/Monitoring.antt =====
-- The theorems on metrics and on the history of decisions at concrete inputs.
use spool.Prelude.{
  quot, ℕ, ◌≡◌, refl, true, some, [], ◌∷◌, ℤ, pos, arith, ◌+ℤ◌, length, insert, erase, lookup,
}
use spool.Scaler.{AutoScaler, ScalingDecision, no_action, no_reason, new_auto_scaler}
use spool.Metrics.{
  Metrics, new_metrics, register_worker, mark_worker_busy, mark_worker_idle, unregister_worker,
}
use spool.Metrics.Tasks.{Floats, update_throughput, get_throughput}
use spool.Metrics.Throughput.{throughput_echo}
use spool.Metrics.Tracking.{IsTracked, new_metrics-IsTracked}
use spool.Metrics.Sequences.{
  Reach, here, next, registers, gets_busy, unregisters, tracked, mark_worker_idle-unknown,
}

abbrev pub start_metrics : Metrics ℕ
unfolding new_metrics
start_metrics = new_metrics 5

-- Two workers come, one gets a task and ends it, the other one goes.
abbrev later_metrics : Metrics ℕ
later_metrics =
    unregister_worker "b"
      (mark_worker_busy 8 "a" (register_worker 7 "b" (register_worker 6 "a" start_metrics)))

later_reached : Reach start_metrics later_metrics
unfolding new_metrics register_worker mark_worker_busy insert erase lookup
later_reached =
    next
      (next
        (next (next here (registers 6 "a" refl (omega arith))) (registers 7 "b" refl (omega arith)))
        (gets_busy 8 "a"))
      (unregisters "b" refl)

tracked_example :
    (later_metrics.active_workers ≡ later_metrics.idle_workers +ℤ later_metrics.busy_workers)
    × (later_metrics.active_workers ≡ pos (length later_metrics.worker_stats))
    × (later_metrics.idle_workers ≡ pos (length later_metrics.worker_last_idle))
unfolding new_metrics start_metrics
tracked_example = tracked 5 later_metrics later_reached

mark_worker_idle-unknown_example :
    let m' = mark_worker_idle 9 "ghost" start_metrics in
    (m'.active_workers ≡ start_metrics.active_workers)
    × (m'.idle_workers ≡ start_metrics.idle_workers +ℤ pos 1)
    × (lookup "ghost" m'.worker_last_idle ≡ some 9)
    × ¬ IsTracked m'
unfolding new_metrics lookup
mark_worker_idle-unknown_example =
    mark_worker_idle-unknown 9 "ghost" start_metrics (new_metrics-IsTracked 5) refl

-- Rates in tasks for each nanosecond, rounded, would be 0: here they are the tasks of the window.
abbrev pub integers : Floats ℤ
integers = record {
  zero_rate = pos 0;
  per_second = λ n d. n;
  tasks_in = λ x d. x;
  plus = λ x y. x +ℤ y;
  over = λ x n. quot x n;
}

abbrev sampled : Metrics ℤ
unfolding new_metrics
sampled = record (new_metrics 5) {
  throughput_samples =
      record { timestamp = 5; tasks_per_sec = pos 3; window_size = pos 5000000000 } ∷ [];
}

throughput_echo_example :
    get_throughput integers
      (update_throughput integers 6000000000 (record sampled { tasks_processed = pos 900 }))
    ≡ pos 3
unfolding sampled
throughput_echo_example =
    throughput_echo integers sampled
      (record { timestamp = 5; tasks_per_sec = pos 3; window_size = pos 5000000000 }) 6000000000
      (pos 900) refl (omega arith) (omega arith) (omega arith)

abbrev waiting : ScalingDecision ℕ
waiting = record {
  action = no_action;
  current_count = pos 2;
  desired_count = pos 2;
  reason = no_reason;
  queue_depth = pos 0;
  idle_time = pos 0;
  throughput = 0;
  decision_time = 7;
}

abbrev busier : ScalingDecision ℕ
busier = record waiting { decision_time = 8 }

abbrev new_scaler : AutoScaler ℕ
unfolding new_auto_scaler
new_scaler = new_auto_scaler (record {
  enabled = true;
  min_workers = pos 2;
  max_workers = pos 10;
  scale_up_threshold = pos 100;
  scale_down_idle_time = pos 300000000000;
  check_interval = pos 30000000000;
})
