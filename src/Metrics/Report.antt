-- ===== src/Metrics/Report.antt =====
-- internal/monitoring/metrics.go: what the collector reports, and its reset.
use spool.Prelude.{
  ℕ, String, Bool, ◌||◌, List, [], ◌∷◌, ℤ, pos, ◌==ℤ◌, ◌-ℤ◌, ltb_ℤ, sub_ℕ, if◌then◌else◌, length,
  keep, map, ◌≡◌, refl,
}
use spool.Scaler.{Snapshot}
use spool.Metrics.{Metrics, ThroughputSample, WorkerStats, new_metrics, get_oldest_idle_time}
use spool.Metrics.Tasks.{Floats, get_throughput, calculate_percentiles}

pub record MetricsSnapshot (F : Type 0) : Type 0 where
  pub queue_depth : ℤ
  pub queue_depth_high : ℤ
  pub queue_depth_low : ℤ
  pub active_workers : ℤ
  pub idle_workers : ℤ
  pub busy_workers : ℤ
  pub oldest_idle_time : ℤ
  pub newest_worker_age : ℤ
  pub tasks_processed : ℤ
  pub tasks_failed : ℤ
  pub tasks_retried : ℤ
  pub tasks_enqueued : ℤ
  pub tasks_in_progress : ℤ
  pub current_throughput : F
  pub avg_throughput : F
  pub avg_processing_time : ℤ
  pub p95_processing_time : ℤ
  pub p99_processing_time : ℤ
  pub uptime : ℤ
  pub last_updated : ℕ

-- The age of the worker that started last; 0 stands for no age yet, as in the loop.
abbrev pub youngest : ℕ → ℤ → List (String × ℕ) → ℤ
youngest now newest [] = newest
youngest now newest (entry ∷ rest) =
    let age = sub_ℕ now entry.1 in
    youngest now (if newest ==ℤ pos 0 || ltb_ℤ age newest then age else newest) rest

-- A measurement is kept if it was made after `now - duration`.
abbrev pub is_recent : ℕ → ℤ → ℕ → Bool
is_recent now duration t = ltb_ℤ (pos now -ℤ duration) (pos t)

module _ {F : Type 0} where
  unfoldable pub get_queue_depth : Metrics F → ℤ
  get_queue_depth m = m.queue_depth

  unfoldable pub get_worker_counts : Metrics F → ℤ × ℤ × ℤ
  get_worker_counts m = (m.active_workers, m.idle_workers, m.busy_workers)

  unfoldable pub get_queue_depth_trend : ℕ → ℤ → Metrics F → List (ℕ × ℤ)
  get_queue_depth_trend now duration m =
      keep (λ (p : ℕ × ℤ). is_recent now duration p.0) m.queue_depth_series

  unfoldable pub get_throughput_trend : ℕ → ℤ → Metrics F → List (ThroughputSample F)
  get_throughput_trend now duration m =
      keep (λ (p : ThroughputSample F). is_recent now duration p.timestamp) m.throughput_samples

  unfoldable pub get_all_worker_details : Metrics F → List WorkerStats
  get_all_worker_details m = map (λ (p : String × WorkerStats). p.1) m.worker_stats

  abbrev pub sum_rates : Floats F → F → List (ThroughputSample F) → F
  sum_rates floats sum [] = sum
  sum_rates floats sum (x ∷ xs) = sum_rates floats (floats.plus sum x.tasks_per_sec) xs

  unfoldable pub get_avg_throughput : Floats F → Metrics F → F
  get_avg_throughput floats m =
      let sum = sum_rates floats floats.zero_rate m.throughput_samples in
      elim m.throughput_samples [
        | [] ↦ floats.zero_rate
        | x ∷ xs ↦ floats.over sum (length m.throughput_samples)
      ]

  unfoldable pub snapshot : Floats F → ℕ → Metrics F → MetricsSnapshot F
  unfolding get_queue_depth get_worker_counts get_avg_throughput
  snapshot floats now m =
      let (active, idle, busy) = get_worker_counts m in
      let (avg, p95, p99) = calculate_percentiles m in
      record {
        queue_depth = get_queue_depth m;
        queue_depth_high = m.queue_depth_high;
        queue_depth_low = m.queue_depth_low;
        active_workers = active;
        idle_workers = idle;
        busy_workers = busy;
        oldest_idle_time = get_oldest_idle_time now m;
        newest_worker_age = youngest now (pos 0) m.worker_start_time;
        tasks_processed = m.tasks_processed;
        tasks_failed = m.tasks_failed;
        tasks_retried = m.tasks_retried;
        tasks_enqueued = m.tasks_enqueued;
        tasks_in_progress = m.tasks_in_progress;
        current_throughput = get_throughput floats m;
        avg_throughput = get_avg_throughput floats m;
        avg_processing_time = avg;
        p95_processing_time = p95;
        p99_processing_time = p99;
        uptime = sub_ℕ now m.start_time;
        last_updated = now;
      }

  -- What the scaler reads of a snapshot.
  abbrev pub for_scaler : MetricsSnapshot F → Snapshot F
  for_scaler v = record {
    queue_depth = v.queue_depth;
    idle_workers = v.idle_workers;
    oldest_idle_time = v.oldest_idle_time;
    current_throughput = v.current_throughput;
  }

  -- "Clears all metrics": each field is set to what a new collector has.
  unfoldable pub reset : ℕ → Metrics F → Metrics F
  reset now m = record m {
    queue_depth = pos 0;
    queue_depth_high = pos 0;
    queue_depth_low = pos 0;
    active_workers = pos 0;
    idle_workers = pos 0;
    busy_workers = pos 0;
    tasks_processed = pos 0;
    tasks_failed = pos 0;
    tasks_retried = pos 0;
    tasks_enqueued = pos 0;
    tasks_in_progress = pos 0;
    worker_last_idle = [];
    worker_start_time = [];
    worker_stats = [];
    worker_current_task = [];
    queue_depth_series = [];
    throughput_samples = [];
    processing_times = [];
    start_time = now;
    last_queue_check = now;
    last_sample_time = now;
  }

  -- Reset leaves nothing of what was measured: it is a new collector.
  pub reset-new_metrics : (now : ℕ) (m : Metrics F) → reset now m ≡ new_metrics now
  unfolding reset new_metrics
  reset-new_metrics now m = refl
