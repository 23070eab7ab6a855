-- ===== src/Metrics/Tasks.antt =====
-- internal/monitoring/metrics.go: the queue's depth, the counts of tasks, the throughput and the
-- processing times.
use spool.Prelude.{
  ℕ, ◌*◌, Bool, true, false, ◌||◌, Option, none, some, List, [], ◌∷◌, ◌++◌, ℤ, pos, ltb_ℤ, ◌==ℤ◌,
  ◌+ℤ◌, ◌-ℤ◌, wrap64, sub_ℕ, quot, scale, if◌then◌else◌, length,
}
use spool.Env.{World}
use spool.Effect.{ok, err}
use spool.Task.{second}
use spool.Queue.{Queue}
use spool.Metrics.{Metrics, ThroughputSample, add32, minus_one, at_most}

-- The arithmetic on float64 that the code uses: `float64(n) / d.Seconds()`,
-- `int64(x * d.Seconds())`, and that of an average.
pub record Floats (F : Type 0) : Type 0 where
  pub zero_rate : F
  pub per_second : ℤ → ℤ → F
  pub tasks_in : F → ℤ → ℤ
  -- the sum of two rates, and a rate divided by a count
  pub plus : F → F → F
  pub over : F → ℕ → F

-- The loop that adds the processing times up.
abbrev pub sum_from : ℤ → List ℤ → ℤ
sum_from sum [] = sum
sum_from sum (t ∷ ts) = sum_from (wrap64 (sum +ℤ t)) ts

module _ {F : Type 0} where
  -- The lock's part of UpdateQueueDepth, once the queue has given its size.
  unfoldable pub note_depth : ℕ → ℤ → Metrics F → Metrics F
  note_depth now size m = record m {
    queue_depth = size;
    last_queue_check = now;
    queue_depth_high = if ltb_ℤ m.queue_depth_high size then size else m.queue_depth_high;
    queue_depth_low =
        if (m.queue_depth_low ==ℤ pos 0) || ltb_ℤ size m.queue_depth_low
        then size
        else m.queue_depth_low;
    queue_depth_series = at_most 100 (m.queue_depth_series ++ ((now, size) ∷ []));
  }

  unfoldable pub update_queue_depth :
      (w : World) → Queue w → w.Ctx → Metrics F → w.S → Bool × Metrics F × w.S
  unfolding note_depth
  update_queue_depth w q ctx m s =
      let (size, s') = q.size ctx s in
      elim size [ ok n ↦ (true, note_depth (w.now s') (pos n) m, s') | err e ↦ (false, m, s') ]

  unfoldable pub record_task_enqueued : Metrics F → Metrics F
  record_task_enqueued m = record m { tasks_enqueued = wrap64 (m.tasks_enqueued +ℤ pos 1) }

  unfoldable pub record_task_started : Metrics F → Metrics F
  record_task_started m = record m { tasks_in_progress = add32 m.tasks_in_progress (pos 1) }

  unfoldable pub record_task_failed : Metrics F → Metrics F
  record_task_failed m = record m {
    tasks_failed = wrap64 (m.tasks_failed +ℤ pos 1);
    tasks_in_progress = add32 m.tasks_in_progress minus_one;
  }

  unfoldable pub record_task_retried : Metrics F → Metrics F
  record_task_retried m = record m { tasks_retried = wrap64 (m.tasks_retried +ℤ pos 1) }

  -- `samples[len(samples)-1]`
  abbrev pub last_sample : List (ThroughputSample F) → Option (ThroughputSample F)
  last_sample [] = none
  last_sample (x ∷ xs) = elim (last_sample xs) [ none ↦ some x | some y ↦ some y ]

  unfoldable pub get_last_total_tasks : Floats F → Metrics F → ℤ
  get_last_total_tasks floats m = elim (last_sample m.throughput_samples) [
    | none ↦ pos 0
    | some l ↦ wrap64 (m.tasks_processed -ℤ floats.tasks_in l.tasks_per_sec l.window_size)
  ]

  -- "Sample every 5 seconds."
  unfoldable pub update_throughput : Floats F → ℕ → Metrics F → Metrics F
  unfolding get_last_total_tasks
  update_throughput floats now m =
      let elapsed = sub_ℕ now m.last_sample_time in
      let tasks_in_window = wrap64 (m.tasks_processed -ℤ get_last_total_tasks floats m) in
      if ltb_ℤ elapsed (pos (5 * second)) then m else record m {
        throughput_samples = at_most 100 (
            m.throughput_samples
            ++ (record {
              timestamp = now;
              tasks_per_sec = floats.per_second tasks_in_window elapsed;
              window_size = elapsed;
            }
                ∷ []));
        last_sample_time = now;
      }

  unfoldable pub record_task_completed : Floats F → ℕ → ℤ → Metrics F → Metrics F
  unfolding update_throughput
  record_task_completed floats now duration m = update_throughput floats now (record m {
    tasks_processed = wrap64 (m.tasks_processed +ℤ pos 1);
    tasks_in_progress = add32 m.tasks_in_progress minus_one;
    processing_times = at_most 1000 (m.processing_times ++ (duration ∷ []));
  })

  unfoldable pub get_throughput : Floats F → Metrics F → F
  get_throughput floats m = elim (last_sample m.throughput_samples) [
    | none ↦ floats.zero_rate
    | some l ↦ l.tasks_per_sec
  ]

  -- The average, and the two multiples of it that stand for percentiles.
  unfoldable pub calculate_percentiles : Metrics F → ℤ × ℤ × ℤ
  calculate_percentiles m =
      let avg = quot (sum_from (pos 0) m.processing_times) (length m.processing_times) in
      elim m.processing_times [
        | [] ↦ (pos 0, pos 0, pos 0)
        | t ∷ ts ↦ (avg, wrap64 (scale 2 avg), wrap64 (scale 3 avg))
      ]
