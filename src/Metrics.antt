-- ===== src/Metrics.antt =====
-- internal/monitoring/metrics.go: what the scaler knows of the queue and the workers. `now` is the
-- clock's reading in the call; F is the type of float64.
pub mod Tasks
pub mod Report
pub mod Tracking
pub mod Sequences
pub mod Throughput
use spool.Prelude.{
  ℕ, suc, ◌+◌, String, Bool, true, false, ◌||◌, Option, none, some, List, [], ◌∷◌, ◌++◌, ℤ, pos,
  ltb, ltb_ℤ, ◌==ℤ◌, ◌+ℤ◌, ◌-ℤ◌, wrap32, wrap64, sub_ℕ, if◌then◌else◌, length, drop, Map, lookup,
  insert, erase, has,
}
use spool.Env.{since}

pub record WorkerStats : Type 0 where
  pub id : String
  pub state : String
  pub tasks_completed : ℤ
  pub tasks_failed : ℤ
  pub total_idle_time : ℤ
  pub total_busy_time : ℤ
  pub last_idle_start : ℕ
  pub last_busy_start : Option ℕ
  pub processing_times : List ℤ
  pub start_time : ℕ

pub record TaskInfo : Type 0 where
  pub id : String
  pub kind : String
  pub start_time : ℕ

pub record ThroughputSample (F : Type 0) : Type 0 where
  pub timestamp : ℕ
  pub tasks_per_sec : F
  pub window_size : ℤ

-- A depth snapshot is a time and a depth.
pub record Metrics (F : Type 0) : Type 0 where
  pub queue_depth : ℤ
  pub queue_depth_high : ℤ
  pub queue_depth_low : ℤ
  pub last_queue_check : ℕ
  pub queue_depth_series : List (ℕ × ℤ)
  pub active_workers : ℤ
  pub idle_workers : ℤ
  pub busy_workers : ℤ
  pub worker_last_idle : Map ℕ
  pub worker_start_time : Map ℕ
  pub worker_stats : Map WorkerStats
  pub worker_current_task : Map TaskInfo
  pub tasks_processed : ℤ
  pub tasks_failed : ℤ
  pub tasks_retried : ℤ
  pub tasks_enqueued : ℤ
  pub tasks_in_progress : ℤ
  pub throughput_samples : List (ThroughputSample F)
  pub last_sample_time : ℕ
  pub processing_times : List ℤ
  pub start_time : ℕ

-- What RegisterWorker puts into the map.
abbrev pub fresh_stats : ℕ → String → WorkerStats
fresh_stats now id = record {
  id = id;
  state = "idle";
  tasks_completed = pos 0;
  tasks_failed = pos 0;
  total_idle_time = pos 0;
  total_busy_time = pos 0;
  last_idle_start = now;
  last_busy_start = none;
  processing_times = [];
  start_time = now;
}

-- `atomic.AddInt32`
abbrev pub add32 : ℤ → ℤ → ℤ
add32 a b = wrap32 (a +ℤ b)

abbrev pub minus_one : ℤ
minus_one = pos 0 -ℤ pos 1

-- "Keep only last n samples."
abbrev pub at_most : {A : Type 0} → ℕ → List A → List A
at_most n xs = if ltb n (length xs) then drop 1 xs else xs

-- The start of the longest idle worker, and how long it has been idle.
abbrev pub earliest : Map ℕ → Option ℕ
earliest [] = none
earliest (entry ∷ rest) = elim (earliest rest) [
  | none ↦ some entry.1
  | some t ↦ if ltb t entry.1 then some t else some entry.1
]

module _ {F : Type 0} where
  unfoldable pub new_metrics : ℕ → Metrics F
  new_metrics now = record {
    queue_depth = pos 0;
    queue_depth_high = pos 0;
    queue_depth_low = pos 0;
    last_queue_check = now;
    queue_depth_series = [];
    active_workers = pos 0;
    idle_workers = pos 0;
    busy_workers = pos 0;
    worker_last_idle = [];
    worker_start_time = [];
    worker_stats = [];
    worker_current_task = [];
    tasks_processed = pos 0;
    tasks_failed = pos 0;
    tasks_retried = pos 0;
    tasks_enqueued = pos 0;
    tasks_in_progress = pos 0;
    throughput_samples = [];
    last_sample_time = now;
    processing_times = [];
    start_time = now;
  }

  unfoldable pub register_worker : ℕ → String → Metrics F → Metrics F
  register_worker now id m = record m {
    active_workers = add32 m.active_workers (pos 1);
    idle_workers = add32 m.idle_workers (pos 1);
    worker_stats = insert id (fresh_stats now id) m.worker_stats;
    worker_last_idle = insert id now m.worker_last_idle;
    worker_start_time = insert id now m.worker_start_time;
  }

  unfoldable pub unregister_worker : String → Metrics F → Metrics F
  unregister_worker id m =
      let was_idle = has id m.worker_last_idle in
      record m {
        idle_workers = if was_idle then add32 m.idle_workers minus_one else m.idle_workers;
        busy_workers = if was_idle then m.busy_workers else add32 m.busy_workers minus_one;
        active_workers = add32 m.active_workers minus_one;
        worker_last_idle = erase id m.worker_last_idle;
        worker_start_time = erase id m.worker_start_time;
        worker_stats = erase id m.worker_stats;
        worker_current_task = erase id m.worker_current_task;
      }

  -- `if stats, exists := m.workerStats[id]; exists { ... }`: the map holds pointers.
  abbrev pub update_stats : String → (WorkerStats → WorkerStats) → Metrics F → Map WorkerStats
  update_stats id f m = elim (lookup id m.worker_stats) [
    | none ↦ m.worker_stats
    | some v ↦ insert id (f v) m.worker_stats
  ]

  unfoldable pub mark_worker_busy : ℕ → String → Metrics F → Metrics F
  unfolding since
  mark_worker_busy now id m =
      if has id m.worker_last_idle
      then record m {
        worker_stats =
            update_stats id
              (λ v. record v {
                total_idle_time = wrap64 (v.total_idle_time +ℤ sub_ℕ now v.last_idle_start);
                state = "busy";
                last_busy_start = some now;
              })
              m;
        worker_last_idle = erase id m.worker_last_idle;
        idle_workers = add32 m.idle_workers minus_one;
        busy_workers = add32 m.busy_workers (pos 1);
      }
      else m

  unfoldable pub mark_worker_busy_with_task : ℕ → String → String → String → Metrics F → Metrics F
  unfolding mark_worker_busy
  mark_worker_busy_with_task now id task_id kind m =
      let m' = mark_worker_busy now id m in
      record m' {
        worker_current_task =
            insert id (record { id = task_id; kind = kind; start_time = now })
              m'.worker_current_task;
      }

  unfoldable pub mark_worker_idle : ℕ → String → Metrics F → Metrics F
  unfolding since
  mark_worker_idle now id m = if has id m.worker_last_idle then m else record m {
    worker_last_idle = insert id now m.worker_last_idle;
    worker_stats =
        update_stats id
          (λ v. record v {
            total_busy_time = wrap64 (v.total_busy_time +ℤ since now v.last_busy_start);
            state = "idle";
            last_idle_start = now;
          })
          m;
    worker_current_task = erase id m.worker_current_task;
    busy_workers = add32 m.busy_workers minus_one;
    idle_workers = add32 m.idle_workers (pos 1);
  }

  unfoldable pub record_worker_task_completed : String → ℤ → Bool → Metrics F → Metrics F
  record_worker_task_completed id duration success m = record m {
    worker_stats =
        update_stats id
          (λ v. record v {
            tasks_completed =
                if success then wrap64 (v.tasks_completed +ℤ pos 1) else v.tasks_completed;
            tasks_failed = if success then v.tasks_failed else wrap64 (v.tasks_failed +ℤ pos 1);
            processing_times = at_most 100 (v.processing_times ++ (duration ∷ []));
          })
          m;
  }

  unfoldable pub get_oldest_idle_time : ℕ → Metrics F → ℤ
  get_oldest_idle_time now m = elim (earliest m.worker_last_idle) [
    | none ↦ pos 0
    | some t ↦ sub_ℕ now t
  ]

  unfoldable pub get_worker_details : String → Metrics F → Option (WorkerStats × Option TaskInfo)
  get_worker_details id m = elim (lookup id m.worker_stats) [
    | none ↦ none
    | some v ↦ some (v, lookup id m.worker_current_task)
  ]
