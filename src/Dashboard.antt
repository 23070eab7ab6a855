-- ===== src/Dashboard.antt =====
-- web/server.go: what the dashboard shows of tasks, workers and metrics. Texts of times and durations,
-- and the arithmetic of float64, come from outside; `now` is the clock's reading.
pub mod TextOrder
pub mod Sorting
pub mod Feed
pub mod Handlers
use spool.Prelude.{
  ℕ, zero, suc, ◌*◌, String, Bool, true, false, Option, none, some, List, [], ◌∷◌, Map, map, ℤ, pos,
  ltb_ℤ, sub_ℕ, quot, if◌then◌else◌, length,
}
use spool.Env.{World}
use spool.Effect.{Result, ok, err}
use spool.Task.{Task, second}
use spool.Queue.{Queue}
use spool.Metrics.{Metrics, WorkerStats, TaskInfo, ThroughputSample}
use spool.Metrics.Tasks.{Floats, sum_from, update_queue_depth}
use spool.Metrics.Report.{
  MetricsSnapshot, snapshot, get_queue_depth_trend, get_throughput_trend, get_all_worker_details,
}

pub record QueueDataPoint : Type 0 where
  pub timestamp : String
  pub depth : ℤ

pub record ThroughputDataPoint (F : Type 0) : Type 0 where
  pub timestamp : String
  pub throughput : F

pub record WorkerSummary : Type 0 where
  pub id : String
  pub state : String
  pub tasks_completed : ℤ

pub record MetricsUpdate (F : Type 0) : Type 0 where
  pub timestamp : String
  pub queue_depth : ℤ
  pub queue_depth_high : ℤ
  pub queue_depth_low : ℤ
  pub queue_trend : List QueueDataPoint
  pub throughput_trend : List (ThroughputDataPoint F)
  pub active_workers : ℤ
  pub idle_workers : ℤ
  pub busy_workers : ℤ
  pub workers : List WorkerSummary
  pub worker_utilization : F
  pub tasks_processed : ℤ
  pub tasks_failed : ℤ
  pub tasks_retried : ℤ
  pub tasks_enqueued : ℤ
  pub tasks_in_progress : ℤ
  pub current_throughput : F
  pub avg_throughput : F
  pub avg_processing_time : String
  pub p95_processing_time : String
  pub p99_processing_time : String
  pub uptime : String
  pub oldest_idle_time : String
  pub dlq_size : ℕ
  pub queue_health : String

-- A text that is left out of the JSON is "" here, as is a payload that is left out.
pub record TaskDetail : Type 0 where
  pub id : String
  pub kind : String
  pub state : String
  pub priority : ℤ
  pub retry_count : ℤ
  pub max_retries : ℤ
  pub created_at : String
  pub started_at : String
  pub completed_at : String
  pub error : String
  pub metadata : Map String
  pub payload : String

pub record CurrentTask : Type 0 where
  pub id : String
  pub kind : String
  pub start_time : String
  pub elapsed_time : String

pub record WorkerDetailResponse : Type 0 where
  pub id : String
  pub state : String
  pub tasks_completed : ℤ
  pub tasks_failed : ℤ
  pub total_idle_time : String
  pub total_busy_time : String
  pub avg_processing_time : String
  pub start_time : String
  pub uptime : String
  pub current_task : Option CurrentTask

-- `Format(time.RFC3339)`, and `Round(time.Second).String()` and `Round(time.Millisecond).String()`.
pub record Texts : Type 0 where
  pub rfc3339 : ℕ → String
  pub in_seconds : ℤ → String
  pub in_milliseconds : ℤ → String

abbrev pub summary : WorkerStats → WorkerSummary
summary v = record { id = v.id; state = v.state; tasks_completed = v.tasks_completed }

abbrev pub average : List ℤ → ℤ
average [] = pos 0
average (t ∷ ts) = quot (sum_from (pos 0) (t ∷ ts)) (length (t ∷ ts))

module _ (f : Texts) where
  abbrev pub time_if : Option ℕ → String
  time_if none = ""
  time_if (some t) = f.rfc3339 t

  -- The detail of a task of the dead letter queue.
  abbrev pub dlq_detail : Task → TaskDetail
  dlq_detail t = record {
    id = t.id;
    kind = t.kind;
    state = t.state;
    priority = t.priority;
    retry_count = t.retry_count;
    max_retries = t.max_retries;
    created_at = f.rfc3339 t.created_at;
    started_at = time_if t.started_at;
    completed_at = time_if t.completed_at;
    error = t.error;
    metadata = [];
    payload = "";
  }

  -- The detail of a task of the list has its metadata too.
  abbrev pub listed_detail : Task → TaskDetail
  listed_detail t = record (dlq_detail t) { metadata = t.metadata }

  -- The detail of a task that is asked for has its payload too.
  abbrev pub full_detail : Task → TaskDetail
  full_detail t = record (dlq_detail t) { metadata = t.metadata; payload = t.payload }

  abbrev pub current : ℕ → Option TaskInfo → Option CurrentTask
  current now none = none
  current now (some t) = some (record {
    id = t.id;
    kind = t.kind;
    start_time = f.rfc3339 t.start_time;
    elapsed_time = f.in_milliseconds (sub_ℕ now t.start_time);
  })

  unfoldable pub worker_detail : ℕ → WorkerStats → Option TaskInfo → WorkerDetailResponse
  worker_detail now v task = record {
    id = v.id;
    state = v.state;
    tasks_completed = v.tasks_completed;
    tasks_failed = v.tasks_failed;
    total_idle_time = f.in_seconds v.total_idle_time;
    total_busy_time = f.in_seconds v.total_busy_time;
    avg_processing_time = f.in_milliseconds (average v.processing_times);
    start_time = f.rfc3339 v.start_time;
    uptime = f.in_seconds (sub_ℕ now v.start_time);
    current_task = current now task;
  }

  module _ (w : World) {F : Type 0} (floats : Floats F) (percent : ℤ → ℤ → F) where
    open w use {S, Ctx, now, background, with_timeout}

    abbrev pub five_minutes : ℤ
    five_minutes = pos (300 * second)

    abbrev pub or_zero : {E : Type 0} → Result E ℕ → ℕ
    or_zero (ok n) = n
    or_zero (err e) = 0

    abbrev pub health_text : {E A : Type 0} → Result E A → String
    health_text (ok a) = "healthy"
    health_text (err e) = "unhealthy"

    -- `percent busy active` is `float64(busy) / float64(active) * 100`.
    unfoldable pub utilization : MetricsSnapshot F → F
    utilization v =
        if ltb_ℤ (pos 0) v.active_workers
        then percent v.busy_workers v.active_workers
        else floats.zero_rate

    -- `measured` is the collector's own queue; an error of its size is only logged. The clock is read
    -- once for the reports of the collector.
    unfoldable pub collect_metrics :
        Queue w → Queue w → Metrics F → S → MetricsUpdate F × Metrics F × S
    unfolding utilization
    collect_metrics measured queue m s =
        let ctx = with_timeout background (pos (5 * second)) s in
        let (_, m', s1) = update_queue_depth w measured ctx m s in
        let v = snapshot floats (now s1) m' in
        let (dlq_size, s2) = queue.get_dlq_size ctx s1 in
        let (health, s3) = queue.health ctx s2 in
        (
          record {
            timestamp = f.rfc3339 (now s3);
            queue_depth = v.queue_depth;
            queue_depth_high = v.queue_depth_high;
            queue_depth_low = v.queue_depth_low;
            queue_trend =
                map (λ (p : ℕ × ℤ). record { timestamp = f.rfc3339 p.0; depth = p.1 })
                  (get_queue_depth_trend (now s1) five_minutes m');
            throughput_trend =
                map
                  (λ (p : ThroughputSample F). record {
                    timestamp = f.rfc3339 p.timestamp;
                    throughput = p.tasks_per_sec;
                  })
                  (get_throughput_trend (now s1) five_minutes m');
            active_workers = v.active_workers;
            idle_workers = v.idle_workers;
            busy_workers = v.busy_workers;
            workers = map summary (get_all_worker_details m');
            worker_utilization = utilization v;
            tasks_processed = v.tasks_processed;
            tasks_failed = v.tasks_failed;
            tasks_retried = v.tasks_retried;
            tasks_enqueued = v.tasks_enqueued;
            tasks_in_progress = v.tasks_in_progress;
            current_throughput = v.current_throughput;
            avg_throughput = v.avg_throughput;
            avg_processing_time = f.in_milliseconds v.avg_processing_time;
            p95_processing_time = f.in_milliseconds v.p95_processing_time;
            p99_processing_time = f.in_milliseconds v.p99_processing_time;
            uptime = f.in_seconds v.uptime;
            oldest_idle_time = f.in_seconds v.oldest_idle_time;
            dlq_size = or_zero dlq_size;
            queue_health = health_text health;
          },
          m',
          s3,
        )
