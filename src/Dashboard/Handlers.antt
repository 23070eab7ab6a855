-- ===== src/Dashboard/Handlers.antt =====
-- The handlers of web/server.go, which read no body. Log lines are left out; the state is the collector's and the world's.
pub mod Listing
use spool.Prelude.{
  ℕ, String, Bool, true, false, Option, none, some, List, [], ◌∷◌, ◌++◌, map, ℤ, pos, length,
  if◌then◌else◌, str_eq,
}
use text.Mathlib.Text.{starts_with}
use spool.Env.{World}
use spool.Effect.{Result, ok, err}
use spool.Task.{Task, State, state_completed, state_failed, state_processing}
use spool.Queue.{Queue}
use spool.Queue
use spool.Storage.{Storage}
use spool.Storage
use spool.Metrics.{Metrics, get_worker_details}
use spool.Metrics.Tasks.{Floats}
use spool.Metrics.Report.{get_all_worker_details}
use spool.Http.{
  Request, Response, set_header, write_header, http_error, encode, write, panic, plain, path_from,
  application_json, with_cors,
}
use spool.Dashboard.{
  Texts, MetricsUpdate, TaskDetail, WorkerSummary, WorkerDetailResponse, dlq_detail, listed_detail,
  full_detail, summary, worker_detail, collect_metrics,
}
use spool.Dashboard.Sorting.{sort}
use spool.Dashboard.TextOrder.{text_lt}

-- The bodies of the replies.
pub data Page (F : Type 0) : Type 0 where
  metrics_page : MetricsUpdate F → Page F
  tasks_page : List TaskDetail → ℕ → Page F
  task_page : TaskDetail → Page F
  workers_page : List WorkerSummary → ℕ → Page F
  worker_page : WorkerDetailResponse → Page F
  healthy : String → Page F
  unhealthy : String → Queue.Error → Page F

-- What the server is given, with the queue of its collector; `index_html` is what the template gives,
-- none where it cannot be parsed.
pub record Server (w : World) : Type 1 where
  pub queue : Queue w
  pub measured : Queue w
  pub storage : Option (Storage w)
  pub index_html : Option String

-- The details are compared by the text of the time of creation.
abbrev pub older : TaskDetail → TaskDetail → Bool
older a b = text_lt a.created_at b.created_at

module _ (w : World) where
  open w use {S, Ctx}

  -- The tasks of a state, and none where they cannot be read.
  unfoldable pub tasks_of : Storage w → Ctx → State → S → List Task × S
  tasks_of st ctx state s =
      let (result, s') = st.get_tasks_by_state ctx state (pos 16) s in
      elim result [ ok tasks ↦ (tasks, s') | err e ↦ ([], s') ]

  unfoldable pub fetch_tasks : Storage w → Ctx → S → List Task × S
  unfolding tasks_of
  fetch_tasks st ctx s =
      let (completed, s1) = tasks_of st ctx state_completed s in
      let (failed, s2) = tasks_of st ctx state_failed s1 in
      let (processing, s3) = tasks_of st ctx state_processing s2 in
      (completed ++ (failed ++ processing), s3)

module _ (f : Texts) (w : World) {F : Type 0} (floats : Floats F) (percent : ℤ → ℤ → F)
    (encodes : Page F → Bool) (v : Server w) where
  open w use {S, Ctx, now}

  abbrev Handler : Type 0
  Handler =
      Request (Unit {0}) Ctx
      → Response (Page F)
      → Metrics F × S
      → Response (Page F) × (Metrics F × S)

  abbrev reply : Page F → Response (Page F) → Response (Page F)
  reply page res = encode encodes page (set_header "Content-Type" application_json res)

  -- A reply that becomes an error where the value has no JSON text.
  abbrev reply_or : String → Page F → Response (Page F) → Response (Page F)
  reply_or message page res =
      let res' = set_header "Content-Type" application_json res in
      if encodes page then encode encodes page res' else http_error message 500 res'

  unfoldable pub handle_dashboard : Handler
  handle_dashboard q res s =
      if str_eq q.path "/"
      then (elim v.index_html [
        | none ↦ (http_error "Internal Server Error" 500 res, s)
        | some html ↦
            (write (plain html) (set_header "Content-Type" "text/html; charset=utf-8" res), s)
      ])
      else (http_error "404 page not found" 404 res, s)

  unfoldable pub handle_metrics : Handler
  unfolding collect_metrics
  handle_metrics q res s =
      let (update, m', s') = collect_metrics f w floats percent v.measured v.queue s.0 s.1 in
      if str_eq q.method "GET"
      then (reply_or "Failed to encode metrics" (metrics_page update) res, (m', s'))
      else (http_error "Method not allowed" 405 res, s)

  unfoldable pub handle_tasks : Handler
  unfolding fetch_tasks sort
  handle_tasks q res s =
      if str_eq q.method "GET"
      then (elim v.storage [
        | none ↦ (reply (tasks_page [] 0) res, s)
        | some st ↦
            let (tasks, s') = fetch_tasks w st q.ctx s.1 in
            let details = sort older (map (listed_detail f) tasks) in
            (reply (tasks_page details (length details)) res, (s.0, s'))
      ])
      else (http_error "Method not allowed" 405 res, s)

  unfoldable pub detail_by_id : Ctx → String → Handler
  detail_by_id ctx id q res s = elim v.storage [
    | none ↦ (http_error "Storage not configured" 503 res, s)
    | some st ↦
        let (result, s') = st.get_task ctx id s.1 in
        elim result [
          | err e ↦ (http_error "Task not found" 404 res, (s.0, s'))
          | ok t ↦
              (reply_or "Failed to encode task detail" (task_page (full_detail f t)) res, (s.0, s'))
        ]
  ]

  -- The length of "/api/tasks/" is 11, and that of "/api/workers/" is 13.
  unfoldable pub handle_task_detail : Handler
  unfolding detail_by_id
  handle_task_detail q res s =
      if str_eq q.method "GET"
      then (elim (path_from 11 q.path) [
        | none ↦ (panic res, s)
        | some id ↦
            if str_eq id ""
            then (http_error "Task ID required" 400 res, s)
            else detail_by_id q.ctx id q res s
      ])
      else (http_error "Method not allowed" 405 res, s)

  unfoldable pub handle_dlq : Handler
  handle_dlq q res s =
      let (result, s') = v.queue.get_dlq_tasks q.ctx (pos 100) s.1 in
      if str_eq q.method "GET"
      then (elim result [
        | err e ↦ (http_error "Failed to fetch DLQ tasks" 500 res, (s.0, s'))
        | ok tasks ↦ (
          reply (tasks_page (map (dlq_detail f) tasks) (length (map (dlq_detail f) tasks))) res,
          (s.0, s'),
        )
      ])
      else (http_error "Method not allowed" 405 res, s)

  unfoldable pub handle_workers : Handler
  handle_workers q res s =
      let summaries = map summary (get_all_worker_details s.0) in
      (reply (workers_page summaries (length summaries)) res, s)

  unfoldable pub handle_worker_detail : Handler
  unfolding worker_detail
  handle_worker_detail q res s = elim (path_from 13 q.path) [
    | none ↦ (panic res, s)
    | some id ↦
        if str_eq id ""
        then (http_error "Worker ID required" 400 res, s)
        else (elim (get_worker_details id s.0) [
          | none ↦ (http_error "Worker not found" 404 res, s)
          | some (stats, task) ↦ (reply (worker_page (worker_detail f (now s.1) stats task)) res, s)
        ])
  ]

  -- The status of an unhealthy queue is written before the content type is set.
  unfoldable pub handle_health : Handler
  handle_health q res s =
      let (result, s') = v.queue.health q.ctx s.1 in
      let timestamp = f.rfc3339 (now s.1) in
      elim result [
        | ok _ ↦ (reply (healthy timestamp) res, (s.0, s'))
        | err e ↦ (reply (unhealthy timestamp e) (write_header 503 res), (s.0, s'))
      ]

  -- The routes of Start, but for "/api/ws" and the static files.
  unfoldable pub route : Handler
  unfolding handle_dashboard handle_metrics handle_tasks handle_task_detail handle_dlq
      handle_workers handle_worker_detail handle_health
  route q res s =
      if str_eq q.path "/api/metrics"
      then handle_metrics q res s
      else if str_eq q.path "/api/tasks"
      then handle_tasks q res s
      else if starts_with q.path "/api/tasks/"
      then handle_task_detail q res s
      else if str_eq q.path "/api/dlq"
      then handle_dlq q res s
      else if str_eq q.path "/api/workers"
      then handle_workers q res s
      else if starts_with q.path "/api/workers/"
      then handle_worker_detail q res s
      else if str_eq q.path "/health"
      then handle_health q res s
      else handle_dashboard q res s

  abbrev with_cors_headers : Handler → Handler
  with_cors_headers next = with_cors "GET, POST, OPTIONS" "Content-Type" next

  -- The log line is left out.
  abbrev with_logging : Handler → Handler
  with_logging next q res s = next q res s

  unfoldable pub serve : Handler
  unfolding route with_cors
  serve = with_logging (with_cors_headers route)
