-- ===== src/Broker.antt =====
-- internal/broker/broker.go: the HTTP interface of the queue and the store. Log lines are left out; the
-- route of a path is the one that ServeMux takes for a clean path.
pub mod Batches
pub mod Serving
use spool.Prelude.{
  ℕ, suc, zero, String, Bool, true, false, Option, none, some, List, [], ◌∷◌, ◌++◌, pos, length,
  if◌then◌else◌, str_eq,
}
use text.Mathlib.Text.{starts_with}
use spool.Env.{World}
use spool.Effect.{M, Result, ok, err}
use spool.Task.{Task, state_pending}
use spool.Queue.{Queue}
use spool.Queue
use spool.Storage.{Storage}
use spool.Worker.{Outcome, returns_nil, returns_error, panics}
use spool.Http.{
  Request, Response, set_header, write_header, http_error, encode, panic, path_from,
  application_json, with_cors,
}

-- The bodies of the replies.
pub data Reply : Type 0 where
  submitted : String → Reply
  batch : List String → ℕ → ℕ → Reply
  listed : List Task → ℕ → Reply
  found : Task → Reply
  queue_stats : ℕ → ℕ → ℕ → Reply
  purged : Reply
  healthy : ℕ → Reply
  unhealthy : ℕ → Queue.Error → Reply

-- `json.NewDecoder(r.Body).Decode`, with none for an error.
pub record Decoder (B : Type 0) : Type 0 where
  pub task : B → Option Task
  pub tasks : B → Option (List Task)

module _ (w : World) where
  open w use {S, Ctx, now}

  -- `server` tells whether Start has set it.
  pub record Broker : Type 1 where
    pub addr : String
    pub queue : Queue w
    pub storage : Option (Storage w)
    pub server : Bool
    pub done_closed : Bool
    pub ready_closed : Bool

  unfoldable pub new_broker : String → Queue w → Option (Storage w) → Broker
  new_broker addr queue storage = record {
    addr = if str_eq addr "" then ":8000" else addr;
    queue = queue;
    storage = storage;
    server = false;
    done_closed = false;
    ready_closed = false;
  }

  -- Start up to ListenAndServe, which returns when the server ends.
  unfoldable pub start : Broker → Outcome × Broker
  start b =
      let b' = record b { server = true } in
      if b.ready_closed then (panics, b') else (returns_nil, record b' { ready_closed = true })

  -- `shuts_down` tells whether the server's own Shutdown returns nil.
  unfoldable pub stop : Bool → Broker → Outcome × Broker
  stop shuts_down b =
      let b' = record b { done_closed = true } in
      if b.done_closed
      then (panics, b)
      else if b.server
      then (if shuts_down then (returns_nil, b') else (returns_error, b'))
      else (returns_nil, b')

  module _ {B : Type 0} (d : Decoder B) (encodes : Reply → Bool) (b : Broker) where
    abbrev Handler : Type 0
    Handler = Request B Ctx → Response Reply → S → Response Reply × S

    -- The end of a handler that has a value to give.
    abbrev reply : Reply → Response Reply → Response Reply
    reply v res = encode encodes v (set_header "Content-Type" application_json res)

    abbrev created : Reply → Response Reply → Response Reply
    created v res =
        encode encodes v (write_header 201 (set_header "Content-Type" application_json res))

    unfoldable pub handle_submit : Handler
    handle_submit q res s = elim (d.task q.body) [
      | none ↦ (http_error "Invalid task format" 400 res, s)
      | some t ↦
          let (result, s') = b.queue.enqueue q.ctx (some t) s in
          elim result [
            | err e ↦ (http_error "Failed to enqueue task" 500 res, s')
            | ok _ ↦ (created (submitted t.id) res, s')
          ]
    ]

    -- The loop over the tasks of a batch: the ids of those that were taken.
    unfoldable pub enqueue_each : Ctx → List Task → S → List String × S
    enqueue_each ctx [] s = ([], s)
    enqueue_each ctx (t ∷ ts) s =
        let (result, s') = b.queue.enqueue ctx (some t) s in
        let (ids, s'') = enqueue_each ctx ts s' in
        elim result [ err e ↦ (ids, s'') | ok _ ↦ (t.id ∷ ids, s'') ]

    unfoldable pub submit_each : Ctx → List Task → Response Reply → S → Response Reply × S
    unfolding enqueue_each
    submit_each ctx tasks res s =
        let (ids, s') = enqueue_each ctx tasks s in
        (created (batch ids (length ids) (length tasks)) res, s')

    unfoldable pub handle_batch_submit : Handler
    unfolding submit_each
    handle_batch_submit q res s =
        if str_eq q.method "POST"
        then (elim (d.tasks q.body) [
          | none ↦ (http_error "Invalid task format" 400 res, s)
          | some tasks ↦ submit_each q.ctx tasks res s
        ])
        else (http_error "Method not allowed" 405 res, s)

    unfoldable pub handle_list : Handler
    handle_list q res s = elim b.storage [
      | none ↦ (http_error "Storage not configured" 503 res, s)
      | some st ↦
          let (result, s') = st.get_tasks_by_state q.ctx state_pending (pos 50) s in
          elim result [
            | err e ↦ (http_error "Failed to list tasks" 500 res, s')
            | ok tasks ↦ (reply (listed tasks (length tasks)) res, s')
          ]
    ]

    unfoldable pub handle_tasks : Handler
    unfolding handle_submit handle_list
    handle_tasks q res s =
        if str_eq q.method "POST"
        then handle_submit q res s
        else if str_eq q.method "GET"
        then handle_list q res s
        else (http_error "Method not allowed" 405 res, s)

    unfoldable pub get_by_id : Ctx → String → Response Reply → S → Response Reply × S
    get_by_id ctx id res s = elim b.storage [
      | none ↦ (http_error "Storage not configured" 503 res, s)
      | some st ↦
          let (result, s') = st.get_task ctx id s in
          elim result [
            | err e ↦ (http_error "Task not found" 404 res, s')
            | ok t ↦ (reply (found t) res, s')
          ]
    ]

    -- The length of "/api/tasks/" is 11; a slice that starts behind the path's end panics.
    unfoldable pub handle_task_by_id : Handler
    unfolding get_by_id
    handle_task_by_id q res s =
        if str_eq q.method "GET"
        then (elim (path_from 11 q.path) [
          | none ↦ (panic res, s)
          | some id ↦
              if str_eq id ""
              then (http_error "Task ID required" 400 res, s)
              else get_by_id q.ctx id res s
        ])
        else (http_error "Method not allowed" 405 res, s)

    -- The size of the dead letter queue is 0 where it cannot be read.
    abbrev or_zero : Result Queue.Error ℕ → ℕ
    or_zero (ok n) = n
    or_zero (err e) = 0

    unfoldable pub read_stats : Ctx → Response Reply → S → Response Reply × S
    read_stats ctx res s =
        let (size, s1) = b.queue.size ctx s in
        let (dlq_size, s2) = b.queue.get_dlq_size ctx s1 in
        elim size [
          | err e ↦ (http_error "Failed to get queue stats" 500 res, s1)
          | ok n ↦ (reply (queue_stats n (or_zero dlq_size) (now s2)) res, s2)
        ]

    unfoldable pub handle_queue_stats : Handler
    unfolding read_stats
    handle_queue_stats q res s =
        if str_eq q.method "GET"
        then read_stats q.ctx res s
        else (http_error "Method not allowed" 405 res, s)

    purge : Ctx → Response Reply → S → Response Reply × S
    purge ctx res s =
        let (result, s') = b.queue.purge ctx s in
        elim result [
          | err e ↦ (http_error "Failed to purge queue" 500 res, s')
          | ok _ ↦ (reply purged res, s')
        ]

    unfoldable pub handle_purge : Handler
    unfolding purge
    handle_purge q res s =
        if str_eq q.method "POST"
        then purge q.ctx res s
        else (http_error "Method not allowed" 405 res, s)

    -- The status of an unhealthy queue is written before the content type is set.
    unfoldable pub handle_health : Handler
    handle_health q res s =
        let (result, s') = b.queue.health q.ctx s in
        elim result [
          | ok _ ↦ (reply (healthy (now s)) res, s')
          | err e ↦ (reply (unhealthy (now s) e) (write_header 503 res), s')
        ]

    -- The routes of Start.
    unfoldable pub route : Handler
    unfolding handle_tasks handle_batch_submit handle_task_by_id handle_queue_stats handle_purge
        handle_health
    route q res s =
        if str_eq q.path "/api/tasks"
        then handle_tasks q res s
        else if str_eq q.path "/api/tasks/batch"
        then handle_batch_submit q res s
        else if starts_with q.path "/api/tasks/"
        then handle_task_by_id q res s
        else if str_eq q.path "/api/queue/stats"
        then handle_queue_stats q res s
        else if str_eq q.path "/api/queue/purge"
        then handle_purge q res s
        else if str_eq q.path "/health"
        then handle_health q res s
        else (http_error "404 page not found" 404 res, s)

    unfoldable pub serve : Handler
    unfolding route with_cors
    serve = with_cors "GET, POST, PUT, DELETE, OPTIONS" "Content-Type, Authorization" route
