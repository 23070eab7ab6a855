-- ===== src/Queue/RedisQueue.antt =====
-- internal/queue/redis.go: the queue on a Redis server. The methods are functions of the commands r
-- and the JSON codec j; `order` is the order in which Go happens to range over the map `queueKeys`.
pub mod Enqueueing
pub mod Delivery
pub mod Dequeueing
pub mod Settling
pub mod Journeys
pub mod Lines
pub mod Refinement
pub mod Peeking
pub mod Admin
use spool.Prelude.{
  ℕ, ◌+◌, ◌*◌, ◌/◌, String, Bool, true, false, Option, none, some, List, [], ◌∷◌, ℤ, pos, negsuc,
  ltb_ℤ, ◌-ℤ◌, wrap64, if◌then◌else◌, str_eq, length,
}
use spool.Env.{World}
use spool.Effect.{
  M, Result, ok, err, ◌>>=◌, ◌>>◌, return, throw, ignore, or_throw, from_option, value_or_throw,
  on_error,
}
use spool.Task.{
  Task, Priority, priority_critical, priority_high, priority_normal, priority_low,
  state_dead_letter, second,
}
use spool.Redis.{Redis, Reply, value, absent, failed}
use spool.Redis.Keys.{
  Key, queue_key, all_tasks, all_processing, queue, processing, task, stats, dlq_tasks, dlq_meta,
  total, completed, dlq, last_enqueue, last_dequeue,
}
use spool.Redis.Keys
use spool.Queue.{
  Error, Queue, nil_task, marshal_failed, store_failed, enqueue_failed, dequeue_failed,
  retrieve_failed, unmarshal_failed, peek_failed, empty_id, requeue_retrieve_failed, requeue_failed,
  size_failed, purge_failed, task_data_failed, processing_data_failed, dlq_marshal_failed,
  dlq_enqueue_failed, dlq_size_failed, dlq_tasks_failed, ping_failed,
}

-- `json.Marshal` and `json.Unmarshal` at tasks, the JSON of the metadata of a dead letter (its task,
-- reason, time and retry count), and the decimal form of an int64.
pub record Codec : Type 0 where
  pub marshal : Task → Option String
  pub unmarshal : String → Option Task
  pub dead_letter_text : String → String → ℕ → ℤ → String
  pub int_text : ℕ → String

abbrev pub default_enqueue_timeout : ℤ
default_enqueue_timeout = pos (5 * second)

abbrev pub default_dequeue_timeout : ℤ
default_dequeue_timeout = pos (5 * second)

abbrev pub hour : ℕ
hour = 3600 * second

abbrev pub priorities : List Priority
priorities = priority_critical ∷ priority_high ∷ priority_normal ∷ priority_low ∷ []

-- What `EnqueueDLQ` writes into the task that it is given.
unfoldable pub dead_lettered : Task → String → Task
dead_lettered t reason =
    let t' = record t { state = state_dead_letter } in
    if str_eq reason "" then t' else record t' { error = reason }

module _ (w : World) (r : Redis w) (j : Codec) where
  open w use {S, Ctx, now}

  -- `time.Now().Unix()`
  unix : S → String
  unix s = j.int_text (now s / second)

  -- `if ctx.Err() != nil { ctx = context.WithTimeout(context.Background(), timeout) }`
  unfoldable pub fresh : ℤ → Ctx → S → Ctx
  fresh timeout ctx s = elim (w.ctx_err ctx s) [
    | none ↦ ctx
    | some _ ↦ w.with_timeout w.background timeout s
  ]

  enqueue_under : Ctx → Task → M S Error (Unit {0})
  unfolding unix
  enqueue_under ctx t = do
    d ← from_option (j.marshal t) marshal_failed
    or_throw (r.set ctx (task t.id) d (pos 0)) store_failed
    on_error (or_throw (r.rpush ctx (queue_key t.priority) t.id) enqueue_failed)
        (ignore (r.del ctx (task t.id)))
    ignore (r.incr ctx (stats total))
    ignore (λ s. r.set ctx (stats last_enqueue) (unix s) (pos 0) s)

  unfoldable pub enqueue : Ctx → Option Task → M S Error (Unit {0})
  unfolding enqueue_under fresh
  enqueue ctx none = throw nil_task
  enqueue ctx (some t) = λ s. enqueue_under (fresh default_enqueue_timeout ctx s) t s

  -- What `Dequeue` does once `LPop` has given an id: `next` is what the loop does on `continue`.
  pub deliver : Ctx → Key → String → M S Error (Option Task) → M S Error (Option Task)
  unfolding unix
  deliver ctx queue_key id next s =
      let (reply, s1) = r.get ctx (task id) s in
      elim reply [
        | absent ↦ next s1
        | failed ↦ (err retrieve_failed, (r.lpush ctx queue_key id s1).1)
        | value d ↦ elim (j.unmarshal d) [
          | none ↦ (err unmarshal_failed, (r.del ctx (task id) s1).1)
          | some t ↦
              let s2 = (r.set ctx (processing id) (unix s1) (pos hour) s1).1 in
              (ok (some t), (r.set ctx (stats last_dequeue) (unix s2) (pos 0) s2).1)
        ]
      ]

  -- The loop over the priorities that are left.
  pub dequeue_from : Ctx → List Priority → M S Error (Option Task)
  unfolding deliver
  dequeue_from ctx [] s = (ok none, s)
  dequeue_from ctx (p ∷ rest) s =
      let (reply, s1) = r.lpop ctx (queue_key p) s in
      elim reply [
        | absent ↦ dequeue_from ctx rest s1
        | failed ↦ (err dequeue_failed, s1)
        | value id ↦ deliver ctx (queue_key p) id (dequeue_from ctx rest) s1
      ]

  unfoldable pub dequeue : Ctx → M S Error (Option Task)
  unfolding dequeue_from fresh
  dequeue ctx s = dequeue_from (fresh default_dequeue_timeout ctx s) priorities s

  pub peek_from : Ctx → List Priority → M S Error (Option Task)
  peek_from ctx [] s = (ok none, s)
  peek_from ctx (p ∷ rest) s =
      let (reply, s1) = r.lindex ctx (queue_key p) (pos 0) s in
      elim reply [
        | absent ↦ peek_from ctx rest s1
        | failed ↦ (err peek_failed, s1)
        | value id ↦
            let (reply', s2) = r.get ctx (task id) s1 in
            elim reply' [
              | absent ↦ peek_from ctx rest s2
              | failed ↦ (err retrieve_failed, s2)
              | value d ↦ elim (j.unmarshal d) [
                | none ↦ (err unmarshal_failed, s2)
                | some t ↦ (ok (some t), s2)
              ]
            ]
      ]

  unfoldable pub peek : Ctx → M S Error (Option Task)
  unfolding peek_from
  peek ctx = peek_from ctx priorities

  unfoldable pub ack : Ctx → String → M S Error (Unit {0})
  ack ctx id = if str_eq id "" then throw empty_id else do
    ignore (r.del ctx (processing id))
    ignore (r.del ctx (task id))
    ignore (r.incr ctx (stats completed))

  -- `Get(...)` and its error, `redis.Nil` included.
  get_or_throw : Ctx → Key → Error → M S Error String
  get_or_throw ctx k e s = elim (r.get ctx k s).0 [
    | value d ↦ (ok d, (r.get ctx k s).1)
    | absent ↦ (err e, (r.get ctx k s).1)
    | failed ↦ (err e, (r.get ctx k s).1)
  ]

  drop_task : Ctx → String → M S Error (Unit {0})
  drop_task ctx id = do ignore (r.del ctx (task id)); ignore (r.incr ctx (stats Keys.failed))

  requeue : Ctx → String → M S Error (Unit {0})
  unfolding get_or_throw
  requeue ctx id = do
    d ← get_or_throw ctx (task id) requeue_retrieve_failed
    t ← from_option (j.unmarshal d) unmarshal_failed
    or_throw (r.rpush ctx (queue_key t.priority) id) requeue_failed

  unfoldable pub nack : Ctx → String → Bool → M S Error (Unit {0})
  unfolding drop_task requeue
  nack ctx id requeued = if str_eq id "" then throw empty_id else do
    ignore (r.del ctx (processing id))
    if requeued then requeue ctx id else drop_task ctx id
