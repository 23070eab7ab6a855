-- ===== src/Queue/RedisQueue/Admin.antt =====
-- The sizes, the purge and the dead letters of internal/queue/redis.go, and the queue as a whole.
pub mod Sizes
pub mod DeadLetters
use spool.Prelude.{
  ℕ, ◌+◌, ◌*◌, ◌/◌, String, Bool, true, false, Option, none, some, List, [], ◌∷◌, ℤ, pos, negsuc,
  ltb_ℤ, ◌-ℤ◌, wrap64, if◌then◌else◌,
}
use spool.Env.{World}
use spool.Effect.{
  M, Result, ok, err, ◌>>=◌, ◌>>◌, return, throw, ignore, or_throw, from_option, value_or_throw,
}
use spool.Task.{Task, Priority, second}
use spool.Redis.{Redis}
use spool.Redis.Keys.{
  Level, Key, KeyKind, all_tasks, all_processing, queue, stats, dlq_tasks, dlq_meta, dlq,
}
use spool.Queue.{
  Error, Queue, nil_task, size_failed, purge_failed, task_data_failed, processing_data_failed,
  dlq_marshal_failed, dlq_enqueue_failed, dlq_size_failed, dlq_tasks_failed, ping_failed,
}
use spool.Queue.RedisQueue.{Codec, hour, dead_lettered, unix, enqueue, dequeue, peek, ack, nack}

-- Corrupted entries are skipped.
unfoldable pub decode_all : Codec → List String → List Task
decode_all j [] = []
decode_all j (d ∷ rest) =
    let tasks = decode_all j rest in elim (j.unmarshal d) [ none ↦ tasks | some t ↦ t ∷ tasks ]

module _ (w : World) (r : Redis w) (j : Codec) where
  open w use {S, Ctx, now}

  -- `total` so far, over the queues that are left of the range over the map.
  size_from : Ctx → List Level → ℕ → M S Error ℕ
  size_from ctx [] total s = (ok total, s)
  size_from ctx (l ∷ rest) total s = elim (r.llen ctx (queue l) s).0 [
    | none ↦ (err size_failed, (r.llen ctx (queue l) s).1)
    | some n ↦ size_from ctx rest (total + n) (r.llen ctx (queue l) s).1
  ]

  unfoldable pub size : List Level → Ctx → M S Error ℕ
  unfolding size_from
  size order ctx = size_from ctx order 0

  unfoldable pub size_by_priority : List Level → Ctx → M S Error (List (Level × ℕ))
  size_by_priority [] ctx = return []
  size_by_priority (l ∷ rest) ctx = do
    n ← value_or_throw (r.llen ctx (queue l)) size_failed
    sizes ← size_by_priority rest ctx
    return ((l, n) ∷ sizes)

  -- `Del` on each queue; the first error ends the purge.
  purge_queues : Ctx → List Level → M S Error (Unit {0})
  purge_queues ctx [] s = (ok tt, s)
  purge_queues ctx (l ∷ rest) s = elim (r.del ctx (queue l) s).0 [
    | true ↦ purge_queues ctx rest (r.del ctx (queue l) s).1
    | false ↦ (err purge_failed, (r.del ctx (queue l) s).1)
  ]

  delete_all : Ctx → List Key → S → S
  delete_all ctx [] s = s
  delete_all ctx (k ∷ rest) s = delete_all ctx rest (r.del ctx k s).1

  -- The loop over an iterator, and its error afterwards.
  purge_kind : Ctx → KeyKind → Error → M S Error (Unit {0})
  unfolding delete_all
  purge_kind ctx kind e s =
      let ((keys, fine), s') = r.scan ctx kind s in
      let s'' = delete_all ctx keys s' in elim fine [ true ↦ (ok tt, s'') | false ↦ (err e, s'') ]

  unfoldable pub purge : List Level → Ctx → M S Error (Unit {0})
  unfolding purge_queues purge_kind
  purge order ctx = do
    purge_queues ctx order
    purge_kind ctx all_tasks task_data_failed
    purge_kind ctx all_processing processing_data_failed

  -- `t` is changed through its pointer to `dead_lettered t reason`, also where an error follows.
  unfoldable pub enqueue_dlq : Ctx → Option Task → String → M S Error (Unit {0})
  unfolding unix
  enqueue_dlq ctx none reason = throw nil_task
  enqueue_dlq ctx (some t) reason = do
    d ← from_option (j.marshal (dead_lettered t reason)) dlq_marshal_failed
    or_throw (r.rpush ctx dlq_tasks d) dlq_enqueue_failed
    ignore λ s.
        r.set ctx (dlq_meta t.id) (j.dead_letter_text t.id reason (now s / second) t.retry_count)
          (pos (30 * 24 * hour)) s
    ignore (r.incr ctx (stats dlq))

  unfoldable pub get_dlq_size : Ctx → M S Error ℕ
  get_dlq_size ctx = value_or_throw (r.llen ctx dlq_tasks) dlq_size_failed

  unfoldable pub get_dlq_tasks : Ctx → ℤ → M S Error (List Task)
  unfolding decode_all
  get_dlq_tasks ctx limit = do
    let last = if ltb_ℤ (pos 0) limit then limit -ℤ pos 1 else negsuc 0
    texts ← value_or_throw (r.lrange ctx dlq_tasks (pos 0) last) dlq_tasks_failed
    return (decode_all j texts)

  unfoldable pub health : Ctx → M S Error (Unit {0})
  health ctx = or_throw (r.ping ctx) ping_failed

  -- The Redis queue as a queue.
  unfoldable pub redis_queue : List Level → Queue w
  redis_queue order = record {
    enqueue = enqueue w r j;
    dequeue = dequeue w r j;
    peek = peek w r j;
    ack = ack w r j;
    nack = nack w r j;
    size = size order;
    purge = purge order;
    enqueue_dlq = enqueue_dlq;
    get_dlq_size = get_dlq_size;
    get_dlq_tasks = get_dlq_tasks;
    health = health;
  }
