-- ===== src/Examples/Queues.antt =====
-- The queue's theorems on small servers in memory.
use spool.Prelude.{◌≡◌, ◌≢◌, refl, false, none, some, [], ◌∷◌}
use spool.Effect.{ok}
use spool.Task.{priority_high}
use spool.Redis.Keys.{Level, queue, queue_key, critical, high, normal, low, task}
use spool.Redis.KeyEquality.{key_eq}
use spool.Redis.Laws.{HoldsList, missing, items}
use spool.Redis.Memory.{Memory, memory_world, memory_redis, memory_laws, memory_up}
use spool.Queue.RedisQueue.{fresh, enqueue, dequeue}
use spool.Queue.RedisQueue.Enqueueing.{Queued, enqueue-Queued, enqueue-rollback}
use spool.Queue.RedisQueue.Delivery.{select, Delivers}
use spool.Queue.RedisQueue.Dequeueing.{dequeue-select}
use spool.Queue.RedisQueue.Journeys.{dequeue-stale}
use spool.Examples.Samples.{job, codec_for, empty_server, busy_server, stale_server, wrong_server}

enqueue-Queued_example :
    Queued memory_world memory_redis
      (codec_for job)
      memory_laws
      job
      empty_server
      (enqueue memory_world memory_redis (codec_for job) false (some job) empty_server).1
unfolding enqueue queue_key key_eq
enqueue-Queued_example =
    enqueue-Queued memory_world memory_redis (codec_for job) memory_laws false job empty_server refl

enqueue-rollback_example :
    (enqueue memory_world memory_redis (codec_for job) false (some job) wrong_server).1.held
      (task "a")
    ≡ missing
unfolding enqueue queue_key key_eq
enqueue-rollback_example =
    enqueue-rollback memory_world memory_redis (codec_for job) memory_laws false job wrong_server
      memory_up refl

dequeue-select_example :
    Delivers memory_world memory_redis
      (codec_for job)
      memory_laws
      (dequeue memory_world memory_redis (codec_for job) false busy_server)
      priority_high
      "a"
      ("b" ∷ [])
      job
      busy_server
unfolding fresh queue_key key_eq select
dequeue-select_example =
    dequeue-select memory_world memory_redis (codec_for job) memory_laws false busy_server
      priority_high "a" ("b" ∷ []) "x" job memory_up
      (([], refl), (("a" ∷ "b" ∷ [], refl), (([], refl), (([], refl), tt)))) refl refl refl

-- The server after the sample task is queued.
abbrev queued_server : Memory
queued_server = (enqueue memory_world memory_redis (codec_for job) false (some job) empty_server).1

dequeue-stale_example :
    ((dequeue memory_world memory_redis (codec_for job) false stale_server).0 ≡ ok none)
    × ((dequeue memory_world memory_redis (codec_for job) false stale_server).1.held
          (queue critical)
        ≡ items ("b" ∷ []))
unfolding fresh key_eq
dequeue-stale_example =
    dequeue-stale memory_world memory_redis (codec_for job) memory_laws false stale_server "a"
      ("b" ∷ []) memory_up refl refl others
  where
    others : (l : Level) → l ≢ critical → stale_server.held (queue l) ≡ missing
    others critical n = absurd (n refl)
    others high n = refl
    others normal n = refl
    others low n = refl

busy_HoldsList : (l : Level) → HoldsList (busy_server.held (queue l))
unfolding key_eq
busy_HoldsList critical = ([], refl)
busy_HoldsList high = ("a" ∷ "b" ∷ [], refl)
busy_HoldsList normal = ([], refl)
busy_HoldsList low = ([], refl)
