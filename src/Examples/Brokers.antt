-- ===== src/Examples/Brokers.antt =====
-- The theorems on the broker at concrete requests.
use spool.Prelude.{◌≡◌, refl, String, Bool, true, false, none, some, List, [], ◌∷◌, arith}
use spool.Effect.{ok, err}
use spool.Queue.{Queue}
use spool.Queue
use spool.Http.{Request, Chunk, json, blank}
use spool.Redis.Keys.{Level, critical, high, normal, low}
use spool.Redis.Memory.{memory_world, memory_redis, memory_laws}
use spool.Queue.RedisQueue.Lines.{answers}
use spool.Queue.RedisQueue.Refinement.Steps.{Stands}
use spool.Broker.{Broker, Decoder, Reply, batch, new_broker, serve}
use spool.Broker.Batches.{posts_batch, ids_of, all_enqueued, on_redis, serve-batch_Stands}
use spool.Broker.Serving.{ReadsKeep, Tells, asks_health, serve-reads, serve-health}
use spool.Examples.Samples.{job, codec_for, empty_server}
use spool.Examples.Histories.{no_tasks, stays_up, empty_server-Stands}

-- A queue that is always empty, takes no task and has no server behind it.
abbrev pub idle_queue : Queue memory_world
idle_queue = record {
  enqueue = λ ctx t s. (err Queue.enqueue_failed, s);
  dequeue = λ ctx s. (ok none, s);
  peek = λ ctx s. (ok none, s);
  ack = λ ctx id s. (ok tt, s);
  nack = λ ctx id again s. (ok tt, s);
  size = λ ctx s. (ok 0, s);
  purge = λ ctx s. (ok tt, s);
  enqueue_dlq = λ ctx t reason s. (ok tt, s);
  get_dlq_size = λ ctx s. (ok 0, s);
  get_dlq_tasks = λ ctx limit s. (ok [], s);
  health = λ ctx s. (err Queue.ping_failed, s);
}

abbrev decoder : Decoder String
decoder = record { task = λ text. some job; tasks = λ text. some (job ∷ []) }

abbrev encodes : Reply → Bool
encodes v = true

abbrev broker : Broker memory_world
unfolding new_broker
broker = new_broker memory_world "" idle_queue none

abbrev order : List Level
order = critical ∷ high ∷ normal ∷ low ∷ []

serve-batch_Stands_example :
    let (res, s') =
      serve memory_world decoder encodes
        (on_redis memory_world decoder encodes memory_redis
          (codec_for job)
          memory_laws
          order
          broker)
        (posts_batch "[{}]" false)
        blank
        empty_server in
    (res.status ≡ some 201)
    × (res.body ≡ json (batch (ids_of (job ∷ [])) 1 1) ∷ [])
    × Stands memory_world memory_redis
        (codec_for job)
        memory_laws
        s'
        (answers (all_enqueued (job ∷ [])) no_tasks).1
serve-batch_Stands_example =
    serve-batch_Stands memory_world decoder encodes memory_redis (codec_for job) memory_laws order
      broker "[{}]" false (job ∷ []) empty_server no_tasks refl (λ ids n m. refl) stays_up
      empty_server-Stands (((high, refl), ("x", refl, refl), (λ l. tt), tt), tt)

abbrev asks_stats : Request String Bool
asks_stats = record { method = "GET"; path = "/api/queue/stats"; body = ""; ctx = false }

reads_keep : ReadsKeep memory_world (λ s. s.time ≡ 5000000000) broker
unfolding broker new_broker
reads_keep = record {
  size_keeps = λ ctx s h. h;
  dlq_size_keeps = λ ctx s h. h;
  health_keeps = λ ctx s h. h;
  store_keeps = λ st e. absurd (ground arith);
}

serve-reads_example :
    (serve memory_world decoder encodes broker asks_stats blank empty_server).1.time ≡ 5000000000
serve-reads_example =
    serve-reads memory_world (λ s. s.time ≡ 5000000000) decoder encodes broker asks_stats
      empty_server reads_keep refl refl

-- Of a JSON text that is an object, a plain text is all that is detected.
abbrev detected : Chunk Reply → String
detected chunk = "text/plain; charset=utf-8"

serve-health_example :
    Tells detected 5000000000
      (err Queue.ping_failed)
      (serve memory_world decoder encodes broker (asks_health "" false) blank empty_server).0
unfolding broker new_broker
serve-health_example =
    serve-health memory_world decoder encodes broker "" false empty_server detected (λ v. refl)
