-- ===== src/Queue/RedisQueue/Enqueueing/Frame.antt =====
-- What an Enqueue of internal/queue/redis.go that succeeds leaves alone.
use spool.Prelude.{◌≡◌, ◌≢◌, ◌∙◌, String, some, pos}
use spool.Env.{World}
use spool.Effect.{ok}
use spool.Task.{Task}
use spool.Redis.{Redis}
use spool.Redis.Laws.{Laws}
use spool.Redis.Keys.{Key, Stat, queue_key, task, stats}
use spool.Queue.RedisQueue.{Codec, enqueue}
use spool.Queue.RedisQueue.Enqueueing.{enqueue_under-eq-ok, after_set, after_push, after_stats-at}

module _ (w : World) (r : Redis w) (j : Codec) (laws : Laws w r) where
  open w use {S, Ctx}
  open laws use {at, set_frame, rpush_frame}

  after_push-frame :
      (ctx : Ctx) (t : Task) (d : String) (s : S) (k : Key)
      → k ≢ task t.id
      → k ≢ queue_key t.priority
      → at (after_push w r j laws ctx t d s) k ≡ at s k
  unfolding after_push after_set
  after_push-frame ctx t d s k n m =
      rpush_frame ctx (queue_key t.priority) t.id _ k m ∙ set_frame ctx (task t.id) d (pos 0) s k n

  -- Only the task's data, its queue and statistics change.
  pub enqueue-frame :
      (ctx : Ctx) (t : Task) (s : S) (k : Key)
      → (enqueue w r j ctx (some t) s).0 ≡ ok tt
      → k ≢ task t.id
      → k ≢ queue_key t.priority
      → ((n : Stat) → k ≢ stats n)
      → at (enqueue w r j ctx (some t) s).1 k ≡ at s k
  unfolding enqueue
  enqueue-frame ctx t s k h n m f =
      let (d, a, b, c, e) = enqueue_under-eq-ok w r j laws _ t s h in
      rw e (after_stats-at w r j laws _ _ k f ∙ after_push-frame _ t d s k n m)
