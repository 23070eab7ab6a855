-- ===== src/Queue/RedisQueue/Enqueueing.antt =====
-- What Enqueue of internal/queue/redis.go does to the server.
pub mod Frame
use spool.Prelude.{
  ◌≡◌, ◌≢◌, refl, sym, ap, subst, ◌∙◌, String, true, some, [], ◌∷◌, ◌++◌, arith, pos, Option-cases,
  inl, inr,
}
use spool.Env.{World}
use spool.Effect.{ok, err}
use spool.Task.{Task}
use spool.Redis.{Redis}
use spool.Redis.Laws.{Laws, IsUp, HoldsList, missing, text, items, items_of}
use spool.Redis.Keys.{
  is_queue, queue_key-is_queue, ne_of_is_queue, Key, Level, Stat, queue_key, queue, task, stats,
  total, last_enqueue,
}
use spool.Queue.{enqueue_failed}
use spool.Queue.RedisQueue.{Codec, enqueue, enqueue_under, fresh, unix, default_enqueue_timeout}

module _ (w : World) (r : Redis w) (j : Codec) (laws : Laws w r) where
  open w use {S, Ctx}
  open laws use {at, set_ok, del_ok, set_frame, rpush_ok, rpush_frame, incr_frame}

  -- The server after a task t has been queued, from s to s'.
  pub record Queued (t : Task) (s s' : S) : Type 0 where
    pub stored : String
    pub marshalled : j.marshal t ≡ some stored
    pub data_kept : at s' (task t.id) ≡ text stored
    pub appended :
        at s' (queue_key t.priority) ≡ items (items_of (at s (queue_key t.priority)) ++ (t.id ∷ []))
    pub others_kept :
        (l : Level) → queue l ≢ queue_key t.priority → at s' (queue l) ≡ at s (queue l)

  -- The states after each command of an Enqueue in which none fails.
  after_set : Ctx → Task → String → S → S
  after_set ctx t d s = (r.set ctx (task t.id) d (pos 0) s).1

  after_push : Ctx → Task → String → S → S
  unfolding after_set
  after_push ctx t d s = (r.rpush ctx (queue_key t.priority) t.id (after_set ctx t d s)).1

  after_stats : Ctx → S → S
  after_stats ctx s =
      let s' = (r.incr ctx (stats total) s).1 in
      (r.set ctx (stats last_enqueue) (unix w r j s') (pos 0) s').1

  after_stats-at :
      (ctx : Ctx) (s : S) (k : Key) → ((n : Stat) → k ≢ stats n) → at (after_stats ctx s) k ≡ at s k
  unfolding after_stats
  after_stats-at ctx s k h =
      set_frame ctx (stats last_enqueue) _ (pos 0) _ k (h last_enqueue)
      ∙ incr_frame ctx (stats total) s k (h total)

  -- Enqueue returns nil only if both commands whose errors it looks at have succeeded.
  enqueue_under-eq-ok :
      (ctx : Ctx) (t : Task) (s : S)
      → (enqueue_under w r j ctx t s).0 ≡ ok tt
      → (d : String) × (j.marshal t ≡ some d)
        × ((r.set ctx (task t.id) d (pos 0) s).0 ≡ true)
        × ((r.rpush ctx (queue_key t.priority) t.id (after_set ctx t d s)).0 ≡ true)
        × ((enqueue_under w r j ctx t s).1 ≡ after_stats ctx (after_push ctx t d s))
  unfolding enqueue_under after_set after_push after_stats
  enqueue_under-eq-ok ctx t s h = ground arith

  -- What the successful commands leave behind.
  after_stats-Queued :
      (ctx : Ctx) (t : Task) (d : String) (s : S)
      → j.marshal t ≡ some d
      → (r.set ctx (task t.id) d (pos 0) s).0 ≡ true
      → (r.rpush ctx (queue_key t.priority) t.id (after_set ctx t d s)).0 ≡ true
      → Queued t s (after_stats ctx (after_push ctx t d s))
  unfolding after_push after_set
  after_stats-Queued ctx t d s m f g = record {
    stored = d;
    marshalled = m;
    data_kept =
        after_stats-at ctx _ (task t.id) (λ n e. cc)
        ∙ rpush_frame ctx q t.id _ (task t.id) (λ e. ne_of_is_queue q (task t.id) k refl (sym e))
        ∙ set_ok ctx (task t.id) d (pos 0) s f;
    appended =
        after_stats-at ctx _ q (λ n. ne_of_is_queue q (stats n) k refl)
        ∙ rpush_ok ctx q t.id _ g
        ∙ ap (λ e. items (items_of e ++ (t.id ∷ [])))
            (set_frame ctx (task t.id) d (pos 0) s q (ne_of_is_queue q (task t.id) k refl));
    others_kept = λ l n.
        after_stats-at ctx _ (queue l) (λ n e. cc)
        ∙ rpush_frame ctx q t.id _ (queue l) n
        ∙ set_frame ctx (task t.id) d (pos 0) s (queue l) (λ e. cc);
  }
    where
      q : Key
      q = queue_key t.priority

      k : is_queue q ≡ true
      k = queue_key-is_queue t.priority

  enqueue_under-Queued :
      (ctx : Ctx) (t : Task) (s : S)
      → (enqueue_under w r j ctx t s).0 ≡ ok tt
      → Queued t s (enqueue_under w r j ctx t s).1
  enqueue_under-Queued ctx t s h =
      let (d, m, f, g, e) = enqueue_under-eq-ok ctx t s h in
      rw e (after_stats-Queued ctx t d s m f g)

  -- If Enqueue returns nil, the task's JSON is stored under its id and the id stands at the end of
  -- the list of its priority, whose other entries and the other queues are as before.
  pub enqueue-Queued :
      (ctx : Ctx) (t : Task) (s : S)
      → (enqueue w r j ctx (some t) s).0 ≡ ok tt
      → Queued t s (enqueue w r j ctx (some t) s).1
  unfolding enqueue
  enqueue-Queued ctx t s h = enqueue_under-Queued _ t s h

  -- With the connection up, Enqueue returns nil for every task that has a JSON text, if the key of
  -- its queue holds a list or nothing.
  pub enqueue-total :
      (ctx : Ctx) (t : Task) (d : String) (s : S)
      → IsUp w r laws (fresh w r j default_enqueue_timeout ctx s)
      → j.marshal t ≡ some d
      → HoldsList (at s (queue_key t.priority))
      → (enqueue w r j ctx (some t) s).0 ≡ ok tt
  unfolding enqueue
  enqueue-total ctx t d s up m h = ground (arith, up.set_up (task t.id) d (pos 0) s, pushed)
    where
      c : Ctx
      c = fresh w r j default_enqueue_timeout ctx s

      kept :
          at (r.set c (task t.id) d (pos 0) s).1 (queue_key t.priority)
          ≡ at s (queue_key t.priority)
      kept =
          set_frame c (task t.id) d (pos 0) s _
            (ne_of_is_queue _ (task t.id) (queue_key-is_queue t.priority) refl)

      pushed : (r.rpush c (queue_key t.priority) t.id (r.set c (task t.id) d (pos 0) s).1).0 ≡ true
      pushed = up.rpush_up _ t.id _ (subst HoldsList (sym kept) h)

  -- An Enqueue that reports a failed push ends in a `Del` of the task's data.
  enqueue_under-push_failed :
      (c : Ctx) (t : Task) (s : S)
      → (enqueue_under w r j c t s).0 ≡ err enqueue_failed
      → (s' : S) × ((enqueue_under w r j c t s).1 ≡ (r.del c (task t.id) s').1)
  unfolding enqueue_under after_set
  enqueue_under-push_failed c t s h = elim (Option-cases (j.marshal t)) [
    | inl e ↦ absurd (ground arith)
    | inr (d, e) ↦ ((r.rpush c (queue_key t.priority) t.id (after_set c t d s)).1, ground arith)
  ]

  -- With the connection up, an Enqueue that reports that its push failed has taken the task's data
  -- away again.
  pub enqueue-rollback :
      (ctx : Ctx) (t : Task) (s : S)
      → IsUp w r laws (fresh w r j default_enqueue_timeout ctx s)
      → (enqueue w r j ctx (some t) s).0 ≡ err enqueue_failed
      → at (enqueue w r j ctx (some t) s).1 (task t.id) ≡ missing
  unfolding enqueue
  enqueue-rollback ctx t s up h =
      let (s', e) = enqueue_under-push_failed _ t s h in
      rw e (del_ok _ (task t.id) s' (up.del_up (task t.id) s'))
