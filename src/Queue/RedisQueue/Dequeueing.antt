-- ===== src/Queue/RedisQueue/Dequeueing.antt =====
-- What Dequeue and Peek of internal/queue/redis.go give.
use spool.Prelude.{◌≡◌, refl, sym, ap, subst, ◌∙◌, String, none, some, List, [], ◌∷◌, arith}
use spool.Env.{World}
use spool.Effect.{ok}
use spool.Task.{Task, Priority}
use spool.Redis.{Redis}
use spool.Redis.Laws.{Laws, IsUp, text}
use spool.Redis.Keys.{queue_key, task}
use spool.Queue.RedisQueue.{
  Codec, dequeue, dequeue_from, fresh, priorities, default_dequeue_timeout,
}
use spool.Queue.RedisQueue.Delivery.{
  select, HoldLists, Delivers, dequeue_from-skip, skip-frame, dequeue_from-select, select-skip,
}

module _ (w : World) (r : Redis w) (j : Codec) (laws : Laws w r) where
  open w use {S, Ctx}
  open laws use {at}

  -- The context under which Dequeue runs.
  abbrev pub dequeue_ctx : Ctx → S → Ctx
  dequeue_ctx ctx s = fresh w r j default_dequeue_timeout ctx s

  -- With the connection up, Dequeue returns the task at the head of the first non-empty queue in
  -- the order critical, high, normal, low, if that task's data is there and can be decoded: the id
  -- is popped and tracked, and no other key but the time of the last dequeue changes.
  pub dequeue-select :
      (ctx : Ctx) (s : S) (p : Priority) (id : String) (behind : List String) (d : String)
      (t : Task)
      → IsUp w r laws (dequeue_ctx ctx s)
      → HoldLists (at s) priorities
      → select (at s) priorities ≡ some (p, id, behind)
      → at s (task id) ≡ text d
      → j.unmarshal d ≡ some t
      → Delivers w r j laws (dequeue w r j ctx s) p id behind t s
  unfolding dequeue
  dequeue-select ctx s p id behind d t up h e f g =
      dequeue_from-select w r j laws _ up priorities s p id behind d t h e f g

  -- A loop over empty queues gives nil.
  pub dequeue_from-empty :
      (c : Ctx) (up : IsUp w r laws c) (ps : List Priority) (s : S)
      → HoldLists (at s) ps
      → select (at s) ps ≡ none
      → ((dequeue_from w r j c ps s).0 ≡ ok none) × (at (dequeue_from w r j c ps s).1 ≡ at s)
  unfolding dequeue_from select
  dequeue_from-empty c up [] s h e = (refl, refl)
  dequeue_from-empty c up (q ∷ ps) s (([], m), h) e =
      let s1 = (r.lpop c (queue_key q) s).1 in
      let same : at s1 ≡ at s = skip-frame w r j laws c up q s m in
      let ih =
        dequeue_from-empty c up ps s1 (subst (λ held. HoldLists held ps) (sym same) h)
          (ap (λ held. select held ps) same ∙ select-skip (at s) q ps m ∙ e) in
      rw (dequeue_from-skip w r j laws c up q ps s m) (ih.0, ih.1 ∙ same)
  dequeue_from-empty c up (q ∷ ps) s ((x ∷ xs, m), h) e = ground arith

  -- With the connection up and all four queues empty, Dequeue returns nil and changes no key.
  pub dequeue-empty :
      (ctx : Ctx) (s : S)
      → IsUp w r laws (dequeue_ctx ctx s)
      → HoldLists (at s) priorities
      → select (at s) priorities ≡ none
      → ((dequeue w r j ctx s).0 ≡ ok none) × (at (dequeue w r j ctx s).1 ≡ at s)
  unfolding dequeue
  dequeue-empty ctx s up h e = dequeue_from-empty _ up priorities s h e
