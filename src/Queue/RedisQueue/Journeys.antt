-- ===== src/Queue/RedisQueue/Journeys.antt =====
-- Tasks on their way through Enqueue and Dequeue of internal/queue/redis.go.
use spool.Prelude.{◌≡◌, ◌≢◌, sym, ap, ◌∙◌, String, Option, none, some, List, [], ◌∷◌, ◌++◌, arith}
use spool.Env.{World}
use spool.Effect.{M, ok}
use spool.Task.{Task, Priority, priority_critical, priority_high, priority_normal, priority_low}
use spool.Redis.{Redis}
use spool.Redis.KeyEquality.{Level-discrete}
use spool.Redis.Laws.{Laws, IsUp, Entry, missing, text, items, items_of, of_items}
use spool.Redis.Pops.{lpop_items}
use spool.Redis.Keys.{
  Key, Level, queue_key, task, queue, critical, high, normal, low, level_of, queue_key-level_of,
}
use spool.Queue.{Error}
use spool.Queue.RedisQueue.{Codec, enqueue, dequeue, dequeue_from, deliver, priorities}
use spool.Queue.RedisQueue.Delivery.{select, HoldLists, Delivers, get_missing, dequeue_from-hit}
use spool.Queue.RedisQueue.Enqueueing.{Queued, enqueue-Queued}
use spool.Queue.RedisQueue.Dequeueing.{dequeue_ctx, dequeue-select, dequeue_from-empty}

-- All four queues are empty.
abbrev pub AllEmpty : (Key → Entry) → Type 0
AllEmpty held = (l : Level) → held (queue l) ≡ missing

-- What the queues hold once a task of a known priority joins empty ones.
select-only :
    (held : Key → Entry) (p : Priority) (l : Level) (id : String)
    → queue_key p ≡ queue l
    → held (queue l) ≡ items (id ∷ [])
    → ((k : Level) → k ≢ l → held (queue k) ≡ missing)
    → HoldLists held priorities × (select held priorities ≡ some (level_of l, id, []))
unfolding select queue_key level_of
select-only held p critical id e h o = (
  ((id ∷ [], h), (([], o high (λ x. cc)), (([], o normal (λ x. cc)), (([], o low (λ x. cc)), tt)))),
  ground arith,
)
select-only held p high id e h o = (
  (
    ([], o critical (λ x. cc)),
    ((id ∷ [], h), (([], o normal (λ x. cc)), (([], o low (λ x. cc)), tt))),
  ),
  ground (arith, o critical (λ x. cc)),
)
select-only held p normal id e h o = (
  (
    ([], o critical (λ x. cc)),
    (([], o high (λ x. cc)), ((id ∷ [], h), (([], o low (λ x. cc)), tt))),
  ),
  ground (arith, o critical (λ x. cc), o high (λ x. cc)),
)
select-only held p low id e h o = (
  (
    ([], o critical (λ x. cc)),
    (([], o high (λ x. cc)), (([], o normal (λ x. cc)), ((id ∷ [], h), tt))),
  ),
  ground (arith, o critical (λ x. cc), o high (λ x. cc), o normal (λ x. cc)),
)

abbrev lower : List Priority
lower = priority_high ∷ priority_normal ∷ priority_low ∷ []

select-lower :
    (held : Key → Entry)
    → ((l : Level) → l ≢ critical → held (queue l) ≡ missing)
    → HoldLists held lower × (select held lower ≡ none)
unfolding select queue_key
select-lower held o = (
  (([], o high (λ x. cc)), (([], o normal (λ x. cc)), (([], o low (λ x. cc)), tt))),
  ground (arith, o high (λ x. cc), o normal (λ x. cc), o low (λ x. cc)),
)

module _ (w : World) (r : Redis w) (j : Codec) (laws : Laws w r) where
  open w use {S, Ctx}
  open laws use {at}

  -- A task of a known priority that is queued into empty queues and whose JSON text decodes to it
  -- is what the next Dequeue returns, with the connection up, and the queues are empty again.
  pub dequeue-enqueue :
      (ctx ctx' : Ctx) (t : Task) (l : Level) (d : String) (s : S)
      → let s1 = (enqueue w r j ctx (some t) s).1 in
        IsUp w r laws (dequeue_ctx w r j laws ctx' s1)
        → AllEmpty (at s)
        → queue_key t.priority ≡ queue l
        → j.marshal t ≡ some d
        → j.unmarshal d ≡ some t
        → (enqueue w r j ctx (some t) s).0 ≡ ok tt
        → ((dequeue w r j ctx' s1).0 ≡ ok (some t)) × AllEmpty (at (dequeue w r j ctx' s1).1)
  dequeue-enqueue ctx ctx' t l d s up o e m u h = (
    v.0,
    λ k. elim (Level-discrete k l) [
      | yes a ↦ rw (a, ← queue_key-level_of l) v.1.popped
      | no n ↦
          v.1.others_kept (queue k) (λ x. other k n (x ∙ queue_key-level_of l)) (λ x. cc) (λ x. cc)
          ∙ rest_empty k n
    ],
  )
    where
      q : Queued w r j laws t s (enqueue w r j ctx (some t) s).1
      q = enqueue-Queued w r j laws ctx t s h

      same_text : q.stored ≡ d
      same_text = cc (q.marshalled, m)

      other : (k : Level) → k ≢ l → queue k ≢ queue l
      other k n x = n (cc)

      rest_empty : (k : Level) → k ≢ l → at (enqueue w r j ctx (some t) s).1 (queue k) ≡ missing
      rest_empty k n = q.others_kept k (λ x. other k n (x ∙ e)) ∙ o k

      alone : at (enqueue w r j ctx (some t) s).1 (queue l) ≡ items (t.id ∷ [])
      alone =
          ap (at (enqueue w r j ctx (some t) s).1) (sym e)
          ∙ q.appended
          ∙ ap (λ x. items (items_of x ++ (t.id ∷ []))) (ap (at s) e ∙ o l)

      v :
          Delivers w r j laws
            (dequeue w r j ctx' (enqueue w r j ctx (some t) s).1)
            (level_of l)
            t.id
            []
            t
            (enqueue w r j ctx (some t) s).1
      v =
          let (lists, found) = select-only _ t.priority l t.id e alone rest_empty in
          dequeue-select w r j laws ctx' _ (level_of l) t.id [] d t up lists found
            (q.data_kept ∙ ap text same_text) u

  deliver-missing :
      (c : Ctx) (up : IsUp w r laws c) (q : Key) (id : String) (next : M S Error (Option Task))
      (s : S)
      → at s (task id) ≡ missing
      → deliver w r j c q id next s ≡ next (r.get c (task id) s).1
  unfolding deliver
  deliver-missing c up q id next s e = ground (arith, get_missing w r j laws c up (task id) s e)

  -- An id whose task data is gone is dropped, and with it the turn of its whole queue: with the
  -- connection up, a Dequeue that meets such an id at the head of the critical queue, the other
  -- queues being empty, returns nil, whatever ids wait behind it.
  pub dequeue-stale :
      (ctx : Ctx) (s : S) (id : String) (behind : List String)
      → IsUp w r laws (dequeue_ctx w r j laws ctx s)
      → at s (queue critical) ≡ items (id ∷ behind)
      → at s (task id) ≡ missing
      → ((l : Level) → l ≢ critical → at s (queue l) ≡ missing)
      → ((dequeue w r j ctx s).0 ≡ ok none)
        × (at (dequeue w r j ctx s).1 (queue critical) ≡ of_items behind)
  unfolding dequeue queue_key
  dequeue-stale ctx s id behind up h g o =
      rw
        (
          dequeue_from-hit w r j laws c up priority_critical lower s id behind h,
          deliver-missing c up (queue critical) id (dequeue_from w r j c lower) s1 gone,
        )
        (
          rest.0,
          ap (λ f. f (queue critical)) rest.1
              ∙ laws.get_frame c (task id) s1 (queue critical)
              ∙ (lpop_items w r laws c up (queue critical) s id behind h).1,
        )
    where
      c : Ctx
      c = dequeue_ctx w r j laws ctx s

      s1 : S
      s1 = (r.lpop c (queue critical) s).1

      gone : at s1 (task id) ≡ missing
      gone = laws.lpop_frame c (queue critical) s (task id) (λ x. cc) ∙ g

      empty : (l : Level) → l ≢ critical → at (r.get c (task id) s1).1 (queue l) ≡ missing
      empty l n =
          laws.get_frame c (task id) s1 (queue l)
          ∙ laws.lpop_frame c (queue critical) s (queue l) (λ x. n (cc))
          ∙ o l n

      rest :
          ((dequeue_from w r j c lower (r.get c (task id) s1).1).0 ≡ ok none)
          × (at (dequeue_from w r j c lower (r.get c (task id) s1).1).1
              ≡ at (r.get c (task id) s1).1)
      rest =
          let (lists, none') = select-lower (at (r.get c (task id) s1).1) empty in
          dequeue_from-empty w r j laws c up lower _ lists none'
