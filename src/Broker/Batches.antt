-- ===== src/Broker/Batches.antt =====
-- Batches of internal/broker/broker.go, on any queue and on the queue of internal/queue/redis.go.
use spool.Prelude.{
  suc, ◌∙◌, sym, subst, ℕ, ◌≤◌, ◌≡◌, refl, ap, String, Bool, true, some, List, [], ◌∷◌, length,
  arith,
}
use spool.Env.{World}
use spool.Effect.{Result, ok, err}
use spool.Task.{Task}
use spool.Http.{Request, json, blank, with_cors}
use spool.Queue.{Queue}
use spool.Queue
use spool.Redis.{Redis}
use spool.Redis.Laws.{Laws}
use spool.Redis.Keys.{Level}
use spool.Queue.RedisQueue.{Codec, enqueue}
use spool.Queue.RedisQueue.Admin.{redis_queue}
use spool.Queue.RedisQueue.Lines.{Lines, Call, enqueues, answer, answers}
use spool.Queue.RedisQueue.Refinement.Steps.{Stands, enqueue-Represents}
use spool.Queue.RedisQueue.Refinement.Histories.{StaysUp, AreAllowed}
use spool.Broker.{
  Broker, Decoder, Reply, batch, enqueue_each, submit_each, handle_batch_submit, route, serve,
}

-- A request for the tasks of a body.
abbrev pub posts_batch : {B C : Type 0} → B → C → Request B C
posts_batch body ctx = record { method = "POST"; path = "/api/tasks/batch"; body = body; ctx = ctx }

abbrev pub ids_of : List Task → List String
ids_of [] = []
ids_of (t ∷ ts) = t.id ∷ ids_of ts

abbrev pub all_enqueued : List Task → List Call
all_enqueued [] = []
all_enqueued (t ∷ ts) = enqueues t ∷ all_enqueued ts

length-ids_of : (ts : List Task) → length (ids_of ts) ≡ length ts
length-ids_of [] = refl
length-ids_of (t ∷ ts) = ap suc (length-ids_of ts)

one_more :
    {S : Type 0} (result : Result Queue.Error (Unit {0})) (t : Task) (ts : List Task)
    (rest : List String × S)
    → length rest.0 ≤ length ts
    → length
        (elim result as (λ _. List String × S) [ err e ↦ rest | ok _ ↦ (t.id ∷ rest.0, rest.1) ]).0
      ≤ suc (length ts)
one_more (err e) t ts rest h = omega arith
one_more (ok _) t ts rest h = omega arith

module _ (w : World) {B : Type 0} (d : Decoder B) (encodes : Reply → Bool) where
  open w use {S, Ctx}

  -- The queue takes no task, whatever its state.
  abbrev pub RefusesAll : Queue w → Type 0
  RefusesAll q =
      (ctx : Ctx) (t : Task) (s : S) → (e : Queue.Error) × ((q.enqueue ctx (some t) s).0 ≡ err e)

  enqueue_each-refused :
      (b : Broker w) (ctx : Ctx) (ts : List Task) (s : S)
      → RefusesAll b.queue
      → (enqueue_each w d encodes b ctx ts s).0 ≡ []
  unfolding enqueue_each
  enqueue_each-refused b ctx [] s refuses = refl
  enqueue_each-refused b ctx (t ∷ ts) s refuses =
      rw (enqueue_each, (refuses ctx t s).1)
        (enqueue_each-refused b ctx ts (b.queue.enqueue ctx (some t) s).1 refuses)

  enqueue_each-length :
      (b : Broker w) (ctx : Ctx) (ts : List Task) (s : S)
      → length (enqueue_each w d encodes b ctx ts s).0 ≤ length ts
  unfolding enqueue_each
  enqueue_each-length b ctx [] s = omega arith
  enqueue_each-length b ctx (t ∷ ts) s =
      let s1 = (b.queue.enqueue ctx (some t) s).1 in
      let rest = enqueue_each-length b ctx ts s1 in
      one_more (b.queue.enqueue ctx (some t) s).0 t ts (enqueue_each w d encodes b ctx ts s1) rest

  -- A batch that can be read is answered by the reply of its loop, under the status 201.
  serve_batch :
      (b : Broker w) (body : B) (ctx : Ctx) (ts : List Task) (s : S)
      → d.tasks body ≡ some ts
      → ((ids : List String) (n m : ℕ) → encodes (batch ids n m) ≡ true)
      → let (ids, s') = enqueue_each w d encodes b ctx ts s in
        let (res, s'') = serve w d encodes b (posts_batch body ctx) blank s in
        (res.status ≡ some 201)
        × (res.body ≡ json (batch ids (length ids) (length ts)) ∷ [])
        × (s'' ≡ s')
  unfolding serve with_cors route handle_batch_submit submit_each
  serve_batch b body ctx ts s e c = rw (e, c) (refl, refl, refl)

  -- A batch that can be read is answered with the status 201 and the ids of the tasks that the queue
  -- took, at most as many as the batch has, also if the queue took none of them.
  pub serve-batch_size :
      (b : Broker w) (body : B) (ctx : Ctx) (ts : List Task) (s : S)
      → d.tasks body ≡ some ts
      → ((ids : List String) (n m : ℕ) → encodes (batch ids n m) ≡ true)
      → let res = (serve w d encodes b (posts_batch body ctx) blank s).0 in
        (res.status ≡ some 201)
        × ((ids : List String) × (res.body ≡ json (batch ids (length ids) (length ts)) ∷ [])
            × (length ids ≤ length ts)
            × (RefusesAll b.queue → ids ≡ []))
  serve-batch_size b body ctx ts s e c =
      let (status, reply, _) = serve_batch b body ctx ts s e c in
      (
        status,
        (
          (enqueue_each w d encodes b ctx ts s).0,
          reply,
          enqueue_each-length b ctx ts s,
          λ refuses. enqueue_each-refused b ctx ts s refuses,
        ),
      )

  module _ (r : Redis w) (j : Codec) (laws : Laws w r) (order : List Level) where
    abbrev pub on_redis : Broker w → Broker w
    unfolding redis_queue
    on_redis b = record b { queue = redis_queue w r j order }

    enqueue_each-Represents :
        (b : Broker w) (ctx : Ctx) (ts : List Task) (s : S) (q : Lines)
        → StaysUp w r j laws ctx
        → Stands w r j laws s q
        → AreAllowed j (all_enqueued ts) q
        → let (ids, s') = enqueue_each w d encodes (on_redis b) ctx ts s in
          (ids ≡ ids_of ts) × Stands w r j laws s' (answers (all_enqueued ts) q).1
    unfolding enqueue_each on_redis redis_queue
    enqueue_each-Represents b ctx [] s q up v a = (refl, v)
    enqueue_each-Represents b ctx (t ∷ ts) s q up v a =
        let (done, v') = enqueue-Represents w r j laws ctx t s q (up.renewed _ s) v a.0 in
        let s1 = (enqueue w r j ctx (some t) s).1 in
        let (ids, v'') = enqueue_each-Represents b ctx ts s1 (answer (enqueues t) q).1 up v' a.1 in
        rw (enqueue_each, done) (cc ids, v'')

    -- The broker on a Redis queue that stays up takes every task of a batch, if the tasks have known
    -- priorities, JSON texts that decode to them and new ids: it answers 201 with all the ids in the
    -- order of the batch, and the tasks stand at the ends of their lines in this order.
    pub serve-batch_Stands :
        (b : Broker w) (body : B) (ctx : Ctx) (ts : List Task) (s : S) (q : Lines)
        → d.tasks body ≡ some ts
        → ((ids : List String) (n m : ℕ) → encodes (batch ids n m) ≡ true)
        → StaysUp w r j laws ctx
        → Stands w r j laws s q
        → AreAllowed j (all_enqueued ts) q
        → let (res, s') = serve w d encodes (on_redis b) (posts_batch body ctx) blank s in
          (res.status ≡ some 201)
          × (res.body ≡ json (batch (ids_of ts) (length ts) (length ts)) ∷ [])
          × Stands w r j laws s' (answers (all_enqueued ts) q).1
    serve-batch_Stands b body ctx ts s q e c up v a =
        let (status, reply, same) = serve_batch (on_redis b) body ctx ts s e c in
        let (ids, v') = enqueue_each-Represents b ctx ts s q up v a in
        (
          status,
          reply ∙ rw (ids, length-ids_of ts) refl,
          subst (λ s'. Stands w r j laws s' (answers (all_enqueued ts) q).1) (sym same) v',
        )
