-- ===== src/Queue/RedisQueue/Admin/DeadLetters.antt =====
-- The dead letter queue of internal/queue/redis.go.
use spool.Prelude.{
  ◌≡◌, ◌≢◌, Option-cases, Bool-cases, inl, inr, refl, ap, ◌∙◌, String, some, List, [], ◌∷◌, ◌++◌,
  arith, true, false, ◌*◌, ◌/◌, pos,
}
use spool.Env.{World}
use spool.Effect.{ok}
use spool.Task.{Task, second}
use spool.Redis.{Redis}
use spool.Redis.Laws.{Laws, IsUp, HoldsList, items_of}
use spool.Redis.Keys.{Key, dlq_tasks, dlq_meta, stats, dlq}
use spool.Queue.RedisQueue.{Codec, dead_lettered, hour}
use spool.Queue.RedisQueue.Admin.{enqueue_dlq, decode_all}

-- Decoding keeps the order of what can be decoded.
pub decode_all-append :
    (j : Codec) (xs ys : List String) → decode_all j (xs ++ ys) ≡ decode_all j xs ++ decode_all j ys
unfolding decode_all
decode_all-append j [] ys = refl
decode_all-append j (x ∷ xs) ys = ground (arith, decode_all-append j xs ys)

module _ (w : World) (r : Redis w) (j : Codec) (laws : Laws w r) where
  open w use {S, Ctx}
  open laws use {at}

  -- The dead letters that the server holds, as GetDLQTasks decodes them.
  abbrev pub dead_letters : S → List Task
  dead_letters s = decode_all j (items_of (at s dlq_tasks))

  -- The two commands after the push, whose errors are not looked at.
  after_push : Ctx → Task → String → S → S
  after_push c t reason s =
      (r.incr c (stats dlq)
        (r.set c (dlq_meta t.id) (j.dead_letter_text t.id reason (w.now s / second) t.retry_count)
          (pos (30 * 24 * hour)) s).1).1

  after_push-frame :
      (c : Ctx) (t : Task) (reason : String) (s : S) (k : Key)
      → k ≢ dlq_meta t.id
      → k ≢ stats dlq
      → at (after_push c t reason s) k ≡ at s k
  unfolding after_push
  after_push-frame c t reason s k n m =
      laws.incr_frame c (stats dlq) _ k m ∙ laws.set_frame c (dlq_meta t.id) _ _ s k n

  enqueue_dlq_pushed :
      (c : Ctx) (t : Task) (reason : String) (s : S) (d : String)
      → j.marshal (dead_lettered t reason) ≡ some d
      → (r.rpush c dlq_tasks d s).0 ≡ true
      → (enqueue_dlq w r j c (some t) reason s).1
        ≡ after_push c t reason (r.rpush c dlq_tasks d s).1
  unfolding enqueue_dlq after_push
  enqueue_dlq_pushed c t reason s d m h = ground arith

  enqueue_dlq_refused :
      (c : Ctx) (t : Task) (reason : String) (s : S) (d : String)
      → j.marshal (dead_lettered t reason) ≡ some d
      → (r.rpush c dlq_tasks d s).0 ≡ false
      → (enqueue_dlq w r j c (some t) reason s).1 ≡ (r.rpush c dlq_tasks d s).1
  unfolding enqueue_dlq
  enqueue_dlq_refused c t reason s d m h = ground arith

  -- EnqueueDLQ, whether it succeeds or not, changes the dead letters, the metadata of its own and a
  -- counter, and no other key.
  pub enqueue_dlq-frame :
      (c : Ctx) (t : Task) (reason : String) (s : S) (k : Key)
      → k ≢ dlq_tasks
      → k ≢ dlq_meta t.id
      → k ≢ stats dlq
      → at (enqueue_dlq w r j c (some t) reason s).1 k ≡ at s k
  unfolding enqueue_dlq
  enqueue_dlq-frame c t reason s k a b e =
      elim (Option-cases (j.marshal (dead_lettered t reason))) [
        | inl none_is ↦ rw (enqueue_dlq, none_is) refl
        | inr (d, some_is) ↦ elim (Bool-cases (r.rpush c dlq_tasks d s).0) [
          | inl pushed ↦ rw (enqueue_dlq_pushed c t reason s d some_is pushed) (
              after_push-frame c t reason (r.rpush c dlq_tasks d s).1 k b e
              ∙ laws.rpush_frame c dlq_tasks d s k a)
          | inr refused ↦
              rw (enqueue_dlq_refused c t reason s d some_is refused)
                (laws.rpush_frame c dlq_tasks d s k a)
        ]
      ]

  enqueue_dlq-eq-ok :
      (c : Ctx) (t : Task) (reason : String) (s : S) (d : String)
      → j.marshal (dead_lettered t reason) ≡ some d
      → (enqueue_dlq w r j c (some t) reason s).0 ≡ ok tt
      → ((r.rpush c dlq_tasks d s).0 ≡ true)
        × ((enqueue_dlq w r j c (some t) reason s).1
            ≡ after_push c t reason (r.rpush c dlq_tasks d s).1)
  unfolding enqueue_dlq after_push
  enqueue_dlq-eq-ok c t reason s d m h = ground arith

  -- If EnqueueDLQ returns nil for a task whose JSON text decodes to it, the dead letters are those
  -- from before and then the task, in the state dead_letter and with the reason as its error.
  pub dead_letters-enqueue_dlq :
      (c : Ctx) (t : Task) (reason : String) (s : S) (d : String)
      → j.marshal (dead_lettered t reason) ≡ some d
      → j.unmarshal d ≡ some (dead_lettered t reason)
      → (enqueue_dlq w r j c (some t) reason s).0 ≡ ok tt
      → dead_letters (enqueue_dlq w r j c (some t) reason s).1
        ≡ dead_letters s ++ (dead_lettered t reason ∷ [])
  unfolding decode_all
  dead_letters-enqueue_dlq c t reason s d m u h =
      let (pushed, shape) = enqueue_dlq-eq-ok c t reason s d m h in
      ap (λ s'. dead_letters s') shape
      ∙ ap (λ e. decode_all j (items_of e))
          (after_push-frame c t reason _ dlq_tasks (λ e. cc) (λ e. cc)
            ∙ laws.rpush_ok c dlq_tasks d s pushed)
      ∙ decode_all-append j (items_of (at s dlq_tasks)) (d ∷ [])
      ∙ ap (λ xs. dead_letters s ++ xs) (ground arith)

  -- With the connection up, EnqueueDLQ returns nil for a task that has a JSON text.
  pub enqueue_dlq-total :
      (c : Ctx) (t : Task) (reason : String) (s : S) (d : String)
      → IsUp w r laws c
      → j.marshal (dead_lettered t reason) ≡ some d
      → HoldsList (at s dlq_tasks)
      → (enqueue_dlq w r j c (some t) reason s).0 ≡ ok tt
  unfolding enqueue_dlq
  enqueue_dlq-total c t reason s d up m h = ground (arith, m, up.rpush_up dlq_tasks d s h)
