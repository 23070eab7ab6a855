-- ===== src/Queue/RedisQueue/Refinement/Keeping.antt =====
-- What leaves the lines of internal/queue/redis.go as they are: changes to other keys than a queue or a
-- task's data, and the burial of a task.
use spool.Prelude.{◌≡◌, ◌≢◌, refl, ◌∙◌, String, some, List, false, []}
use spool.Env.{World}
use spool.Task.{Task}
use spool.Redis.{Redis}
use spool.Redis.Keys.{Key, Level, queue, task, is_stored}
use spool.Redis.Laws.{Laws, IsUp, Entry}
use spool.Queue.RedisQueue.{Codec, nack}
use spool.Queue.RedisQueue.Admin.{enqueue_dlq}
use spool.Queue.RedisQueue.Admin.DeadLetters.{enqueue_dlq-frame}
use spool.Queue.RedisQueue.Settling.{nack-Gone}
use spool.Queue.RedisQueue.Lines.{All}
use spool.Queue.RedisQueue.Refinement.Parts.{Represents}
use spool.Queue.RedisQueue.Refinement.Steps.{Stands, Saved-kept, Saved-kept_but}

-- The lines stand where the queues and the data of tasks are as they were; that nothing is taken is
-- all that is said of the tasks that a worker has.
pub kept-Represents :
    (j : Codec) (held held' : Key → Entry) (q : Level → List Task) (ts : List Task)
    → ((k : Key) → is_stored k ≡ false → held' k ≡ held k)
    → Represents j held (record { waiting = q; taken = ts })
    → Represents j held' (record { waiting = q; taken = [] })
kept-Represents j held held' q ts same v = record {
  listed = λ l. same (queue l) refl ∙ v.listed l;
  saved = λ l. Saved-kept j held held' (q l) (λ t a. same (task t.id) refl) (v.saved l);
  taken_saved = tt;
}

module _ (w : World) (r : Redis w) (j : Codec) (laws : Laws w r) where
  open w use {S, Ctx}
  open laws use {at}

  -- A task that is given up: EnqueueDLQ and then Nack without a requeue, for an id that no waiting task has,
  -- leave the lines as they are. The connection is up for the Nack.
  pub buried-Represents :
      (ctx : Ctx) (t : Task) (reason id : String) (s : S) (q : Level → List Task)
      → let s' = (enqueue_dlq w r j ctx (some t) reason s).1 in
        IsUp w r laws ctx
        → id ≢ ""
        → ((l : Level) → All (λ (u : Task). u.id ≢ id) (q l))
        → Stands w r j laws s (record { waiting = q; taken = [] })
        → Stands w r j laws (nack w r j ctx id false s').1 (record { waiting = q; taken = [] })
  buried-Represents ctx t reason id s q up named waits v =
      let s' = (enqueue_dlq w r j ctx (some t) reason s).1 in
      let gone = (nack-Gone w r j laws ctx id s' up named).1 in
      record {
        listed = λ l.
            gone.others_kept (queue l) (λ x. cc) (λ x. cc) (λ n x. cc)
            ∙ enqueue_dlq-frame w r j laws ctx t reason s (queue l) (λ x. cc) (λ x. cc) (λ x. cc)
            ∙ v.listed l;
        saved = λ l.
            Saved-kept_but j (at s) (at (nack w r j ctx id false s').1) id (q l)
              (λ u n.
                gone.others_kept (task u.id) (λ x. cc) (λ x. n (cc)) (λ m x. cc)
                ∙ enqueue_dlq-frame w r j laws ctx t reason s (task u.id) (λ x. cc) (λ x. cc)
                    (λ x. cc))
              (waits l) (v.saved l);
        taken_saved = tt;
      }
