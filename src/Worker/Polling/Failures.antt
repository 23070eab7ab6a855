-- ===== src/Worker/Polling/Failures.antt =====
-- A failed task of internal/worker/worker.go over the Redis queue: it is queued again, or it is a
-- dead letter, and it is never lost.
use spool.Prelude.{
  ℕ, ◌≡◌, ◌≢◌, refl, sym, ap, subst, ◌∙◌, true, false, String, Option, some, List, [], ◌∷◌,
  ◌++◌ as append, ℤ, str_eq,
}
use Prim.Native.String.{◌++◌}
use spool.Queue.RedisQueue.Admin.DeadLetters.{
  dead_letters, dead_letters-enqueue_dlq, enqueue_dlq-total,
}
use spool.Queue.RedisQueue.Settling.{Gone, nack-Gone}
use spool.Env.{World}
use spool.Effect.{Result, ok, err}
use spool.Task.{Task, mark_failed, state_retrying, get_retry_delay, should_retry}
use spool.Task.Registry.{Registry}
use spool.Redis.{Redis}
use spool.Redis.Keys.{
  Key, Level, queue, dlq_tasks, task, processing, is_stored, queue_key-is_queue,
  not_stored_of_is_queue,
}
use spool.Redis.Laws.{Laws, IsUp, HoldsList, missing, items, items_of}
use spool.Queue.{Queue}
use spool.Queue
use spool.Queue.RedisQueue.{Codec, dead_lettered, nack}
use spool.Queue.RedisQueue.Admin.{redis_queue, enqueue_dlq, decode_all}
use spool.Queue.RedisQueue.Enqueueing.{Queued, enqueue-Queued}
use spool.Storage.{Storage}
use spool.Worker.{Worker}
use spool.Worker.Polling.{Format, returns_nil, handle_task_failure, save_task, to_poll}

nil_from_ok : (x : Result Queue.Error (Unit {0})) → to_poll x ≡ returns_nil → x ≡ ok tt
nil_from_ok (ok tt) h = refl
nil_from_ok (err e) h = cc

module _ (w : World) (f : Format) (r : Redis w) (j : Codec) (laws : Laws w r) (order : List Level)
    (registry : Registry w) (storage : Option (Storage w)) where
  open w use {S, Ctx, now, sleep}
  open laws use {at}

  abbrev pub q : Queue w
  q = redis_queue w r j order

  -- Two states of the server that agree on the queue's keys.
  abbrev pub Same : S → S → Type 0
  Same s' s = (k : Key) → is_stored k ≡ false → at s' k ≡ at s k

  -- While the task store saves and the worker sleeps, the queue's keys are left alone.
  pub record IsUndisturbed : Type 0 where
    pub saving : (ctx : Ctx) (t : Task) (s : S) → Same (save_task w f registry q storage ctx t s) s
    pub sleeping : (d : ℤ) (s : S) → Same (sleep d s) s

  Queued-source :
      (t : Task) (s s1 s' : S) → Same s1 s → Queued w r j laws t s1 s' → Queued w r j laws t s s'
  Queued-source t s s1 s' e v = record {
    stored = v.stored;
    marshalled = v.marshalled;
    data_kept = v.data_kept;
    appended =
        v.appended
        ∙ ap (λ h. items (append (items_of h) (t.id ∷ [])))
            (e _ (not_stored_of_is_queue _ (queue_key-is_queue t.priority)));
    others_kept = λ l n. v.others_kept l n ∙ e (queue l) refl;
  }

  pub mark_failed-retrying :
      (t : Task) (message : String) (n : ℕ)
      → should_retry t ≡ true
      → str_eq (mark_failed t message n).state state_retrying ≡ true
  unfolding mark_failed should_retry
  mark_failed-retrying t message n h = rw h

  pub mark_failed-dead :
      (t : Task) (message : String) (n : ℕ)
      → should_retry t ≡ false
      → str_eq (mark_failed t message n).state state_retrying ≡ false
  unfolding mark_failed should_retry
  mark_failed-dead t message n h = rw h

  -- A task with retries left whose failure is handled with nil is back at the end of its queue, with
  -- the failure recorded in it.
  pub handle_task_failure-retry :
      (v : Worker) (ctx : Ctx) (t : Task) (message : String) (s : S)
      → IsUndisturbed
      → should_retry t ≡ true
      → (handle_task_failure w f registry q storage v ctx t message s).0 ≡ returns_nil
      → Queued w r j laws
          (mark_failed t message (now s))
          s
          (handle_task_failure w f registry q storage v ctx t message s).2
  unfolding handle_task_failure redis_queue
  handle_task_failure-retry v ctx t message s u h k =
      let t' = mark_failed t message (now s) in
      let s1 = save_task w f registry q storage ctx t' s in
      let s2 = sleep (get_retry_delay t') s1 in
      let again = mark_failed-retrying t message (now s) h in
      let same : Same s2 s = λ x y. u.sleeping _ s1 x y ∙ u.saving ctx t' s x y in
      rw again (
        Queued-source t' s s2 _ same
          (enqueue-Queued w r j laws ctx t' s2 (nil_from_ok _ (rw again at k))))

  -- The reason that is given for a dead letter.
  abbrev pub reason : Task → String → String
  reason t message =
      "Exceeded max retries (" ++ (f.int_text t.max_retries ++ ("). Last error: " ++ message))

  -- With the connection up, a task without retries left is handled with nil: it is the last of the
  -- dead letters, in the state dead_letter and with the reason as its error, its data is gone, and
  -- it is tracked no more.
  pub handle_task_failure-dead :
      (v : Worker) (ctx : Ctx) (t : Task) (message : String) (s : S) (d : String)
      → let t' = mark_failed t message (now s) in
        let dead = dead_lettered t' (reason t' message) in
        let (result, v', s') = handle_task_failure w f registry q storage v ctx t message s in
        IsUndisturbed
        → IsUp w r laws ctx
        → should_retry t ≡ false
        → t.id ≢ ""
        → HoldsList (at s dlq_tasks)
        → j.marshal dead ≡ some d
        → j.unmarshal d ≡ some dead
        → (result ≡ returns_nil)
          × (dead_letters w r j laws s' ≡ append (dead_letters w r j laws s) (dead ∷ []))
          × (at s' (task t.id) ≡ missing)
          × (at s' (processing t.id) ≡ missing)
  unfolding handle_task_failure redis_queue
  handle_task_failure-dead v ctx t message s d u up h n list m e =
      rw (mark_failed-dead t message (now s) h) (
        ap to_poll nacked.0,
        ap (λ x. decode_all j (items_of x))
              (gone.others_kept dlq_tasks (λ x. cc) (λ x. cc) (λ k x. cc))
            ∙ dead_letters-enqueue_dlq w r j laws ctx t' (reason t' message) s1 d m e queued
            ∙ ap
                (λ x.
                  append (decode_all j (items_of x)) (dead_lettered t' (reason t' message) ∷ []))
                same,
        gone.no_data,
        gone.untracked,
      )
    where
      t' : Task
      t' = mark_failed t message (now s)

      s1 : S
      s1 = save_task w f registry q storage ctx t' s

      same : at s1 dlq_tasks ≡ at s dlq_tasks
      same = u.saving ctx t' s dlq_tasks refl

      queued : (enqueue_dlq w r j ctx (some t') (reason t' message) s1).0 ≡ ok tt
      queued = enqueue_dlq-total w r j laws ctx t' _ s1 d up m (subst HoldsList (sym same) list)

      s2 : S
      s2 = (enqueue_dlq w r j ctx (some t') (reason t' message) s1).1

      nacked :
          ((nack w r j ctx t.id false s2).0 ≡ ok tt)
          × Gone w r j laws t.id s2 (nack w r j ctx t.id false s2).1
      nacked = nack-Gone w r j laws ctx t.id s2 up n

      gone : Gone w r j laws t.id s2 (nack w r j ctx t.id false s2).1
      gone = nacked.1
