-- ===== src/Worker/Polling/Counters.antt =====
-- The counters of internal/worker/worker.go against the polls that they count.
use spool.Prelude.{
  ltb_ℤ, ◌∙◌, Bool, true, false, if◌then◌else◌, ℕ, ◌+◌, ◌<◌, ◌≡◌, refl, Bool-cases, inl, inr,
  String, Option, none, some, pos, arith, ◌+ℤ◌, wrap64, str_eq,
}
use spool.Env.{World}
use spool.Effect.{Result, ok, err}
use spool.Task.{Task, mark_failed, mark_started, should_retry, state_retrying}
use spool.Task.Registry.{Registry}
use spool.Queue.{Queue}
use spool.Storage.{Storage}
use spool.Worker.{Worker}
use spool.Worker.Polling.{
  Format, handle_task_failure, poll_and_execute, settle, execute_task, save_task,
}
use spool.Worker.Polling.Outcomes.{succeeds, limited, execute_task-succeeds}
use spool.Queue

add_one : (a : ℕ) → a < 9223372036854775807 → wrap64 (pos a +ℤ pos 1) ≡ pos (a + 1)
unfolding wrap64 ◌+ℤ◌
add_one a h = ground arith

mark_failed-retrying :
    (t : Task) (text : String) (n : ℕ)
    → str_eq (mark_failed t text n).state state_retrying ≡ should_retry t
unfolding mark_failed should_retry
mark_failed-retrying t text n = elim (Bool-cases (ltb_ℤ t.retry_count t.max_retries)) [
  | inl e ↦ rw e refl
  | inr e ↦ rw e refl
]

module _ (w : World) (f : Format) (registry : Registry w) (q : Queue w)
    (storage : Option (Storage w)) where
  open w use {S, Ctx, now}

  -- The counters of a worker hold a, b and c.
  pub record Counts (v : Worker) (a b c : ℕ) : Type 0 where
    pub processed : v.tasks_processed ≡ pos a
    pub failed : v.tasks_failed ≡ pos b
    pub retried : v.tasks_retried ≡ pos c

  -- How a poll ends: nothing was taken, or the handler succeeded, or the task failed.
  pub data Ending : Type 0 where
    idle succeeded : Ending
    failed_with : Task → Ending

  abbrev ending_of : Task → Bool → Ending
  ending_of t true = succeeded
  ending_of t false = failed_with t

  -- The state in which the handler of a taken task is called.
  abbrev begun : Ctx → Task → S → S
  begun ctx t s = save_task w f registry q storage ctx (mark_started t (now s)) s

  abbrev ending_with : Ctx → Result Queue.Error (Option Task) → S → Ending
  ending_with ctx (err e) s = idle
  ending_with ctx (ok none) s = idle
  ending_with ctx (ok (some t)) s =
      let t' = mark_started t (now s) in
      let s' = begun ctx t s in
      ending_of t (succeeds w registry (limited w f registry q storage ctx t' s') t' s')

  abbrev pub ending : Ctx → S → Ending
  ending ctx s = let (found, s1) = q.dequeue ctx s in ending_with ctx found s1

  -- What a poll with this ending leaves of the counters a, b and c.
  abbrev pub Counted : Worker → Ending → ℕ → ℕ → ℕ → Type 0
  Counted v idle a b c = Counts v a b c
  Counted v succeeded a b c = Counts v (a + 1) b c
  Counted v (failed_with t) a b c = Counts v a (b + 1) (if should_retry t then c + 1 else c)

  failure-Counts :
      (v : Worker) (ctx : Ctx) (t u : Task) (text : String) (s : S) (a b c : ℕ)
      → Counts v a b c
      → c < 9223372036854775807
      → should_retry u ≡ should_retry t
      → Counts
          (handle_task_failure w f registry q storage v ctx u text s).1
          a
          b
          (if should_retry t then c + 1 else c)
  unfolding handle_task_failure
  failure-Counts v ctx t u text s a b c k h same =
      let told = mark_failed-retrying u text (now s) ∙ same in
      elim (Bool-cases (should_retry t)) [
        | inl e ↦
            rw (told, e)
              (record {
                processed = k.processed;
                failed = k.failed;
                retried = ground (arith, k.retried, add_one c h);
              })
        | inr e ↦ rw (told, e) k
      ]

  settle-succeeded :
      (v : Worker) (ctx : Ctx) (u : Task) (s : S) (a b c : ℕ)
      → Counts v a b c
      → a < 9223372036854775807
      → Counted (settle w f registry q storage v ctx u none s).1 succeeded a b c
  unfolding settle
  settle-succeeded v ctx u s a b c k h = record {
    processed = ground (arith, k.processed, add_one a h);
    failed = k.failed;
    retried = k.retried;
  }

  settle-failed :
      (v : Worker) (ctx : Ctx) (t u : Task) (text : String) (s : S) (a b c : ℕ)
      → Counts v a b c
      → (b < 9223372036854775807) × (c < 9223372036854775807)
      → should_retry u ≡ should_retry t
      → Counted (settle w f registry q storage v ctx u (some text) s).1 (failed_with t) a b c
  unfolding settle
  settle-failed v ctx t u text s a b c k h same =
      failure-Counts (record v { tasks_failed = wrap64 (v.tasks_failed +ℤ pos 1) }) ctx t u text s a
        (b + 1) c
        (record {
          processed = k.processed;
          failed = ground (arith, k.failed, add_one b h.0);
          retried = k.retried;
        })
        h.1 same

  -- The counters after the execution of a task that was taken in the state s.
  executed-Counted :
      (v : Worker) (ctx : Ctx) (t : Task) (s : S) (a b c : ℕ)
      → Counts v a b c
      → (a < 9223372036854775807) × (b < 9223372036854775807) × (c < 9223372036854775807)
      → let (failure, u, s') =
          execute_task w f registry q storage ctx (mark_started t (now s)) (begun ctx t s) in
        Counted
          (settle w f registry q storage v ctx u failure s').1
          (ending_with ctx (ok (some t)) s)
          a
          b
          c
  unfolding mark_started should_retry
  executed-Counted v ctx t s a b c k h =
      let t' = mark_started t (now s) in
      elim (execute_task-succeeds w f registry q storage ctx t' (begun ctx t s)) [
        | inl (good, quiet) ↦ rw (good, quiet) (settle-succeeded v ctx _ _ a b c k h.0)
        | inr (bad, (text, told, left)) ↦
            rw (bad, told, left) (settle-failed v ctx t' t' text _ a b c k (h.1, h.2) refl)
      ]

  -- A poll that takes no task leaves the counters alone. One that takes a task counts it as processed
  -- if a handler is registered for its type and returns an output that has a JSON text, and as failed
  -- otherwise; a retry is counted for a failed task whose retries last, and for no other. The counters
  -- are below 2^63 - 1 before.
  pub poll_and_execute-Counted :
      (v : Worker) (ctx : Ctx) (s : S) (a b c : ℕ)
      → Counts v a b c
      → (a < 9223372036854775807) × (b < 9223372036854775807) × (c < 9223372036854775807)
      → Counted (poll_and_execute w f registry q storage v ctx s).1 (ending ctx s) a b c
  unfolding poll_and_execute
  poll_and_execute-Counted v ctx s a b c k h = go (q.dequeue ctx s).0 refl
    where
      go :
          (found : Result Queue.Error (Option Task))
          → (q.dequeue ctx s).0 ≡ found
          → Counted (poll_and_execute w f registry q storage v ctx s).1 (ending ctx s) a b c
      go (ok (some t)) e =
          rw (e, poll_and_execute) (executed-Counted v ctx t (q.dequeue ctx s).1 a b c k h)
      go (ok none) e = rw (e, poll_and_execute) k
      go (err x) e = rw (e, poll_and_execute) k
