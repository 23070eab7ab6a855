-- ===== src/Worker/Draining/Polls.antt =====
-- The polls of the loop of internal/worker/worker.go, against the lines of the queue: they empty it.
use spool.Prelude.{
  ℕ, ◌+◌, ◌-◌, ◌≤◌, ◌≡◌, refl, sym, ap, ◌∙◌, subst, String, Option, none, some, List, [], ◌∷◌,
  eq_iff, Option-cases, inl, inr, arith, wrap64, ◌+ℤ◌, pos,
}
use spool.Env.{World}
use spool.Effect.{ok}
use spool.Task.{Task, mark_started, mark_completed}
use spool.Task.Registry.{Registry}
use spool.Redis.{Redis}
use spool.Redis.Keys.{Level}
use spool.Redis.Laws.{Laws}
use spool.Queue.{Queue}
use spool.Queue.RedisQueue.{Codec, dequeue}
use spool.Queue.RedisQueue.Admin.{redis_queue}
use spool.Queue.RedisQueue.Lines.{All, put, first, by_urgency}
use spool.Queue.RedisQueue.Refinement.Parts.{select-some}
use spool.Queue.RedisQueue.Refinement.Taking.{put-All, ack-Represents, dequeue-none, dequeue-some}
use spool.Queue.RedisQueue.Refinement.Histories.{StaysUp}
use spool.Queue.RedisQueue.Refinement.Keeping.{kept-Represents}
use spool.Storage.{Storage}
use spool.Worker.{Worker}
use spool.Worker.Polling.{Format, settle, save_task, poll_and_execute, execute_task}
use spool.Worker.Polling.Executing.{IsQuiet, Executed, execute_task-Executed}
use spool.Worker.Polling.Failures.{IsUndisturbed}
use spool.Worker.Draining.Totals.{total, total-leave, total-empty, first-none, named, none_waits}
use spool.Worker.Draining.Families.{IsCarried, executions_left}
use spool.Worker.Draining.Settling.{Holds, Lowers, failure-Lowers, redis}

-- Of tasks with different ids, the others do not have the id of one.
left_alone :
    (id : String) (t : Task) (rest q : Level → List Task)
    → total (named id) rest + named id t ≡ total (named id) q
    → total (named id) q ≤ 1
    → t.id ≡ id
    → total (named id) rest ≡ 0
left_alone id t rest q e h same =
    let one : named id t ≡ 1 = rw ((eq_iff t.id id).1 same) refl in omega (arith, e, h, one)

module _ (w : World) (f : Format) (r : Redis w) (j : Codec) (laws : Laws w r) (order : List Level)
    (registry : Registry w) (storage : Option (Storage w)) (P : Task → Type 0) where
  open w use {S, Ctx, now}
  open laws use {at}

  abbrev q_redis : Queue w
  q_redis = redis w f r j laws order registry storage P

  abbrev HoldsLines : S → (Level → List Task) → Type 0
  HoldsLines = Holds w f r j laws order registry storage P

  abbrev LowersTo : S → (Level → List Task) → ℕ → Type 0
  LowersTo = Lowers w f r j laws order registry storage P

  -- What the loop's surroundings keep to: the connection is up, the queue's keys are left alone by
  -- the task store, the handlers and the sleeping, and the tasks are of a family that the queue can
  -- carry.
  pub record IsServed (ctx : Ctx) : Type 0 where
    pub up : StaysUp w r j laws ctx
    pub calm : IsUndisturbed w f r j laws order registry storage
    pub quiet : IsQuiet w f r j laws order registry storage
    pub carried : IsCarried j P

  settle-Lowers :
      (ctx : Ctx) (served : IsServed ctx) (v : Worker) (t : Task) (failure : Option String) (s : S)
      (q : Level → List Task)
      → P t
      → HoldsLines s q
      → total (named t.id) q ≡ 0
      → LowersTo (settle w f registry q_redis storage v ctx t failure s).2 q (executions_left t)
  unfolding settle redis_queue
  settle-Lowers ctx served v t (some text) s q p h free =
      failure-Lowers w f r j laws order registry storage P served.carried served.calm
        (record v { tasks_failed = wrap64 (v.tasks_failed +ℤ pos 1) }) ctx served.up t text s q p h
        free
  settle-Lowers ctx served v t none s q p h free =
      let s1 = save_task w f registry q_redis storage ctx (mark_completed t (now s)) s in
      record {
        lines = q;
        holds = record {
          stands =
              (ack-Represents w r j laws ctx t.id s1 (record { waiting = q; taken = [] })
                served.up.as_given
                (kept-Represents j (at s) (at s1) q [] (served.calm.saving ctx _ s) h.stands)
                (served.carried.identified t p, none_waits t.id q free)).1;
          within = h.within;
          distinct = h.distinct;
        };
        fewer = omega arith;
      }

  -- What is known of an executed task from what was known before.
  family_of_Executed : (t u : Task) (carried : IsCarried j P) → Executed t u → P t → P u
  family_of_Executed t u carried (inl e) p = subst P (sym e) p
  family_of_Executed t u carried (inr (n, e)) p = subst P (sym e) (carried.completed t n p)

  eq_of_Executed {ℓ} :
      {A : Type ℓ} (g : Task → A) (t u : Task)
      → ((n : ℕ) → g (mark_completed t n) ≡ g t)
      → Executed t u
      → g u ≡ g t
  eq_of_Executed g t u same (inl e) = ap g e
  eq_of_Executed g t u same (inr (n, e)) = ap g e ∙ same n

  -- Neither its start nor its execution changes the id of a task, or how often it may be executed.
  id_of_Executed : (t u : Task) (n : ℕ) → Executed (mark_started t n) u → u.id ≡ t.id
  unfolding mark_started mark_completed
  id_of_Executed t u n e = eq_of_Executed (λ (x : Task). x.id) (mark_started t n) u (λ m. refl) e

  left_of_Executed :
      (t u : Task) (n : ℕ) → Executed (mark_started t n) u → executions_left u ≡ executions_left t
  unfolding mark_started mark_completed
  left_of_Executed t u n e = eq_of_Executed executions_left (mark_started t n) u (λ m. refl) e

  -- A poll that takes the task t and leaves the lines q.
  taken-Lowers :
      (ctx : Ctx) (served : IsServed ctx) (v : Worker) (s : S) (q : Level → List Task) (t : Task)
      → P t
      → (dequeue w r j ctx s).0 ≡ ok (some t)
      → HoldsLines (dequeue w r j ctx s).1 q
      → total (named t.id) q ≡ 0
      → LowersTo (poll_and_execute w f registry q_redis storage v ctx s).2 q (executions_left t)
  unfolding poll_and_execute redis_queue
  taken-Lowers ctx served v s q t p found h free =
      let s1 = (dequeue w r j ctx s).1 in
      let t' = mark_started t (now s1) in
      let s2 = save_task w f registry q_redis storage ctx t' s1 in
      let ran = execute_task-Executed w f r j laws order registry storage ctx t' s2 served.quiet in
      let done = execute_task w f registry q_redis storage ctx t' s2 in
      let id = id_of_Executed t done.1 (now s1) ran.0 in
      rw (poll_and_execute, found)
        (subst (LowersTo _ q) (left_of_Executed t done.1 (now s1) ran.0) (
          settle-Lowers ctx served v done.1 done.0 done.2 q
            (family_of_Executed t' done.1 served.carried ran.0
              (served.carried.started t (now s1) p))
            (record {
              stands =
                  kept-Represents j (at s2) (at done.2) q [] ran.1 (
                    kept-Represents j (at s1) (at s2) q [] (served.calm.saving ctx t' s1) h.stands);
              within = h.within;
              distinct = h.distinct;
            })
            (subst (λ i. total (named i) q ≡ 0) (sym id) free)))

  -- The lines after a poll.
  pub record Polled (s : S) (q : Level → List Task) : Type 0 where
    pub lines : Level → List Task
    pub holds : HoldsLines s lines
    pub fewer : total executions_left lines ≤ total executions_left q - 1

  poll-none :
      (ctx : Ctx) (served : IsServed ctx) (v : Worker) (s : S) (q : Level → List Task)
      → HoldsLines s q
      → first q by_urgency ≡ none
      → Polled (poll_and_execute w f registry q_redis storage v ctx s).2 q
  unfolding poll_and_execute redis_queue
  poll-none ctx served v s q h e =
      let got =
        dequeue-none w r j laws ctx s (record { waiting = q; taken = [] }) (served.up.renewed _ s)
          h.stands e in
      rw (poll_and_execute, got.0)
        (record {
          lines = q;
          holds = record { stands = got.1; within = h.within; distinct = h.distinct };
          fewer = omega (arith, total-empty executions_left q (first-none q e));
        })

  poll-some :
      (ctx : Ctx) (served : IsServed ctx) (v : Worker) (s : S) (q : Level → List Task) (l : Level)
      (t : Task) (behind : List Task)
      → HoldsLines s q
      → first q by_urgency ≡ some (l, t, behind)
      → Polled (poll_and_execute w f registry q_redis storage v ctx s).2 q
  poll-some ctx served v s q l t behind h e =
      let got =
        dequeue-some w r j laws ctx s (record { waiting = q; taken = [] }) l t behind
          (served.up.renewed _ s) h.stands e in
      let line = (select-some (at s) q h.stands.listed by_urgency l t behind e).1 in
      let here = subst (All P) line (h.within l) in
      let rest = put q l behind in
      let free =
        left_alone t.id t rest q (total-leave (named t.id) q l t behind line) (h.distinct t.id)
          refl in
      let after =
        taken-Lowers ctx served v s rest t here.0 got.0
          (record {
            stands =
                kept-Represents j (at (dequeue w r j ctx s).1) (at (dequeue w r j ctx s).1) rest
                  (t ∷ []) (λ k x. refl) got.1;
            within = put-All P q l behind h.within here.1;
            distinct = λ id. omega (arith, total-leave (named id) q l t behind line, h.distinct id);
          })
          free in
      record {
        lines = after.lines;
        holds = after.holds;
        fewer = omega (arith, after.fewer, total-leave executions_left q l t behind line);
      }

  -- A poll of a queue that holds lines leaves it with fewer executions to come, if there are any.
  pub poll-Polled :
      (ctx : Ctx) (served : IsServed ctx) (v : Worker) (s : S) (q : Level → List Task)
      → HoldsLines s q
      → Polled (poll_and_execute w f registry q_redis storage v ctx s).2 q
  poll-Polled ctx served v s q h = elim (Option-cases (first q by_urgency)) [
    | inl e ↦ poll-none ctx served v s q h e
    | inr ((l, t, behind), e) ↦ poll-some ctx served v s q l t behind h e
  ]
