-- ===== src/Worker/Draining/Settling.antt =====
-- How internal/worker/worker.go settles a task that it has executed, against the lines of the queue: an
-- executed task leaves the queue or joins it with fewer retries left.
use spool.Prelude.{
  ℕ, ◌+◌, ◌≤◌, ◌≡◌, refl, sym, String, Option, some, List, [], str_eq, eq_iff, subst, Bool-cases,
  inl, inr, arith,
}
use spool.Env.{World}
use spool.Task.{Task, mark_failed, should_retry, get_retry_delay}
use spool.Task.Registry.{Registry}
use spool.Redis.{Redis}
use spool.Redis.Keys.{Level}
use spool.Redis.Laws.{Laws}
use spool.Effect.{ok}
use spool.Queue.{Queue}
use spool.Queue.RedisQueue.{Codec, enqueue}
use spool.Queue.RedisQueue.Admin.{redis_queue}
use spool.Queue.RedisQueue.Lines.{All, join}
use spool.Queue.RedisQueue.Refinement.Steps.{Stands, joined-All, enqueue-Represents}
use spool.Queue.RedisQueue.Refinement.Histories.{StaysUp}
use spool.Queue.RedisQueue.Refinement.Keeping.{kept-Represents, buried-Represents}
use spool.Storage.{Storage}
use spool.Worker.{Worker}
use spool.Worker.Polling.{Format, handle_task_failure, save_task}
use spool.Worker.Polling.Executing.{queue}
use spool.Worker.Polling.Failures.{IsUndisturbed, mark_failed-retrying, mark_failed-dead}
use spool.Worker.Draining.Totals.{total, total-join, named, AreDistinct, none_waits}
use spool.Worker.Draining.Families.{IsCarried, executions_left, executions_left-mark_failed}

named_le : (id : String) (t : Task) → named id t ≤ 1
named_le id t = ground arith

module _ (w : World) (f : Format) (r : Redis w) (j : Codec) (laws : Laws w r) (order : List Level)
    (registry : Registry w) (storage : Option (Storage w)) (P : Task → Type 0) where
  open w use {S, Ctx, now, sleep}
  open laws use {at}

  distinct_join :
      (id : String) (t : Task) (q : Level → List Task)
      → total (named id) (join t q) ≡ total (named id) q + named id t
      → total (named id) q ≤ 1
      → total (named t.id) q ≡ 0
      → total (named id) (join t q) ≤ 1
  distinct_join id t q e h free = elim (Bool-cases (str_eq t.id id)) [
    | inl same ↦
        (let none_is : total (named id) q ≡ 0 =
            subst (λ i. total (named i) q ≡ 0) ((eq_iff t.id id).0 same) free in
          omega (arith, e, none_is, named_le id t))
    | inr other ↦ (let zero_is : named id t ≡ 0 = rw other refl in omega (arith, e, h, zero_is))
  ]

  -- The server holds the lines q and no two tasks with one id, all of the family P.
  pub record Holds (s : S) (q : Level → List Task) : Type 0 where
    pub stands : Stands w r j laws s (record { waiting = q; taken = [] })
    pub within : (l : Level) → All P (q l)
    pub distinct : AreDistinct q

  -- The lines q', after a task that had n executions left is executed.
  pub record Lowers (s : S) (q : Level → List Task) (n : ℕ) : Type 0 where
    pub lines : Level → List Task
    pub holds : Holds s lines
    pub fewer : total executions_left lines + 1 ≤ total executions_left q + n

  abbrev pub redis : Queue w
  redis = queue w f r j laws order registry storage

  mark_failed-id : (t : Task) (text : String) (n : ℕ) → (mark_failed t text n).id ≡ t.id
  unfolding mark_failed
  mark_failed-id t text n = ground arith

  -- A task of the family that no waiting task shares its id with joins its line.
  enqueued-Lowers :
      (carried : IsCarried j P) (ctx : Ctx) (up : StaysUp w r j laws ctx) (t : Task) (s : S)
      (q : Level → List Task) (n : ℕ)
      → P t
      → Holds s q
      → total (named t.id) q ≡ 0
      → executions_left t + 1 ≡ n
      → ((enqueue w r j ctx (some t) s).0 ≡ ok tt) × Lowers (enqueue w r j ctx (some t) s).1 q n
  enqueued-Lowers carried ctx up t s q n p h free e =
      let (l, at_level) = carried.prioritised t p in
      let added =
        enqueue-Represents w r j laws ctx t s (record { waiting = q; taken = [] }) (up.renewed _ s)
          h.stands ((l, at_level), carried.encodable t p, none_waits t.id q free, tt) in
      (
        added.0,
        record {
          lines = join t q;
          holds = record {
            stands = added.1;
            within = joined-All P q t l at_level h.within p;
            distinct = λ id.
                distinct_join id t q (total-join (named id) q l t at_level) (h.distinct id) free;
          };
          fewer = omega (arith, total-join executions_left q l t at_level, e);
        },
      )

  pub failure-Lowers :
      (carried : IsCarried j P) (calm : IsUndisturbed w f r j laws order registry storage)
      (v : Worker) (ctx : Ctx) (up : StaysUp w r j laws ctx) (t : Task) (text : String) (s : S)
      (q : Level → List Task)
      → P t
      → Holds s q
      → total (named t.id) q ≡ 0
      → Lowers
          (handle_task_failure w f registry redis storage v ctx t text s).2
          q
          (executions_left t)
  unfolding handle_task_failure redis_queue
  failure-Lowers carried calm v ctx up t text s q p h free =
      let t' = mark_failed t text (now s) in
      let s1 = save_task w f registry redis storage ctx t' s in
      let kept = kept-Represents j (at s) (at s1) q [] (calm.saving ctx t' s) h.stands in
      let count = carried.counted t p in
      elim (Bool-cases (should_retry t)) [
        | inl again ↦
            rw (mark_failed-retrying w f r j laws order registry storage t text (now s) again)
              (enqueued-Lowers carried ctx up t' (sleep (get_retry_delay t') s1) q
                (executions_left t) (carried.retried t text (now s) again p)
                (record {
                  stands =
                      kept-Represents j (at s1) (at (sleep (get_retry_delay t') s1)) q []
                        (calm.sleeping _ s1) kept;
                  within = h.within;
                  distinct = h.distinct;
                })
                (subst (λ id. total (named id) q ≡ 0) (sym (mark_failed-id t text (now s))) free)
                (executions_left-mark_failed t text (now s) count.0 count.1 again)).1
        | inr last ↦
            rw (mark_failed-dead w f r j laws order registry storage t text (now s) last) (record {
              lines = q;
              holds = record {
                stands =
                    buried-Represents w r j laws ctx t' _ t.id s1 q up.as_given
                      (carried.identified t p) (none_waits t.id q free) kept;
                within = h.within;
                distinct = h.distinct;
              };
              fewer = omega arith;
            })
      ]
