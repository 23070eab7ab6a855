-- ===== src/Worker/Draining/Families.antt =====
-- The tasks that a worker is given, as internal/task/task.go fails them: each failure leaves fewer
-- retries, and a task that may be retried stays one that the queue can carry.
use spool.Prelude.{
  ℕ, ◌+◌, ◌-◌, ◌≤◌, ◌<◌, ◌≡◌, ◌≢◌, String, true, some, ℤ, pos, pos_part, neg_part, ◌+ℤ◌, +ℤ_parts,
  wrap64, wrap64_id, ltb_ℤ, arith,
}
use spool.Task.{Task, mark_started, mark_completed, mark_failed, should_retry}
use spool.Redis.Keys.{Level}
use spool.Queue.RedisQueue.{Codec}
use spool.Queue.RedisQueue.Lines.{line_of}
use spool.Queue.RedisQueue.Refinement.Steps.{Encodable}

-- What the counts of a task lie in.
abbrev pub IsInt64 : ℤ → Type 0
IsInt64 a = (pos_part a < 9223372036854775808) × (neg_part a ≤ 9223372036854775808)

-- How often a task may still be executed: once, and once for each retry that is left.
abbrev pub executions_left : Task → ℕ
executions_left t =
    1
    + ((pos_part t.max_retries + neg_part t.retry_count)
        - (pos_part t.retry_count + neg_part t.max_retries))

count_failed :
    (count max : ℤ)
    → IsInt64 count
    → IsInt64 max
    → ltb_ℤ count max ≡ true
    → wrap64 (count +ℤ pos 1) ≡ count +ℤ pos 1
count_failed count max a b h =
    wrap64_id (count +ℤ pos 1) (ground (arith, +ℤ_parts count (pos 1), h, a, b))
      (ground (arith, +ℤ_parts count (pos 1), h, a, b))

-- A failure that is to be retried takes one of the retries.
pub executions_left-mark_failed :
    (t : Task) (message : String) (now : ℕ)
    → IsInt64 t.retry_count
    → IsInt64 t.max_retries
    → should_retry t ≡ true
    → executions_left (mark_failed t message now) + 1 ≡ executions_left t
unfolding should_retry mark_failed
executions_left-mark_failed t message now a b h =
    rw (h, count_failed t.retry_count t.max_retries a b h)
      (ground (arith, +ℤ_parts t.retry_count (pos 1), h))

-- Tasks that the queue can carry: each has an id, a known priority, counts that fit an int64 and a
-- JSON text that decodes to it; starting and completing it keeps that, and so does a failure after
-- which it is retried.
pub record IsCarried (j : Codec) (P : Task → Type 0) : Type 0 where
  pub identified : (t : Task) → P t → t.id ≢ ""
  pub prioritised : (t : Task) → P t → (l : Level) × (line_of t.priority ≡ some l)
  pub counted : (t : Task) → P t → IsInt64 t.retry_count × IsInt64 t.max_retries
  pub encodable : (t : Task) → P t → Encodable j t
  pub started : (t : Task) (now : ℕ) → P t → P (mark_started t now)
  pub completed : (t : Task) (now : ℕ) → P t → P (mark_completed t now)
  pub retried :
      (t : Task) (message : String) (now : ℕ)
      → should_retry t ≡ true
      → P t
      → P (mark_failed t message now)

-- A task with an id, a known priority and counts that fit an int64.
abbrev pub IsPlain : Task → Type 0
IsPlain t =
    (t.id ≢ "")
    × ((l : Level) × (line_of t.priority ≡ some l))
    × IsInt64 t.retry_count
    × IsInt64 t.max_retries

count-IsInt64 :
    (count max : ℤ)
    → IsInt64 count
    → IsInt64 max
    → ltb_ℤ count max ≡ true
    → IsInt64 (wrap64 (count +ℤ pos 1))
count-IsInt64 count max a b h = rw (count_failed count max a b h) (
  ground (arith, +ℤ_parts count (pos 1), h, a, b),
  ground (arith, +ℤ_parts count (pos 1), h, a, b),
)

failed-IsPlain :
    (t : Task) (message : String) (now : ℕ)
    → should_retry t ≡ true
    → IsPlain t
    → IsPlain (mark_failed t message now)
unfolding should_retry mark_failed
failed-IsPlain t message now h (named, level, count, max) =
    rw h (named, level, count-IsInt64 t.retry_count t.max_retries count max h, max)

-- Where each task's text decodes to it, plain tasks can be carried.
pub plain-IsCarried : (j : Codec) → ((t : Task) → Encodable j t) → IsCarried j IsPlain
unfolding mark_started mark_completed
plain-IsCarried j e = record {
  identified = λ t p. p.0;
  prioritised = λ t p. p.1;
  counted = λ t p. (p.2, p.3);
  encodable = λ t p. e t;
  started = λ t now p. p;
  completed = λ t now p. p;
  retried = failed-IsPlain;
}
