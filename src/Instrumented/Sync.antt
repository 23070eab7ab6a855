-- ===== src/Instrumented/Sync.antt =====
-- What a tick of the sync of internal/worker/instrumented.go makes of the counters.
use spool.Prelude.{
  subst, ℕ, zero, suc, ◌+◌, ◌-◌, ◌≤◌, ◌<◌, ◌≡◌, refl, ◌∙◌, String, true, false, Option, none, some,
  ℤ, pos, arith, wrap32, wrap64, ◌+ℤ◌, ◌-ℤ◌, sub_ℕ, lookup, lookup-insert, eq_iff, Option-cases,
  inl, inr, has, Bool-cases,
}
use spool.Metrics.{
  Metrics, WorkerStats, update_stats, record_worker_task_completed, mark_worker_idle, add32,
  minus_one,
}
use spool.Metrics.Tasks.{Floats, record_task_completed, update_throughput}
use spool.Instrumented.{record_completed, record_failed, completed_duration, failed_duration}

wrap64-suc : (n : ℕ) → n < 9223372036854775807 → wrap64 (pos n +ℤ pos 1) ≡ pos (suc n)
unfolding wrap64 ◌+ℤ◌
wrap64-suc n h = ground arith

pub wrap64-sub_pos :
    (a b : ℕ) → b ≤ a → a < 9223372036854775808 → wrap64 (pos a -ℤ pos b) ≡ pos (a - b)
unfolding wrap64 ◌-ℤ◌
wrap64-sub_pos a b h k = ground arith

add32-down : (k : ℕ) → k < 2147483648 → add32 (sub_ℕ 0 k) minus_one ≡ sub_ℕ 0 (suc k)
unfolding wrap32 ◌+ℤ◌ ◌-ℤ◌
add32-down k h = ground arith

module _ {F : Type 0} where
  -- What the collector has counted for a worker: its completed and its failed tasks.
  abbrev pub counts : String → Metrics F → Option (ℤ × ℤ)
  counts id m = elim (lookup id m.worker_stats) [
    | none ↦ none
    | some v ↦ some (v.tasks_completed, v.tasks_failed)
  ]

  lookup-update_stats :
      (id : String) (f : WorkerStats → WorkerStats) (m : Metrics F) (v : WorkerStats)
      → lookup id m.worker_stats ≡ some v
      → lookup id (update_stats id f m) ≡ some (f v)
  lookup-update_stats id f m v e =
      rw (update_stats, e) (ground (arith, lookup-insert id id (f v) m.worker_stats, eq_iff id id))

  -- The values of an entry that is there.
  counted :
      (id : String) (m : Metrics F) (a b : ℤ)
      → counts id m ≡ some (a, b)
      → (v : WorkerStats) × (lookup id m.worker_stats ≡ some v)
        × (v.tasks_completed ≡ a)
        × (v.tasks_failed ≡ b)
  counted id m a b e = elim (Option-cases (lookup id m.worker_stats)) [
    | inl missing ↦ absurd (ground (arith, missing, e))
    | inr (v, found) ↦
        (let both : (v.tasks_completed ≡ a) × (v.tasks_failed ≡ b) = ground (arith, found, e) in
          (v, found, both.0, both.1))
  ]

  count_completed :
      (id : String) (d : ℤ) (m : Metrics F) (a : ℕ) (b : ℤ)
      → a < 9223372036854775807
      → counts id m ≡ some (pos a, b)
      → counts id (record_worker_task_completed id d true m) ≡ some (pos (suc a), b)
  unfolding record_worker_task_completed
  count_completed id d m a b h e =
      let (v, found, x, y) = counted id m (pos a) b e in
      rw (counts, lookup-update_stats id _ m v found) (ground (arith, x, y, wrap64-suc a h))

  count_failed :
      (id : String) (d : ℤ) (m : Metrics F) (a : ℤ) (b : ℕ)
      → b < 9223372036854775807
      → counts id m ≡ some (a, pos b)
      → counts id (record_worker_task_completed id d false m) ≡ some (a, pos (suc b))
  unfolding record_worker_task_completed
  count_failed id d m a b h e =
      let (v, found, x, y) = counted id m a (pos b) e in
      rw (counts, lookup-update_stats id _ m v found) (ground (arith, x, y, wrap64-suc b h))

  pub mark_worker_idle-counts :
      (now : ℕ) (id : String) (m : Metrics F) (a b : ℤ)
      → counts id m ≡ some (a, b)
      → counts id (mark_worker_idle now id m) ≡ some (a, b)
  unfolding mark_worker_idle
  mark_worker_idle-counts now id m a b e = elim (Bool-cases (has id m.worker_last_idle)) [
    | inl idle ↦ rw idle e
    | inr busy ↦
        (let (v, found, x, y) = counted id m a b e in
          rw (busy, counts, lookup-update_stats id _ m v found) (ground (arith, x, y)))
  ]

  module _ (floats : Floats F) (now : ℕ) where
    completed-stats :
        (d : ℤ) (m : Metrics F)
        → (record_task_completed floats now d m).worker_stats ≡ m.worker_stats
    unfolding record_task_completed update_throughput
    completed-stats d m = ground arith

    completed-in_progress :
        (d : ℤ) (m : Metrics F)
        → (record_task_completed floats now d m).tasks_in_progress
          ≡ add32 m.tasks_in_progress minus_one
    unfolding record_task_completed update_throughput
    completed-in_progress d m = ground arith

    completed-failed :
        (d : ℤ) (m : Metrics F)
        → (record_task_completed floats now d m).tasks_failed ≡ m.tasks_failed
    unfolding record_task_completed update_throughput
    completed-failed d m = ground arith

    -- The first loop counts one completed task in each round.
    pub record_completed_lem :
        (n : ℕ) (id : String) (m : Metrics F) (a : ℕ) (b : ℤ)
        → a + n < 9223372036854775808
        → counts id m ≡ some (pos a, b)
        → counts id (record_completed floats now id n m) ≡ some (pos (a + n), b)
    unfolding record_completed
    record_completed_lem zero id m a b h e = ground (arith, e)
    record_completed_lem (suc n) id m a b h e =
        let m1 = record_task_completed floats now completed_duration m in
        let e1 : counts id m1 ≡ some (pos a, b) = rw (completed-stats completed_duration m) e in
        let e2 = count_completed id completed_duration m1 a b (omega arith) e1 in
        let m2 = record_worker_task_completed id completed_duration true m1 in
        let next : suc a + n ≡ a + suc n = omega arith in
        subst (λ k. counts id (record_completed floats now id n m2) ≡ some (pos k, b)) next
          (record_completed_lem n id m2 (suc a) b (omega arith) e2)

    -- Each round takes one off the tasks in progress, which nothing has counted up.
    pub record_completed-in_progress :
        (n k : ℕ) (id : String) (m : Metrics F)
        → k + n < 2147483648
        → m.tasks_in_progress ≡ sub_ℕ 0 k
        → (record_completed floats now id n m).tasks_in_progress ≡ sub_ℕ 0 (k + n)
    unfolding record_completed record_task_completed record_worker_task_completed
    record_completed-in_progress zero k id m h e = ground (arith, e)
    record_completed-in_progress (suc n) k id m h e =
        let m1 = record_task_completed floats now completed_duration m in
        let m2 = record_worker_task_completed id completed_duration true m1 in
        let e1 : m1.tasks_in_progress ≡ sub_ℕ 0 (suc k) =
          rw (completed-in_progress completed_duration m, e) (add32-down k (omega arith)) in
        let next : suc k + n ≡ k + suc n = omega arith in
        subst (λ i. (record_completed floats now id n m2).tasks_in_progress ≡ sub_ℕ 0 i) next
          (record_completed-in_progress n (suc k) id m2 (omega arith) e1)

    pub record_completed-tasks_failed :
        (n : ℕ) (id : String) (m : Metrics F)
        → (record_completed floats now id n m).tasks_failed ≡ m.tasks_failed
    unfolding record_completed record_task_completed record_worker_task_completed
    record_completed-tasks_failed zero id m = refl
    record_completed-tasks_failed (suc n) id m =
        let m1 = record_task_completed floats now completed_duration m in
        record_completed-tasks_failed n id
          (record_worker_task_completed id completed_duration true m1)
        ∙ completed-failed completed_duration m

    pub record_failed_lem :
        (n : ℕ) (id : String) (m : Metrics F) (a : ℤ) (b : ℕ)
        → b + n < 9223372036854775808
        → counts id m ≡ some (a, pos b)
        → counts id (record_failed floats id n m) ≡ some (a, pos (b + n))
    unfolding record_failed
    record_failed_lem zero id m a b h e = ground (arith, e)
    record_failed_lem (suc n) id m a b h e =
        let m1 = record_worker_task_completed id failed_duration false m in
        let next : suc b + n ≡ b + suc n = omega arith in
        subst (λ k. counts id (record_failed floats id n m1) ≡ some (a, pos k)) next
          (record_failed_lem n id m1 a (suc b) (omega arith)
            (count_failed id failed_duration m a b (omega arith) e))

    -- The second loop tells the collector nothing but the worker's own count.
    pub record_failed-totals :
        (n : ℕ) (id : String) (m : Metrics F)
        → let m' = record_failed floats id n m in
          (m'.tasks_failed ≡ m.tasks_failed) × (m'.tasks_in_progress ≡ m.tasks_in_progress)
    unfolding record_failed record_worker_task_completed
    record_failed-totals zero id m = (refl, refl)
    record_failed-totals (suc n) id m =
        record_failed-totals n id (record_worker_task_completed id failed_duration false m)
