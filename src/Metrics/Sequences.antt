-- ===== src/Metrics/Sequences.antt =====
-- What may happen to the worker counts of internal/monitoring/metrics.go, call after call.
use spool.Prelude.{
  ℕ, ◌<◌, ◌≡◌, refl, String, true, false, Bool, some, ℤ, pos, arith, length, lookup, has, ◌+ℤ◌,
  lookup-insert, eq_iff, has-insert,
}
use spool.Metrics.{
  Metrics, new_metrics, register_worker, unregister_worker, mark_worker_busy, mark_worker_idle,
  record_worker_task_completed,
}
use spool.Metrics.Tracking.{
  IsTracked, new_metrics-IsTracked, register_worker-IsTracked, unregister_worker-IsTracked,
  mark_worker_busy-IsTracked, mark_worker_idle-IsTracked, record_worker_task_completed-IsTracked,
  idle_le, add32_one, has-update_stats,
}

module _ {F : Type 0} where
  -- The calls about workers, where a worker is registered once, and marked idle or unregistered only
  -- while it is registered.
  pub data Step : Metrics F → Metrics F → Type 0 where
    registers :
        {m : Metrics F} (now : ℕ) (id : String)
        → has id m.worker_stats ≡ false
        → length m.worker_stats < 2147483646
        → Step m (register_worker now id m)
    unregisters :
        {m : Metrics F} (id : String)
        → has id m.worker_stats ≡ true
        → Step m (unregister_worker id m)
    gets_busy : {m : Metrics F} (now : ℕ) (id : String) → Step m (mark_worker_busy now id m)
    gets_idle :
        {m : Metrics F} (now : ℕ) (id : String)
        → has id m.worker_stats ≡ true
        → Step m (mark_worker_idle now id m)
    completes :
        {m : Metrics F} (id : String) (duration : ℤ) (success : Bool)
        → Step m (record_worker_task_completed id duration success m)

  pub data Reach (m : Metrics F) : Metrics F → Type 0 where
    here : Reach m m
    next : {a b : Metrics F} → Reach m a → Step a b → Reach m b

  Step-IsTracked : {a b : Metrics F} → Step a b → IsTracked a → IsTracked b
  Step-IsTracked (registers now id new room) k = register_worker-IsTracked now id _ k new room
  Step-IsTracked (unregisters id known) k = unregister_worker-IsTracked id _ k known
  Step-IsTracked (gets_busy now id) k = mark_worker_busy-IsTracked now id _ k
  Step-IsTracked (gets_idle now id known) k = mark_worker_idle-IsTracked now id _ k known
  Step-IsTracked (completes id d success) k =
      record_worker_task_completed-IsTracked id d success _ k

  Reach-IsTracked : {a b : Metrics F} → Reach a b → IsTracked a → IsTracked b
  Reach-IsTracked here k = k
  Reach-IsTracked (next r st) k = Step-IsTracked st (Reach-IsTracked r k)

  -- A new collector takes any calls of RegisterWorker for unknown workers, of UnregisterWorker and
  -- MarkWorkerIdle for known ones, and of MarkWorkerBusy and RecordWorkerTaskCompleted, with less
  -- than 2^31 - 1 workers. After them the active workers are the idle and the busy ones together,
  -- and there are as many active ones as have statistics and as many idle ones as have an idle time.
  pub tracked :
      (now : ℕ) (m : Metrics F)
      → Reach (new_metrics now) m
      → (m.active_workers ≡ m.idle_workers +ℤ m.busy_workers)
        × (m.active_workers ≡ pos (length m.worker_stats))
        × (m.idle_workers ≡ pos (length m.worker_last_idle))
  unfolding ◌+ℤ◌
  tracked now m r =
      let k = Reach-IsTracked r (new_metrics-IsTracked now) in
      (
        ground (arith, k.active_count, k.idle_count, k.busy_count, idle_le m k),
        k.active_count,
        k.idle_count,
      )

  -- From any state with right counts, marking a worker idle that is not registered counts it as idle,
  -- and not as active, and gives it an idle time: the counts are not right any more.
  pub mark_worker_idle-unknown :
      (now : ℕ) (id : String) (m : Metrics F)
      → IsTracked m
      → has id m.worker_stats ≡ false
      → let m' = mark_worker_idle now id m in
        (m'.active_workers ≡ m.active_workers)
        × (m'.idle_workers ≡ m.idle_workers +ℤ pos 1)
        × (lookup id m'.worker_last_idle ≡ some now)
        × ¬ IsTracked m'
  unfolding mark_worker_idle ◌+ℤ◌
  mark_worker_idle-unknown now id m k unknown =
      let absent : has id m.worker_last_idle ≡ false = ground (arith, k.idle_known id, unknown) in
      rw absent (
        refl,
        ground (arith, k.idle_count, idle_le m k, k.few, add32_one (length m.worker_last_idle)),
        ground (arith, lookup-insert id id now m.worker_last_idle, eq_iff id id),
        λ k'. ground (
          arith,
          k'.idle_known id,
          has-insert id id now m.worker_last_idle,
          has-update_stats id id _ m,
          unknown,
          eq_iff id id,
        ),
      )
