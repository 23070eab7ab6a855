-- ===== src/Instrumented/Ticks.antt =====
-- What the metrics know of a worker after a tick of internal/worker/instrumented.go.
use spool.Prelude.{
  String, ℕ, ◌+◌, ◌-◌, ◌≤◌, ◌<◌, ◌≡◌, refl, ◌∙◌, true, false, ◌||◌, some, pos, arith, sub_ℕ, ltb_ℤ,
  ltb, inl, inr, Bool-cases, if◌then◌else◌,
}
use spool.Metrics.{Metrics, mark_worker_idle}
use spool.Metrics.Tasks.{Floats}
use spool.Instrumented.{InstrumentedWorker, sync, record_completed, record_failed}
use spool.Instrumented.Sync.{
  counts, wrap64-sub_pos, record_completed_lem, record_completed-in_progress,
  record_completed-tasks_failed, record_failed_lem, record_failed-totals, mark_worker_idle-counts,
}

-- A running worker with its counters, and what the last tick has seen of them.
pub record Ahead (v : InstrumentedWorker) (processed seen failed seen_failed : ℕ) : Type 0 where
  pub running : v.worker.running ≡ true
  pub processed_is : v.worker.tasks_processed ≡ pos processed
  pub failed_is : v.worker.tasks_failed ≡ pos failed
  pub seen_is : v.last_processed ≡ pos seen
  pub seen_failed_is : v.last_failed ≡ pos seen_failed
  pub seen_le : seen ≤ processed
  pub seen_failed_le : seen_failed ≤ failed
  pub fits : processed < 9223372036854775808
  pub failed_fits : failed < 9223372036854775808

ltb_ℤ-pos : (n : ℕ) → ltb_ℤ (pos 0) (pos n) ≡ ltb 0 n
ltb_ℤ-pos n = ground arith

-- Nothing is new only if the last tick has seen it all.
caught_up :
    (a b c d : ℕ) → b ≤ a → d ≤ c → ltb 0 (a - b) || ltb 0 (c - d) ≡ false → (b ≡ a) × (d ≡ c)
caught_up a b c d h k e = ground arith

module _ {F : Type 0} (floats : Floats F) (now : ℕ) where
  recorded : InstrumentedWorker → ℕ → ℕ → Metrics F → Metrics F
  recorded v n k m =
      record_failed floats v.worker.id k (record_completed floats now v.worker.id n m)

  -- A tick runs both loops for what is new, and does nothing if nothing is.
  sync_cases :
      (v : InstrumentedWorker) (m : Metrics F) (a b c d : ℕ)
      → Ahead v a b c d
      → sync floats now v m ≡ (
          if ltb 0 (a - b) || ltb 0 (c - d)
          then (
            record v { last_processed = pos a; last_failed = pos c },
            mark_worker_idle now v.worker.id (recorded v (a - b) (c - d) m),
          )
          else (v, m))
  unfolding sync recorded
  sync_cases v m a b c d h =
      rw
        (
          h.processed_is,
          h.failed_is,
          h.seen_is,
          h.seen_failed_is,
          h.running,
          wrap64-sub_pos a b h.seen_le h.fits,
          wrap64-sub_pos c d h.seen_failed_le h.failed_fits,
          ltb_ℤ-pos (a - b),
          ltb_ℤ-pos (c - d),
        )
        refl

  -- What the two loops leave in the worker's entry.
  recorded-counts :
      (v : InstrumentedWorker) (m : Metrics F) (a b c d : ℕ)
      → Ahead v a b c d
      → counts v.worker.id m ≡ some (pos b, pos d)
      → counts v.worker.id (recorded v (a - b) (c - d) m) ≡ some (pos a, pos c)
  unfolding recorded
  recorded-counts v m a b c d h e =
      let id = v.worker.id in
      let up : b + (a - b) ≡ a = ground (arith, h.seen_le) in
      let up_failed : d + (c - d) ≡ c = ground (arith, h.seen_failed_le) in
      let fits : b + (a - b) < 9223372036854775808 = ground (arith, up, h.fits) in
      let failed_fits : d + (c - d) < 9223372036854775808 =
        ground (arith, up_failed, h.failed_fits) in
      let m1 = record_completed floats now id (a - b) m in
      let e1 = record_completed_lem floats now (a - b) id m b (pos d) fits e in
      let e2 = record_failed_lem floats now (c - d) id m1 (pos (b + (a - b))) d failed_fits e1 in
      e2 ∙ rw (up, up_failed) refl

  recorded-totals :
      (v : InstrumentedWorker) (m : Metrics F) (n k i : ℕ)
      → i + n < 2147483648
      → m.tasks_in_progress ≡ sub_ℕ 0 i
      → ((recorded v n k m).tasks_failed ≡ m.tasks_failed)
        × ((recorded v n k m).tasks_in_progress ≡ sub_ℕ 0 (i + n))
  unfolding recorded
  recorded-totals v m n k i h e =
      let id = v.worker.id in
      let m1 = record_completed floats now id n m in
      let (failed, in_progress) = record_failed-totals floats now k id m1 in
      (
        failed ∙ record_completed-tasks_failed floats now n id m,
        in_progress ∙ record_completed-in_progress floats now n i id m h e,
      )

  -- After a tick of a running worker, the collector's counts of this worker are the worker's own
  -- counters, if they were the counters of the last tick before; the tick remembers the counters
  -- and leaves the worker alone. The counters fit into an int64 and have not gone down.
  pub sync-counts :
      (v : InstrumentedWorker) (m : Metrics F) (a b c d : ℕ)
      → Ahead v a b c d
      → counts v.worker.id m ≡ some (pos b, pos d)
      → let (v', m') = sync floats now v m in
        (counts v.worker.id m' ≡ some (pos a, pos c))
        × (v'.last_processed ≡ pos a)
        × (v'.last_failed ≡ pos c)
        × (v'.worker ≡ v.worker)
  sync-counts v m a b c d h e =
      rw (sync_cases v m a b c d h) (elim (Bool-cases (ltb 0 (a - b) || ltb 0 (c - d))) [
        | inl some_new ↦ rw some_new (
          mark_worker_idle-counts now v.worker.id _ (pos a) (pos c)
              (recorded-counts v m a b c d h e),
          refl,
          refl,
          refl,
        )
        | inr none_new ↦ rw none_new (
          e
              ∙ rw
                  (
                    (caught_up a b c d h.seen_le h.seen_failed_le none_new).0,
                    (caught_up a b c d h.seen_le h.seen_failed_le none_new).1,
                  )
                  refl,
          h.seen_is ∙ rw (caught_up a b c d h.seen_le h.seen_failed_le none_new).0 refl,
          h.seen_failed_is ∙ rw (caught_up a b c d h.seen_le h.seen_failed_le none_new).1 refl,
          refl,
        )
      ])

  mark_worker_idle-totals :
      (id : String) (m : Metrics F)
      → ((mark_worker_idle now id m).tasks_failed ≡ m.tasks_failed)
        × ((mark_worker_idle now id m).tasks_in_progress ≡ m.tasks_in_progress)
  unfolding mark_worker_idle
  mark_worker_idle-totals id m = ground arith

  -- If the collector's tasks in progress are at or below 0, a tick of a running worker takes the
  -- newly processed tasks off them, and leaves the collector's total of failed tasks as it was,
  -- whatever has failed. The counters fit, and have not gone down.
  pub sync-totals :
      (v : InstrumentedWorker) (m : Metrics F) (a b c d i : ℕ)
      → Ahead v a b c d
      → m.tasks_in_progress ≡ sub_ℕ 0 i
      → i + (a - b) < 2147483648
      → let m' = (sync floats now v m).1 in
        (m'.tasks_in_progress ≡ sub_ℕ 0 (i + (a - b))) × (m'.tasks_failed ≡ m.tasks_failed)
  sync-totals v m a b c d i h e small =
      rw (sync_cases v m a b c d h) (elim (Bool-cases (ltb 0 (a - b) || ltb 0 (c - d))) [
        | inl some_new ↦ rw some_new (
            let (failed, in_progress) = recorded-totals v m (a - b) (c - d) i small e in
            let (failed', in_progress') =
              mark_worker_idle-totals v.worker.id (recorded v (a - b) (c - d) m) in
            (in_progress' ∙ in_progress, failed' ∙ failed))
        | inr none_new ↦
            rw none_new
              (e ∙ ground (arith, caught_up a b c d h.seen_le h.seen_failed_le none_new), refl)
      ])
