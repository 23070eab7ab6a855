-- ===== src/Demos/LiveDashboard/Doubled.antt =====
-- The worker counts after examples/dashboard/main.go has started its workers.
use spool.Prelude.{
  ℕ, ◌+◌, ◌*◌, ◌<◌, ◌≡◌, ◌≢◌, ap, ◌∙◌, sym, false, List, [], ◌∷◌, pos, length, has, eq_iff,
  length-insert, has-insert, insert, arith, wrap32, ◌+ℤ◌,
}
use spool.Queue.RedisQueue.Lines.{All}
use spool.Queue.RedisQueue.Settling.{str_ne}
use spool.Metrics.{Metrics, register_worker, fresh_stats, add32}
use spool.Metrics.Tasks.{Floats}
use spool.Instrumented.{InstrumentedWorker, start}
use spool.Demos.LiveDashboard.{start_worker, start_workers}

add32_two : (a : ℕ) → a < 2147483646 → add32 (add32 (pos a) (pos 1)) (pos 1) ≡ pos (a + 2)
unfolding wrap32 ◌+ℤ◌
add32_two a h = ground arith

-- Workers with different ids.
abbrev pub AreDifferent : List InstrumentedWorker → Type 0
AreDifferent [] = Unit
AreDifferent (v ∷ vs) =
    All (λ (u : InstrumentedWorker). u.worker.id ≢ v.worker.id) vs × AreDifferent vs

module _ {F : Type 0} (floats : Floats F) (now : ℕ) where
  abbrev pub AreUnknown : Metrics F → List InstrumentedWorker → Type 0
  AreUnknown m = All (λ (v : InstrumentedWorker). has v.worker.id m.worker_stats ≡ false)

  start_worker_counts :
      (v : InstrumentedWorker) (m : Metrics F) (a : ℕ)
      → m.active_workers ≡ pos a
      → a < 2147483646
      → has v.worker.id m.worker_stats ≡ false
      → ((start_worker floats now v m).1.active_workers ≡ pos (a + 2))
        × (length (start_worker floats now v m).1.worker_stats ≡ length m.worker_stats + 1)
  unfolding start_worker start register_worker
  start_worker_counts v m a e h new =
      let id = v.worker.id in
      let once = length-insert id (fresh_stats now id) m.worker_stats in
      let there = has-insert id id (fresh_stats now id) m.worker_stats in
      let twice =
        length-insert id (fresh_stats now id) (insert id (fresh_stats now id) m.worker_stats) in
      (rw e (add32_two a h), ground (arith, once, there, twice, new, eq_iff id id))

  others_unknown :
      (v : InstrumentedWorker) (m : Metrics F) (vs : List InstrumentedWorker)
      → All (λ (u : InstrumentedWorker). u.worker.id ≢ v.worker.id) vs
      → AreUnknown m vs
      → AreUnknown (start_worker floats now v m).1 vs
  unfolding start_worker start register_worker
  others_unknown v m [] n k = tt
  others_unknown v m (u ∷ us) n k = (
    ground (
      arith,
      str_ne v.worker.id u.worker.id (λ e. n.0 (sym e)),
      has-insert v.worker.id u.worker.id (fresh_stats now v.worker.id)
          (insert v.worker.id (fresh_stats now v.worker.id) m.worker_stats),
      has-insert v.worker.id u.worker.id (fresh_stats now v.worker.id) m.worker_stats,
      k.0,
    ),
    others_unknown v m us n.1 k.1,
  )

  -- Workers with different ids that the metrics do not know are counted as active twice each, while
  -- the metrics have statistics of each once, if the count of active workers is not negative before
  -- and fits into an int32 afterwards.
  pub start_workers_lem :
      (vs : List InstrumentedWorker) (m : Metrics F) (a : ℕ)
      → m.active_workers ≡ pos a
      → a + 2 * length vs < 2147483648
      → AreDifferent vs
      → AreUnknown m vs
      → ((start_workers floats now vs m).1.active_workers ≡ pos (a + 2 * length vs))
        × (length (start_workers floats now vs m).1.worker_stats
            ≡ length m.worker_stats + length vs)
  unfolding start_workers
  start_workers_lem [] m a e small d k = (rw e (ap pos (omega arith)), omega arith)
  start_workers_lem (v ∷ vs) m a e small d k =
      let one = start_worker_counts v m a e (omega (arith, small)) k.0 in
      let rest =
        start_workers_lem vs (start_worker floats now v m).1 (a + 2) one.0 (omega (arith, small))
          d.1 (others_unknown v m vs d.0 k.1) in
      (rest.0 ∙ ap pos (omega arith), omega (arith, rest.1, one.1))
